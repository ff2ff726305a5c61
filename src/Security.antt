-- ===== src/Security.antt =====
-- app/security.py: the encoding of password hashes and of session tokens. scrypt and SHA-256 are
-- parameters, and so are the random bytes. base64 is that of the standard library: its decoder
-- skips characters outside the alphabet, as `binascii.a2b_base64` does.
pub mod Encoding
pub mod Verifying
use doc_chat_platform.Text.{strip, Text, digit_value, codes, text_eq, cons_first}
use doc_chat_platform.Base.{
  [], none, some, true, false, zero, suc, ok, err, Bool, List, Option, ◌∷◌, ℕ, ltb, if◌then◌else◌,
  ◌/◌, ◌*◌, Result, ◌==◌, ◌++◌, ◌+◌, ◌%◌, is_empty, leb, all, ◌&&◌, ◌-◌, ◌||◌, length,
}

abbrev pub Bytes : Type 0
Bytes = List ℕ

-- The character of a group of six bits, in the alphabet that is safe in a URL.
unfoldable pub character : ℕ → ℕ
character x =
    if ltb x 26
    then x + 65
    else if ltb x 52
    then x + 71
    else if ltb x 62
    then x - 4
    else if x == 62
    then b'-'
    else b'_'

pub data Symbol : Type 0 where
  pad : Symbol
  six : ℕ → Symbol

-- What the decoder reads in a character: padding, six bits, or nothing.
unfoldable pub symbol_of : ℕ → Option Symbol
symbol_of c =
    if c == b'='
    then some pad
    else if leb b'A' c && leb c b'Z'
    then some (six (c - 65))
    else if leb b'a' c && leb c b'z'
    then some (six (c - 71))
    else if leb b'0' c && leb c b'9'
    then some (six (c + 4))
    else if c == b'-' || c == b'+'
    then some (six 62)
    else if c == b'_' || c == b'/'
    then some (six 63)
    else none

abbrev pub push_symbol : Option Symbol → List Symbol → List Symbol
push_symbol none s = s
push_symbol (some x) s = x ∷ s

unfoldable pub symbols : Text → List Symbol
unfolding symbol_of
symbols [] = []
symbols (c ∷ cs) = push_symbol (symbol_of c) (symbols cs)

-- `base64.urlsafe_b64encode`
unfoldable pub urlsafe_b64encode : Bytes → Text
unfolding character
urlsafe_b64encode [] = []
urlsafe_b64encode (a ∷ []) = character (a / 4) ∷ character (a % 4 * 16) ∷ b'=' ∷ b'=' ∷ []
urlsafe_b64encode (a ∷ b ∷ []) =
    character (a / 4) ∷ character (a % 4 * 16 + b / 16) ∷ character (b % 16 * 4) ∷ b'=' ∷ []
urlsafe_b64encode (a ∷ b ∷ c ∷ rest) =
    character (a / 4)
    ∷ character (a % 4 * 16 + b / 16)
    ∷ character (b % 16 * 4 + c / 64)
    ∷ character (c % 64)
    ∷ urlsafe_b64encode rest

abbrev pub with_byte : ℕ → Option Bytes → Option Bytes
with_byte b none = none
with_byte b (some bs) = some (b ∷ bs)

-- The loop of the decoder, by the place in a group of four; the bits left over are an argument.
-- Padding ends the text at the fourth place, and is skipped before the third.
unfoldable mutual
  pub decode_first : List Symbol → Option Bytes
  decode_first [] = some []
  decode_first (pad ∷ s) = decode_first s
  decode_first (six a ∷ s) = decode_second a s

  pub decode_second : ℕ → List Symbol → Option Bytes
  decode_second left [] = none
  decode_second left (pad ∷ s) = decode_second left s
  decode_second left (six b ∷ s) = with_byte (left * 4 + b / 16) (decode_third (b % 16) 0 s)

  pub decode_third : ℕ → ℕ → List Symbol → Option Bytes
  decode_third left pads [] = none
  decode_third left zero (pad ∷ s) = decode_third left 1 s
  decode_third left (suc pads) (pad ∷ s) = some []
  decode_third left pads (six c ∷ s) = with_byte (left * 16 + c / 4) (decode_fourth (c % 4) s)

  pub decode_fourth : ℕ → List Symbol → Option Bytes
  decode_fourth left [] = none
  decode_fourth left (pad ∷ s) = some []
  decode_fourth left (six d ∷ s) = with_byte (left * 64 + d) (decode_first s)

abbrev pub is_ascii : ℕ → Bool
is_ascii c = ltb c 128

-- `base64.urlsafe_b64decode`; `none` is a ValueError
unfoldable pub urlsafe_b64decode : Text → Option Bytes
unfolding symbols decode_first
urlsafe_b64decode t = if all is_ascii t then decode_first (symbols t) else none

-- `.rstrip("=")`
unfoldable pub rstrip_padding : Text → Text
rstrip_padding [] = []
rstrip_padding (c ∷ cs) =
    let rest = rstrip_padding cs in if is_empty rest && c == b'=' then [] else c ∷ rest

-- `"=" * n`
unfoldable pub padding : ℕ → Text
padding zero = []
padding (suc n) = b'=' ∷ padding n

unfoldable pub b64 : Bytes → Text
unfolding urlsafe_b64encode rstrip_padding
b64 raw = rstrip_padding (urlsafe_b64encode raw)

unfoldable pub unb64 : Text → Option Bytes
unfolding urlsafe_b64decode padding
unb64 t = urlsafe_b64decode (t ++ padding ((4 - length t % 4) % 4))

-- `text.split(c)`
unfoldable pub split_on : ℕ → Text → List Text
split_on d [] = [] ∷ []
split_on d (c ∷ cs) = let rest = split_on d cs in if c == d then [] ∷ rest else cons_first c rest

-- The digits of `int(text)`, with single underscores between them; `after` tells that the character
-- before is a digit.
unfoldable pub int_digits : Bool → ℕ → Text → Option ℕ
unfolding digit_value
int_digits after acc [] = if after then some acc else none
int_digits after acc (c ∷ cs) = elim (digit_value c) [
  | some d ↦ int_digits true (acc * 10 + d) cs
  | none ↦ if after && c == b'_' then int_digits false acc cs else none
]

-- `none` stands for a ValueError, and for a number below 0, which scrypt refuses as an argument.
unfoldable pub signed_int : Text → Option ℕ
unfolding int_digits
signed_int [] = none
signed_int (c ∷ cs) =
    if c == b'-'
    then zero_only (int_digits false 0 cs)
    else if c == b'+'
    then int_digits false 0 cs
    else int_digits false 0 (c ∷ cs)
  where
    zero_only : Option ℕ → Option ℕ
    zero_only none = none
    zero_only (some n) = if n == 0 then some 0 else none

unfoldable pub parse_int : Text → Option ℕ
unfolding signed_int strip
parse_int t = signed_int (strip t)

-- hashlib.scrypt for a password, a salt and the numbers n, r and p, with the length of the key
-- and the memory of `_derive`; `none` is a ValueError or a TypeError. SHA-256 gives its digest in
-- hexadecimal.
pub record Hashes : Type 0 where
  pub scrypt : Text → Bytes → ℕ → ℕ → ℕ → Option Bytes
  pub sha256 : Text → Text

-- `_PREFIX`, `_N`, `_R` and `_P` as the hash spells them
abbrev pub prefix : Text
prefix = codes "scrypt"

abbrev pub scheme_of : Bytes → Bytes → Text
scheme_of salt digest =
    prefix
    ++ (b'$'
        ∷ (codes "16384"
            ++ (b'$'
                ∷ (codes "8"
                    ++ (b'$' ∷ (codes "1" ++ (b'$' ∷ (b64 salt ++ (b'$' ∷ b64 digest)))))))))

pub data HashError : Type 0 where
  empty_password scrypt_failed : HashError

module _ (hashes : Hashes) where
  -- The salt is what `secrets.token_bytes` returns.
  unfoldable pub hash_password : Bytes → Text → Result HashError Text
  hash_password salt [] = err empty_password
  hash_password salt (c ∷ cs) = encoded (hashes.scrypt (c ∷ cs) salt 16384 8 1)
    where
      encoded : Option Bytes → Result HashError Text
      encoded none = err scrypt_failed
      encoded (some digest) = ok (scheme_of salt digest)

  abbrev pub compare_derived : Option Bytes → Bytes → Bool
  compare_derived none expected = false
  compare_derived (some actual) expected = text_eq actual expected

  abbrev pub derive_and_compare :
      Text → Option Bytes → Option Bytes → Option ℕ → Option ℕ → Option ℕ → Bool
  derive_and_compare password (some expected) (some salt) (some n) (some r) (some p) =
      compare_derived (hashes.scrypt password salt n r p) expected
  derive_and_compare password _ _ _ _ _ = false

  abbrev pub verify_fields : Text → List Text → Bool
  verify_fields password (scheme ∷ n ∷ r ∷ p ∷ salt ∷ digest ∷ []) =
      if text_eq scheme prefix
      then derive_and_compare password (unb64 digest) (unb64 salt) (parse_int n) (parse_int r)
          (parse_int p)
      else false
  verify_fields password _ = false

  unfoldable pub verify_password : Text → Text → Bool
  unfolding split_on
  verify_password password encoded = verify_fields password (split_on b'$' encoded)

-- `.encode("ascii")` raises for any other character.
pub data TokenError : Type 0 where
  unicode_encode_error : TokenError

unfoldable pub hash_session_token : Hashes → Text → Result TokenError Text
hash_session_token hashes token =
    if all is_ascii token then ok (hashes.sha256 token) else err unicode_encode_error
