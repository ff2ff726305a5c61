-- ===== src/Security/Encoding.antt =====
-- What is encoded in base64 is decoded back.
use doc_chat_platform.Text.{Text}
use doc_chat_platform.Security.{
  character, symbol_of, Symbol, six, is_ascii, Bytes, pad, rstrip_padding, padding,
  urlsafe_b64encode, decode_first, symbols, b64, unb64, urlsafe_b64decode,
}
use doc_chat_platform.Base.{
  none, some, true, false, zero, suc, refl, arith, Bool, Option, ℕ, ◌≡◌, ◌&&◌, ◌<◌, not, ◌==◌, ◌++◌,
  All, ◌∷◌, ◌-◌, length, ◌%◌, [], ◌*◌, ◌/◌, ◌+◌, all, ap,
}

all_below : ℕ → (ℕ → Bool) → Bool
all_below zero p = true
all_below (suc n) p = p n && all_below n p

all_below_at : (n : ℕ) (p : ℕ → Bool) (x : ℕ) → all_below n p ≡ true → x < n → p x ≡ true
unfolding all_below
all_below_at zero p x h lt = absurd (omega arith)
all_below_at (suc n) p x h lt = ground (arith, all_below_at n p x)

abbrev is_six : ℕ → Option Symbol → Bool
is_six x none = false
is_six x (some pad) = false
is_six x (some (six y)) = x == y

is_six→eq : (x : ℕ) (o : Option Symbol) → is_six x o ≡ true → o ≡ some (six x)
is_six→eq x none h = cc
is_six→eq x (some pad) h = cc
is_six→eq x (some (six y)) h = ground arith

-- What holds of each of the 64 characters.
abbrev fits : ℕ → Bool
fits x =
    is_six x (symbol_of (character x))
    && (not (character x == b'=') && (not (character x == b'$') && is_ascii (character x)))

fits_table : all_below 64 fits ≡ true
unfolding all_below character symbol_of
fits_table = refl

fits_at : (x : ℕ) → x < 64 → fits x ≡ true
fits_at x h = all_below_at 64 fits x fits_table h

pub record Encodes (x : ℕ) (c : ℕ) : Type 0 where
  pub reads : symbol_of c ≡ some (six x)
  pub no_pad : (c == b'=') ≡ false
  pub no_dollar : (c == b'$') ≡ false
  pub ascii : is_ascii c ≡ true

character-Encodes : (x : ℕ) → x < 64 → Encodes x (character x)
character-Encodes x h =
    let f = fits_at x h in
    record {
      reads = is_six→eq x (symbol_of (character x)) (ground (arith, f));
      no_pad = ground (arith, f);
      no_dollar = ground (arith, f);
      ascii = ground (arith, f);
    }

abbrev pub IsBytes : Bytes → Type 0
IsBytes = All (λ b. b < 256)

-- A text as long as a multiple of four, and the padding that brings another up to it.
restores : Text → Text
restores t = rstrip_padding t ++ padding ((4 - length (rstrip_padding t) % 4) % 4)

rstrip_padding-keep :
    (c : ℕ) (t : Text) → (c == b'=') ≡ false → rstrip_padding (c ∷ t) ≡ c ∷ rstrip_padding t
unfolding rstrip_padding
rstrip_padding-keep c t h = ground arith

length_mod : (n : ℕ) → (4 - suc (suc (suc (suc n))) % 4) % 4 ≡ (4 - n % 4) % 4
length_mod n = omega arith

restores-group :
    (a b c d : ℕ) (t : Text)
    → (a == b'=') ≡ false
    → (b == b'=') ≡ false
    → (c == b'=') ≡ false
    → (d == b'=') ≡ false
    → restores (a ∷ b ∷ c ∷ d ∷ t) ≡ a ∷ b ∷ c ∷ d ∷ restores t
unfolding restores
restores-group a b c d t ha hb hc hd =
    rw
      (
        rstrip_padding-keep a _ ha,
        rstrip_padding-keep b _ hb,
        rstrip_padding-keep c _ hc,
        rstrip_padding-keep d t hd,
      )
      (rw (length_mod (length (rstrip_padding t))))

-- The characters that a group of three bytes is spelled by.
module _ (a b c : ℕ) (ha : a < 256) (hb : b < 256) (hc : c < 256) where
  first-Encodes : Encodes (a / 4) (character (a / 4))
  first-Encodes = character-Encodes (a / 4) (omega arith)

  second-Encodes : Encodes (a % 4 * 16 + b / 16) (character (a % 4 * 16 + b / 16))
  second-Encodes = character-Encodes (a % 4 * 16 + b / 16) (omega arith)

  third-Encodes : Encodes (b % 16 * 4 + c / 64) (character (b % 16 * 4 + c / 64))
  third-Encodes = character-Encodes (b % 16 * 4 + c / 64) (omega arith)

  fourth-Encodes : Encodes (c % 64) (character (c % 64))
  fourth-Encodes = character-Encodes (c % 64) (omega arith)

last_of_one-Encodes : (a : ℕ) → a < 256 → Encodes (a % 4 * 16) (character (a % 4 * 16))
last_of_one-Encodes a h = character-Encodes (a % 4 * 16) (omega arith)

last_of_two-Encodes : (b : ℕ) → b < 256 → Encodes (b % 16 * 4) (character (b % 16 * 4))
last_of_two-Encodes b h = character-Encodes (b % 16 * 4) (omega arith)

restores-encode :
    (raw : Bytes) → IsBytes raw → restores (urlsafe_b64encode raw) ≡ urlsafe_b64encode raw
unfolding urlsafe_b64encode
restores-encode [] h = unfold restores rstrip_padding padding in refl
restores-encode (a ∷ []) h =
    let p = first-Encodes a 0 0 h.0 (omega arith) (omega arith) in
    let q = last_of_one-Encodes a h.0 in
    unfold restores rstrip_padding padding in ground (arith, p.no_pad, q.no_pad)
restores-encode (a ∷ b ∷ []) h =
    let p = first-Encodes a 0 0 h.0 (omega arith) (omega arith) in
    let q = second-Encodes a b 0 h.0 h.1.0 (omega arith) in
    let r = last_of_two-Encodes b h.1.0 in
    unfold restores rstrip_padding padding in ground (arith, p.no_pad, q.no_pad, r.no_pad)
restores-encode (a ∷ b ∷ c ∷ raw) h =
    let p = first-Encodes a b c h.0 h.1.0 h.1.1.0 in
    let q = second-Encodes a b c h.0 h.1.0 h.1.1.0 in
    let r = third-Encodes a b c h.0 h.1.0 h.1.1.0 in
    let s = fourth-Encodes a b c h.0 h.1.0 h.1.1.0 in
    rw (restores-group _ _ _ _ (urlsafe_b64encode raw) p.no_pad q.no_pad r.no_pad s.no_pad)
      (rw (restores-encode raw h.1.1.1))

symbols-character : (x : ℕ) (c : ℕ) (t : Text) → Encodes x c → symbols (c ∷ t) ≡ six x ∷ symbols t
unfolding symbols
symbols-character x c t e = rw e.reads

symbols-pad : (t : Text) → symbols (b'=' ∷ t) ≡ pad ∷ symbols t
unfolding symbols symbol_of
symbols-pad t = refl

byte_of_six : (a b : ℕ) → b < 256 → a / 4 * 4 + (a % 4 * 16 + b / 16) / 16 ≡ a
byte_of_six a b h = omega arith

second_of_six :
    (a b c : ℕ)
    → c < 256
    → b < 256
    → (a % 4 * 16 + b / 16) % 16 * 16 + (b % 16 * 4 + c / 64) / 4 ≡ b
second_of_six a b c h k = omega arith

third_of_six : (b c : ℕ) → c < 256 → (b % 16 * 4 + c / 64) % 4 * 64 + c % 64 ≡ c
third_of_six b c h = omega arith

decode-encode :
    (raw : Bytes) → IsBytes raw → decode_first (symbols (urlsafe_b64encode raw)) ≡ some raw
unfolding urlsafe_b64encode decode_first
decode-encode [] h = unfold symbols in refl
decode-encode (a ∷ []) h =
    rw
      (
        symbols-character _ _ _ (first-Encodes a 0 0 h.0 (omega arith) (omega arith)),
        symbols-character _ _ _ (last_of_one-Encodes a h.0),
        symbols-pad (b'=' ∷ []),
        symbols-pad [],
      )
      (ap (λ x. some (x ∷ [])) (omega arith))
decode-encode (a ∷ b ∷ []) h =
    rw
      (
        symbols-character _ _ _ (first-Encodes a 0 0 h.0 (omega arith) (omega arith)),
        symbols-character _ _ _ (second-Encodes a b 0 h.0 h.1.0 (omega arith)),
        symbols-character _ _ _ (last_of_two-Encodes b h.1.0),
        symbols-pad [],
      )
      (rw (byte_of_six a b h.1.0) (ap (λ x. some (a ∷ x ∷ [])) (omega arith)))
decode-encode (a ∷ b ∷ c ∷ raw) h =
    rw
      (
        symbols-character _ _ _ (first-Encodes a b c h.0 h.1.0 h.1.1.0),
        symbols-character _ _ _ (second-Encodes a b c h.0 h.1.0 h.1.1.0),
        symbols-character _ _ _ (third-Encodes a b c h.0 h.1.0 h.1.1.0),
        symbols-character _ _ _ (fourth-Encodes a b c h.0 h.1.0 h.1.1.0),
        decode-encode raw h.1.1.1,
      )
      (rw (byte_of_six a b h.1.0, second_of_six a b c h.1.1.0 h.1.0, third_of_six b c h.1.1.0))

-- What stands in an encoded text.
data Spelled (c : ℕ) : Type 0 where
  coded : {x : ℕ} → Encodes x c → Spelled c
  padded : c ≡ b'=' → Spelled c

encode-Spelled : (raw : Bytes) → IsBytes raw → All Spelled (urlsafe_b64encode raw)
unfolding urlsafe_b64encode
encode-Spelled [] h = tt
encode-Spelled (a ∷ []) h =
    let p = coded (first-Encodes a 0 0 h.0 (omega arith) (omega arith)) in
    let q = coded (last_of_one-Encodes a h.0) in (p, (q, (padded refl, (padded refl, tt))))
encode-Spelled (a ∷ b ∷ []) h =
    let p = coded (first-Encodes a 0 0 h.0 (omega arith) (omega arith)) in
    let q = coded (second-Encodes a b 0 h.0 h.1.0 (omega arith)) in
    let r = coded (last_of_two-Encodes b h.1.0) in (p, (q, (r, (padded refl, tt))))
encode-Spelled (a ∷ b ∷ c ∷ raw) h =
    let p = coded (first-Encodes a b c h.0 h.1.0 h.1.1.0) in
    let q = coded (second-Encodes a b c h.0 h.1.0 h.1.1.0) in
    let r = coded (third-Encodes a b c h.0 h.1.0 h.1.1.0) in
    let s = coded (fourth-Encodes a b c h.0 h.1.0 h.1.1.0) in
    (p, (q, (r, (s, encode-Spelled raw h.1.1.1))))

Spelled-ascii : {c : ℕ} → Spelled c → is_ascii c ≡ true
Spelled-ascii (coded e) = e.ascii
Spelled-ascii (padded e) = rw e

Spelled-no_dollar : {c : ℕ} → Spelled c → not (c == b'$') ≡ true
Spelled-no_dollar (coded e) = rw e.no_dollar
Spelled-no_dollar (padded e) = rw e

all-Spelled :
    (p : ℕ → Bool) (t : Text) → ((c : ℕ) → Spelled c → p c ≡ true) → All Spelled t → all p t ≡ true
all-Spelled p [] f h = refl
all-Spelled p (c ∷ t) f h = rw (f c h.0) (all-Spelled p t f h.1)

-- Any sequence of bytes is what its URL-safe base64 without padding is decoded to.
pub unb64-b64 : (raw : Bytes) → IsBytes raw → unb64 (b64 raw) ≡ some raw
unfolding b64 unb64 urlsafe_b64decode
unb64-b64 raw h =
    let whole : rstrip_padding (urlsafe_b64encode raw)
          ++ padding ((4 - length (rstrip_padding (urlsafe_b64encode raw)) % 4) % 4)
        ≡ urlsafe_b64encode raw =
      unfold restores in restores-encode raw h in
    rw whole (
      rw (all-Spelled is_ascii _ (λ c. Spelled-ascii) (encode-Spelled raw h)) (decode-encode raw h))

-- No `$` stands in it.
abbrev pub has_no_dollar : Text → Bool
has_no_dollar t = all (λ c. not (c == b'$')) t

no_dollar-rstrip : (t : Text) → has_no_dollar t ≡ true → has_no_dollar (rstrip_padding t) ≡ true
unfolding rstrip_padding
no_dollar-rstrip [] h = refl
no_dollar-rstrip (c ∷ t) h = ground (arith, no_dollar-rstrip t)

pub no_dollar-b64 : (raw : Bytes) → IsBytes raw → has_no_dollar (b64 raw) ≡ true
unfolding b64
no_dollar-b64 raw h =
    no_dollar-rstrip (urlsafe_b64encode raw)
      (all-Spelled _ _ (λ c. Spelled-no_dollar) (encode-Spelled raw h))
