-- ===== src/Text.antt =====
-- Python's `str` as the sequence of its code points, and the methods that the program calls:
-- strip, split, splitlines, join, lower, `in`, startswith, isdigit and decimal text.
pub mod Laws
pub mod Squeezing
use Prim.Native.Char.{code}
use doc_chat_platform.Base.{
  ℕ, zero, suc, ◌+◌, ◌-◌, ◌*◌, ◌/◌, ◌%◌, ◌<◌, String, ◌≡◌, refl, Bool, true, false, ◌&&◌, ◌||◌,
  Option, none, some, List, [], ◌∷◌, ◌++◌, ltb, leb, ◌==◌, if◌then◌else◌, is_empty, any,
  get_or_else, is_some, all,
}

abbrev pub Text : Type 0
Text = List ℕ

-- The code points of a literal.
abbrev pub codes : String → Text
codes String.[] = []
codes (String.◌∷◌ c s) = code c ∷ codes s

-- `str.isspace` of one character, which is also the class `\s` of `re`
unfoldable pub is_space : ℕ → Bool
is_space c =
    (leb 9 c && leb c 13)
    || ((leb 28 c && leb c 32)
        || (c == 0x85
            || (c == 0xa0
                || (c == 0x1680
                    || ((leb 0x2000 c && leb c 0x200a)
                        || (c == 0x2028
                            || (c == 0x2029 || (c == 0x202f || (c == 0x205f || c == 0x3000)))))))))

-- The characters at which `str.splitlines` ends a line.
unfoldable pub is_line_break : ℕ → Bool
is_line_break c =
    (leb 10 c && leb c 13)
    || ((leb 28 c && leb c 30) || (c == 0x85 || (c == 0x2028 || c == 0x2029)))

unfoldable pub lstrip : Text → Text
lstrip [] = []
lstrip (c ∷ cs) = let rest = lstrip cs in if is_space c then rest else c ∷ cs

unfoldable pub rstrip : Text → Text
rstrip [] = []
rstrip (c ∷ cs) = let rest = rstrip cs in if is_empty rest && is_space c then [] else c ∷ rest

unfoldable pub strip : Text → Text
unfolding lstrip rstrip
strip t = lstrip (rstrip t)

-- `text.split()`: the word that the text opens with, and the words behind it
abbrev pub push_word : Text → List Text → List Text
push_word [] ws = ws
push_word (c ∷ w) ws = (c ∷ w) ∷ ws

unfoldable pub open_words : Text → Text × List Text
open_words [] = ([], [])
open_words (c ∷ cs) =
    let r = open_words cs in if is_space c then ([], push_word r.0 r.1) else (c ∷ r.0, r.1)

unfoldable pub split : Text → List Text
unfolding open_words
split t = push_word (open_words t).0 (open_words t).1

abbrev pub cons_first : ℕ → List Text → List Text
cons_first c [] = (c ∷ []) ∷ []
cons_first c (l ∷ ls) = (c ∷ l) ∷ ls

abbrev pub opens_with : ℕ → Text → Bool
opens_with d [] = false
opens_with d (c ∷ cs) = c == d

-- A carriage return before a line feed ends no line of its own.
unfoldable pub splitlines : Text → List Text
splitlines [] = []
splitlines (c ∷ cs) =
    let rest = splitlines cs in
    if c == 13 && opens_with 10 cs
    then rest
    else if is_line_break c
    then [] ∷ rest
    else cons_first c rest

unfoldable pub join : Text → List Text → Text
join sep [] = []
join sep (x ∷ []) = x
join sep (x ∷ y ∷ r) = x ++ (sep ++ join sep (y ∷ r))

unfoldable pub text_eq : Text → Text → Bool
text_eq [] [] = true
text_eq [] (d ∷ u) = false
text_eq (c ∷ t) [] = false
text_eq (c ∷ t) (d ∷ u) = c == d && text_eq t u

unfoldable pub starts_with : Text → Text → Bool
starts_with [] t = true
starts_with (p ∷ ps) [] = false
starts_with (p ∷ ps) (c ∷ cs) = c == p && starts_with ps cs

-- `sub in text`
unfoldable pub contains : Text → Text → Bool
unfolding starts_with
contains sub [] = is_empty sub
contains sub (c ∷ cs) = starts_with sub (c ∷ cs) || contains sub cs

-- Lower case of the letters of ASCII, and of the two other code points whose lower case has a
-- letter of ASCII in it (the Kelvin sign and the dotted capital I).
unfoldable pub lower : Text → Text
lower [] = []
lower (c ∷ cs) =
    let rest = lower cs in
    if leb b'A' c && leb c b'Z'
    then (c + 32) ∷ rest
    else if c == 0x212a
    then b'k' ∷ rest
    else if c == 0x130
    then b'i' ∷ 0x307 ∷ rest
    else c ∷ rest

-- The zeros of the decimal digits of Unicode: each opens a run of ten.
abbrev digit_zeros : List ℕ
digit_zeros =
    0x30 ∷ 0x660 ∷ 0x6f0 ∷ 0x7c0 ∷ 0x966 ∷ 0x9e6 ∷ 0xa66 ∷ 0xae6 ∷ 0xb66 ∷ 0xbe6 ∷ 0xc66 ∷ 0xce6
    ∷ 0xd66 ∷ 0xde6 ∷ 0xe50 ∷ 0xed0 ∷ 0xf20 ∷ 0x1040 ∷ 0x1090 ∷ 0x17e0 ∷ 0x1810 ∷ 0x1946 ∷ 0x19d0
    ∷ 0x1a80 ∷ 0x1a90 ∷ 0x1b50 ∷ 0x1bb0 ∷ 0x1c40 ∷ 0x1c50 ∷ 0xa620 ∷ 0xa8d0 ∷ 0xa900 ∷ 0xa9d0
    ∷ 0xa9f0 ∷ 0xaa50 ∷ 0xabf0 ∷ 0xff10 ∷ 0x104a0 ∷ 0x10d30 ∷ 0x11066 ∷ 0x110f0 ∷ 0x11136 ∷ 0x111d0
    ∷ 0x112f0 ∷ 0x11450 ∷ 0x114d0 ∷ 0x11650 ∷ 0x116c0 ∷ 0x11730 ∷ 0x118e0 ∷ 0x11950 ∷ 0x11c50
    ∷ 0x11d50 ∷ 0x11da0 ∷ 0x11f50 ∷ 0x16a60 ∷ 0x16ac0 ∷ 0x16b50 ∷ 0x1d7ce ∷ 0x1d7d8 ∷ 0x1d7e2
    ∷ 0x1d7ec ∷ 0x1d7f6 ∷ 0x1e140 ∷ 0x1e2f0 ∷ 0x1e4f0 ∷ 0x1e950 ∷ 0x1fbf0 ∷ []

digit_in : List ℕ → ℕ → Option ℕ
digit_in [] c = none
digit_in (z ∷ zs) c =
    let rest = digit_in zs c in if leb z c && ltb c (z + 10) then some (c - z) else rest

-- The value of a decimal digit, the class `\d` of `re`.
unfoldable pub digit_value : ℕ → Option ℕ
unfolding digit_in
digit_value c = digit_in digit_zeros c

-- `int(text)` of decimal digits
unfoldable pub int_from : ℕ → Text → ℕ
unfolding digit_value
int_from acc [] = acc
int_from acc (c ∷ cs) = int_from (acc * 10 + get_or_else (digit_value c) 0) cs

-- `str(n)`, the last digit first on a stack; the fuel `n + 1` is more than its digits
unfoldable pub decimal_onto : ℕ → ℕ → Text → Text
decimal_onto zero n acc = acc
decimal_onto (suc f) n acc =
    let rest = decimal_onto f (n / 10) ((48 + n % 10) ∷ acc) in
    if ltb n 10 then (48 + n) ∷ acc else rest

unfoldable pub decimal : ℕ → Text
unfolding decimal_onto
decimal n = decimal_onto (n + 1) n []
