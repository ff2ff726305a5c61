-- ===== src/Procedures.antt =====
-- app/pipeline/procedures.py: finding numbered procedures, and merging each into one block.
pub mod Merging
use doc_chat_platform.Base.{
  [], none, some, true, false, zero, suc, Bool, List, Option, ◌∷◌, map, ℕ, if◌then◌else◌, is_some,
  ◌==◌, ltb, leb, length, ◌&&◌, is_empty, not, ◌||◌, ◌++◌, get_or_else,
}
use doc_chat_platform.Text.{
  Text, is_space, lstrip, rstrip, strip, split, splitlines, join, digit_value, int_from,
}
use doc_chat_platform.Models.{Block, BlockKind}
use doc_chat_platform.Tokens.{Tools}

abbrev pub newline : Text
newline = 10 ∷ []

abbrev is_digit : ℕ → Bool
is_digit c = is_some (digit_value c)

-- `\d{1,3}`: the digits that it takes, and the text behind them. What follows in each pattern is no
-- digit, so that giving digits back never helps.
unfoldable pub take_digits : ℕ → Text → Text × Text
take_digits zero t = ([], t)
take_digits (suc n) [] = ([], [])
take_digits (suc n) (c ∷ cs) =
    let r = take_digits n cs in if is_digit c then (c ∷ r.0, r.1) else ([], c ∷ cs)

-- `\s+\S` at the start of a text
unfoldable pub gap_then_text : Text → Bool
unfolding is_space lstrip
gap_then_text [] = false
gap_then_text (c ∷ cs) = is_space c && not (is_empty (lstrip cs))

abbrev closes_number : ℕ → Bool
closes_number c = c == b'.' || (c == b')' || c == b']')

-- `[.)\]]\s+\S` at the start of a text
abbrev pub closing_then_text : Text → Bool
closing_then_text [] = false
closing_then_text (c ∷ cs) = closes_number c && gap_then_text cs

-- `^\s*(?P<n>\d{1,3})\s*[.)\]]\s+\S`
unfoldable pub match_dotted : Text → Option ℕ
unfolding take_digits lstrip gap_then_text int_from
match_dotted line =
    let d = take_digits 3 (lstrip line) in
    if not (is_empty d.0) && closing_then_text (lstrip d.1) then some (int_from 0 d.0) else none

-- The letters of `step` when the case is ignored; the long s is a case variant of s.
unfoldable pub after_step : Text → Option Text
after_step (s ∷ t ∷ e ∷ p ∷ rest) =
    if (s == b's' || (s == b'S' || s == 0x17f))
      && ((t == b't' || t == b'T') && ((e == b'e' || e == b'E') && (p == b'p' || p == b'P')))
    then some rest
    else none
after_step _ = none

-- `\b` behind a digit
abbrev pub ends_word : (ℕ → Bool) → Text → Bool
ends_word is_word [] = true
ends_word is_word (c ∷ cs) = not (is_word c)

abbrev pub opens_by_space : Text → Bool
opens_by_space [] = false
opens_by_space (c ∷ cs) = is_space c

-- `^\s*step\s+(?P<n>\d{1,3})\b`, IGNORECASE
unfoldable pub match_step : Tools → Text → Option ℕ
unfolding after_step take_digits lstrip int_from is_space
match_step tools line = elim (after_step (lstrip line)) [
  | none ↦ none
  | some rest ↦
      let d = take_digits 3 (lstrip rest) in
      if opens_by_space rest && (not (is_empty d.0) && ends_word tools.is_word d.1)
      then some (int_from 0 d.0)
      else none
]

abbrev pub after_char : ℕ → Text → Option Text
after_char d [] = none
after_char d (c ∷ cs) = if c == d then some cs else none

abbrev closing_paren : Text → Bool
closing_paren t = elim (after_char b')' t) [ none ↦ false | some rest ↦ gap_then_text rest ]

-- `^\s*\(\s*(?P<n>\d{1,3})\s*\)\s+\S`
unfoldable pub match_parenthesised : Text → Option ℕ
unfolding take_digits lstrip gap_then_text int_from
match_parenthesised line = elim (after_char b'(' (lstrip line)) [
  | none ↦ none
  | some rest ↦
      let d = take_digits 3 (lstrip rest) in
      if not (is_empty d.0) && closing_paren (lstrip d.1) then some (int_from 0 d.0) else none
]

abbrev pub head_or_empty : List Text → Text
head_or_empty [] = []
head_or_empty (l ∷ ls) = l

-- `text.lstrip().splitlines()[0] if text.strip() else ""`
unfoldable pub first_line : Text → Text
unfolding strip splitlines
first_line t = if is_empty (strip t) then [] else head_or_empty (splitlines (lstrip t))

abbrev pub or_else : Option ℕ → Option ℕ → Option ℕ
or_else none other = other
or_else (some n) other = some n

unfoldable pub step_number : Tools → Text → Option ℕ
unfolding first_line match_dotted match_step match_parenthesised
step_number tools text =
    let line = first_line text in
    or_else (match_dotted line) (or_else (match_step tools line) (match_parenthesised line))

unfoldable pub is_continuable : BlockKind → Bool
is_continuable BlockKind.list = true
is_continuable BlockKind.text = true
is_continuable BlockKind.code = true
is_continuable BlockKind.table = true
is_continuable _ = false

abbrev pub texts : List Block → List Text
texts blocks = map (λ b. b.text) blocks

-- The loop of `split_steps` over the lines, `current` being the lines of the step so far.
unfoldable pub split_steps_from : Tools → List Text → List Text → List Text
unfolding join rstrip
split_steps_from tools current [] =
    if is_empty current then [] else rstrip (join newline current) ∷ []
split_steps_from tools current (line ∷ lines) =
    let cut = is_some (step_number tools line) && not (is_empty current) in
    let rest = split_steps_from tools (if cut then line ∷ [] else current ++ line ∷ []) lines in
    if cut then rstrip (join newline current) ∷ rest else rest

abbrev pub keep_nonblank : List Text → List Text
keep_nonblank [] = []
keep_nonblank (t ∷ ts) = if is_empty (strip t) then keep_nonblank ts else t ∷ keep_nonblank ts

unfoldable pub split_steps : Tools → Text → List Text
unfolding split_steps_from splitlines strip
split_steps tools text = keep_nonblank (split_steps_from tools [] (splitlines text))

abbrev climbs : ℕ → List ℕ → Bool
climbs a [] = true
climbs a (b ∷ r) = ltb a b && climbs b r

unfoldable pub is_ascending_run : List ℕ → Bool
is_ascending_run [] = false
is_ascending_run (a ∷ []) = false
is_ascending_run (a ∷ b ∷ r) = leb a 1 && climbs a (b ∷ r)

-- `(step_number(block.text) or 0) > last` for the block that follows, if it can be part of a run
unfoldable pub resumes : Tools → ℕ → List Block → Bool
unfolding is_continuable
resumes tools last [] = false
resumes tools last (b ∷ bs) =
    is_continuable b.kind && ltb last (get_or_else (step_number tools b.text) 0)

-- The inner loop: the blocks that join the run behind a step numbered `last`, and their numbers.
unfoldable pub scan : Tools → ℕ → List Block → List Block × List ℕ
unfolding is_continuable resumes
scan tools last [] = ([], [])
scan tools last (b ∷ bs) = elim (is_continuable b.kind) [
  | false ↦ ([], [])
  | true ↦ elim (step_number tools b.text) [
    | none ↦ elim (resumes tools last bs) [
      | true ↦ let r = scan tools last bs in (b ∷ r.0, r.1)
      | false ↦ ([], [])
    ]
    | some n ↦ elim (leb n last) [
      | true ↦ ([], [])
      | false ↦ let r = scan tools n bs in (b ∷ r.0, n ∷ r.1)
    ]
  ]
]

unfoldable pub merge_run : Block → List Block → Block
unfolding join
merge_run b run = record b {
  kind = BlockKind.list;
  text = join newline (b.text ∷ texts run);
  level = none;
  table_header = none;
  atomic = true;
}

-- What the outer loop puts out for a block, and how many of the blocks behind it that covers.
unfoldable pub group_at : Tools → Block → List Block → Block × ℕ
unfolding scan merge_run is_ascending_run is_continuable
group_at tools b bs = elim (is_continuable b.kind) [
  | false ↦ (b, 0)
  | true ↦ elim (step_number tools b.text) [
    | none ↦ (b, 0)
    | some n ↦
        let run = scan tools n bs in
        if is_ascending_run (n ∷ run.1) then (merge_run b run.0, length run.0) else (b, 0)
  ]
]

-- The outer loop; `skip` counts the blocks up to `cursor`, which a merged run has taken.
unfoldable pub group_from : Tools → ℕ → List Block → List Block
unfolding group_at
group_from tools skip [] = []
group_from tools (suc skip) (b ∷ bs) = group_from tools skip bs
group_from tools zero (b ∷ bs) = let g = group_at tools b bs in g.0 ∷ group_from tools g.1 bs

unfoldable pub group_numbered_procedures : Tools → List Block → List Block
unfolding group_from
group_numbered_procedures tools blocks = group_from tools 0 blocks
