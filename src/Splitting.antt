-- ===== src/Splitting.antt =====
-- app/pipeline/splitting.py: how a text that is too long is broken.
pub mod Packing
pub mod Sentences
pub mod Parts
pub mod Content
pub mod Kept
pub mod Marks
use doc_chat_platform.Base.{
  [], none, some, false, zero, suc, Bool, List, Option, ◌++◌, ℕ, ◌∷◌, if◌then◌else◌, drop, ◌&&◌,
  is_empty, length, ◌+◌, ltb, map, ◌==◌, leb, max, ◌||◌, ◌-◌, reverse_onto, get_elem?, not,
}
use doc_chat_platform.Text.{Text, codes, is_space, strip, split, splitlines, join}
use doc_chat_platform.Models.{Block}
use doc_chat_platform.Tokens.{Tools}
use doc_chat_platform.Procedures.{newline, split_steps}

abbrev pub space : Text
space = 32 ∷ []

abbrev pub continued : Text
continued = codes "(procedure continued)"

-- How many characters of white space, or of line feeds, a text opens with.
unfoldable pub space_run : Text → ℕ
unfolding is_space
space_run [] = 0
space_run (c ∷ cs) = let rest = space_run cs in if is_space c then suc rest else 0

unfoldable pub newline_run : Text → ℕ
newline_run [] = 0
newline_run (c ∷ cs) = let rest = newline_run cs in if c == 10 then suc rest else 0

abbrev is_terminal : Option ℕ → Bool
is_terminal none = false
is_terminal (some c) = c == b'.' || (c == b'!' || c == b'?')

-- `[A-Z0-9]`
abbrev opens_sentence : Option ℕ → Bool
opens_sentence none = false
opens_sentence (some c) = (leb b'A' c && leb c b'Z') || (leb b'0' c && leb c b'9')

-- The length of a match of SENTENCE at this place, 0 for none; `prev` is the character before it.
-- Giving white space back never helps the first alternative: its next character would be a space.
unfoldable pub boundary : Option ℕ → Text → ℕ
unfolding space_run newline_run
boundary prev t =
    let k = space_run t in
    let n = newline_run t in
    if is_terminal prev && (ltb 0 k && opens_sentence (get_elem? t k))
    then k
    else if leb 2 n
    then n
    else 0

abbrev pub cons_piece : ℕ → List Text → List Text
cons_piece c [] = (c ∷ []) ∷ []
cons_piece c (p ∷ ps) = (c ∷ p) ∷ ps

-- `SENTENCE.split(text)`; `skip` counts the characters left of a match.
unfoldable pub split_sentences : Option ℕ → ℕ → Text → List Text
unfolding boundary
split_sentences prev skip [] = [] ∷ []
split_sentences prev (suc skip) (c ∷ cs) = split_sentences (some c) skip cs
split_sentences prev zero (c ∷ cs) = elim (boundary prev (c ∷ cs)) [
  | zero ↦ cons_piece c (split_sentences (some c) 0 cs)
  | suc k ↦ [] ∷ split_sentences (some c) k cs
]

-- `[s.strip() for s in … if s.strip()]`
unfoldable pub stripped : List Text → List Text
unfolding strip
stripped [] = []
stripped (t ∷ ts) = let rest = stripped ts in if is_empty (strip t) then rest else strip t ∷ rest

unfoldable pub sentences : Text → List Text
unfolding split_sentences stripped
sentences text = stripped (split_sentences none 0 text)

-- `units or [text]`
abbrev pub or_whole : List Text → Text → List Text
or_whole [] text = text ∷ []
or_whole (p ∷ ps) text = p ∷ ps

-- `if header`: the empty text counts as none
unfoldable pub header_of : Block → Option Text
header_of b = elim b.table_header [ none ↦ none | some h ↦ if is_empty h then none else some h ]

unfoldable pub header_prefix : Block → Text
unfolding header_of
header_prefix b = elim (header_of b) [ none ↦ [] | some h ↦ h ++ newline ]

unfoldable pub body_lines : Block → List Text
unfolding header_of splitlines
body_lines b = elim (header_of b) [
  | none ↦ splitlines b.text
  | some h ↦ drop (length (splitlines h)) (splitlines b.text)
]

unfoldable pub mark_continued : List Text → List Text
mark_continued [] = []
mark_continued (p ∷ ps) = p ∷ map (λ q. continued ++ (newline ++ q)) ps

module _ (tools : Tools) where
  -- The loop of `pack`; `current` and its size are the group so far.
  unfoldable pub pack_from : ℕ → Text → List Text → ℕ → List Text → List Text
  pack_from limit separator current tokens [] =
      if is_empty current then [] else join separator current ∷ []
  pack_from limit separator current tokens (unit ∷ units) =
      let n = tools.count_tokens unit + tools.count_tokens separator in
      let cut = not (is_empty current) && ltb limit (tokens + n) in
      let rest =
        pack_from limit separator (if cut then unit ∷ [] else current ++ unit ∷ [])
          (if cut then n else tokens + n) units in
      if cut then join separator current ∷ rest else rest

  unfoldable pub pack : List Text → ℕ → Text → List Text
  unfolding pack_from join
  pack units limit separator = pack_from limit separator [] 0 units

  unfoldable pub word_parts : Text → ℕ → List Text
  unfolding pack split
  word_parts text limit = or_whole (pack (split text) limit space) text

  -- The units that a list of texts is packed from: a text over the limit goes in by its words.
  unfoldable pub sentence_units : List Text → ℕ → List Text
  unfolding word_parts
  sentence_units [] limit = []
  sentence_units (s ∷ ss) limit =
      (if ltb limit (tools.count_tokens s) then word_parts s limit else s ∷ [])
      ++ sentence_units ss limit

  unfoldable pub sentence_parts : Text → ℕ → List Text
  unfolding sentences sentence_units pack
  sentence_parts text limit =
      let found = sentences text in
      if is_empty found
      then text ∷ []
      else or_whole (pack (sentence_units found limit) limit space) text

  unfoldable pub table_parts : Block → ℕ → List Text
  unfolding header_prefix body_lines sentence_units pack
  table_parts b limit =
      let prefix = header_prefix b in
      let budget = max 1 (limit - tools.count_tokens prefix) in
      let rows = sentence_units (body_lines b) budget in
      or_whole (map (λ group. prefix ++ group) (pack rows budget newline)) b.text

  -- A step over the budget goes in by its sentences.
  unfoldable pub step_units : List Text → ℕ → List Text
  unfolding sentence_parts
  step_units [] budget = []
  step_units (s ∷ ss) budget =
      (if ltb budget (tools.count_tokens s) then sentence_parts s budget else s ∷ [])
      ++ step_units ss budget

  unfoldable pub procedure_parts : Text → ℕ → List Text
  unfolding split_steps step_units pack mark_continued sentence_parts
  procedure_parts text limit =
      let steps = split_steps tools text in
      let budget = max 1 (limit - tools.count_tokens continued - 1) in
      if leb (length steps) 1
      then sentence_parts text limit
      else mark_continued (pack (step_units steps budget) budget newline)

  -- The loop of `tail_overlap` over the sentences from the last one back.
  unfoldable pub overlap_from : ℕ → ℕ → List Text → List Text → List Text
  overlap_from overlap_tokens total kept [] = kept
  overlap_from overlap_tokens total kept (piece ∷ pieces) =
      let total' = total + tools.count_tokens piece in
      let rest = overlap_from overlap_tokens total' (piece ∷ kept) pieces in
      if not (is_empty kept) && ltb overlap_tokens total'
      then kept
      else if leb overlap_tokens total'
      then piece ∷ kept
      else rest

  unfoldable pub tail_overlap : Text → ℕ → Text
  unfolding overlap_from sentences join
  tail_overlap text overlap_tokens =
      if overlap_tokens == 0
      then []
      else join space (overlap_from overlap_tokens 0 [] (reverse_onto (sentences text) []))
