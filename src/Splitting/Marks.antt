-- ===== src/Splitting/Marks.antt =====
-- What the parts of a table and of a procedure are: all of the text, with the header of the table, or
-- the mark of a continued procedure, in front of them.
use doc_chat_platform.Splitting.Content.{gather-pack}
use doc_chat_platform.Procedures.{split_steps, newline}
use doc_chat_platform.Splitting.{
  procedure_parts, mark_continued, or_whole, continued, pack, sentence_units, step_units,
}
use doc_chat_platform.Text.Squeezing.{gather, squeeze}
use doc_chat_platform.Text.{splitlines, Text, codes}
use doc_chat_platform.Models.{Block}
use doc_chat_platform.Tokens.{Tools}
use doc_chat_platform.Splitting.Kept.{
  gather-sentence_parts, gather-step_units, gather-split_steps, newline-white,
}
use doc_chat_platform.Base.{
  ◌∷◌, [], none, some, false, refl, arith, List, Option, length, ℕ, ◌≡◌, map, drop, max, ◌⊎◌, ◌++◌,
  is_empty, ◌≤◌, ◌-◌, ◌<◌, ◌∙◌, if_ind, leb,
}

-- Each part is a group behind the prefix, in the order of the groups.
abbrev pub Prefixed : Text → List Text → List Text → Type 0
Prefixed prefix [] [] = Unit
Prefixed prefix [] (p ∷ ps) = ⊥
Prefixed prefix (g ∷ gs) [] = ⊥
Prefixed prefix (g ∷ gs) (p ∷ ps) = (p ≡ prefix ++ g) × Prefixed prefix gs ps

-- The first part is the first group, and the others are the other groups behind the mark.
abbrev pub Continued : List Text → List Text → Type 0
Continued [] [] = Unit
Continued [] (p ∷ ps) = ⊥
Continued (g ∷ gs) [] = ⊥
Continued (g ∷ gs) (p ∷ ps) = (p ≡ g) × Prefixed (codes "(procedure continued)\n") gs ps

-- The parts of a procedure in a text.
pub data ProcedureParts (tools : Tools) (t : Text) (parts : List Text) : Type 0 where
  one_step :
      length (split_steps tools t) ≤ 1 → gather parts ≡ squeeze t → ProcedureParts tools t parts
  several_steps :
      (groups : List Text)
      → 1 < length (split_steps tools t)
      → gather groups ≡ squeeze t
      → Continued groups parts
      → ProcedureParts tools t parts

-- The lines of a table behind its header.
abbrev pub rows_under : Text → Block → List Text
unfolding splitlines
rows_under header b = drop (length (splitlines header)) (splitlines b.text)

-- The parts of a table: an empty header counts as none.
pub data TableParts (b : Block) (parts : List Text) : Type 0 where
  no_header :
      (b.table_header ≡ none) ⊎ (b.table_header ≡ some [])
      → gather parts ≡ squeeze b.text
      → TableParts b parts
  no_rows :
      (header : Text)
      → b.table_header ≡ some header
      → rows_under header b ≡ []
      → parts ≡ b.text ∷ []
      → TableParts b parts
  headed :
      (header : Text) (groups : List Text)
      → b.table_header ≡ some header
      → is_empty header ≡ false
      → is_empty groups ≡ false
      → gather groups ≡ gather (rows_under header b)
      → Prefixed (header ++ 10 ∷ []) groups parts
      → TableParts b parts

Continued-mark_continued : (gs : List Text) → Continued gs (mark_continued gs)
unfolding mark_continued
Continued-mark_continued [] = tt
Continued-mark_continued (g ∷ gs) = (refl, marked gs)
  where
    marked :
        (hs : List Text)
        → Prefixed (codes "(procedure continued)\n") hs (map (λ q. continued ++ (newline ++ q)) hs)
    marked [] = tt
    marked (h ∷ hs) = (refl, marked hs)

module _ (tools : Tools) where
  -- The parts of a procedure, less the marks, hold all of the text but white space, each character
  -- once and in its order. Where the text has two steps or more, every part but the first stands
  -- behind the line "(procedure continued)", and the first has no such line added; a text with at
  -- most one step gets no mark.
  pub procedure_parts-ProcedureParts :
      (t : Text) (limit : ℕ) → ProcedureParts tools t (procedure_parts tools t limit)
  unfolding procedure_parts
  procedure_parts-ProcedureParts t limit =
      let steps = split_steps tools t in
      let budget = max 1 (limit - tools.count_tokens continued - 1) in
      let groups = pack tools (step_units tools steps budget) budget newline in
      if_ind (ProcedureParts tools t) (leb (length steps) 1)
        (λ e. one_step (ground arith) (gather-sentence_parts tools t limit))
        (λ e.
          several_steps groups (ground arith)
            (gather-pack tools (step_units tools steps budget) budget newline newline-white
              ∙ gather-step_units tools steps budget
              ∙ gather-split_steps tools t)
            (Continued-mark_continued groups))

  module _ (b : Block) (limit : ℕ) where
    pack_under : Text → List Text → List Text
    pack_under prefix rows =
        let budget = max 1 (limit - tools.count_tokens prefix) in
        pack tools (sentence_units tools rows budget) budget newline

    -- What `table_parts` makes of a header that counts.
    parts_with : Option Text → List Text
    parts_with o =
        let prefix : Text = elim o [ none ↦ [] | some h ↦ h ++ newline ] in
        let rows : List Text = elim o [ none ↦ splitlines b.text | some h ↦ rows_under h b ] in
        or_whole (map (λ g. prefix ++ g) (pack_under prefix rows)) b.text
