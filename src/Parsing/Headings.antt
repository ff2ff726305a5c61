-- ===== src/Parsing/Headings.antt =====
-- What markdown_to_blocks makes of headings: the levels of the open sections and the paths of blocks.
use doc_chat_platform.Parsing.Sections.{Tracked}
use doc_chat_platform.Text.{Text}
use doc_chat_platform.Models.{BlockKind, Block}
use doc_chat_platform.Base.{
  [], none, some, true, false, Bool, List, Option, ℕ, length, ◌≡◌, ◌∷◌, ◌≤◌, ◌<◌, All,
}
use doc_chat_platform.Parsing.{Scan, Heading}

abbrev pub is_heading : BlockKind → Bool
is_heading BlockKind.heading = true
is_heading _ = false

abbrev pub last : List Text → Option Text
last [] = none
last (t ∷ []) = some t
last (t ∷ u ∷ ts) = last (u ∷ ts)

-- A heading has its level, a path no longer than that which ends in its text; other blocks have none.
abbrev pub LevelFits : BlockKind → Block → Type 0
LevelFits BlockKind.heading b =
    (l : ℕ) × (b.level ≡ some l)
    × (1 ≤ l)
    × (l ≤ 6)
    × (length b.section_path ≤ l)
    × (last b.section_path ≡ some b.text)
LevelFits _ b = b.level ≡ none

abbrev pub Outlined : Block → Type 0
Outlined b = (length b.section_path ≤ 6) × LevelFits b.kind b

abbrev Above : ℕ → List ℕ → Type 0
Above l [] = 1 ≤ l
Above l (m ∷ ms) = m < l

-- The open sections: as many levels as titles, each level above the one that it stands in.
abbrev Nested : List ℕ → List Text → Type 0
Nested [] [] = Unit
Nested [] (p ∷ ps) = ⊥
Nested (l ∷ ls) [] = ⊥
Nested (l ∷ ls) (p ∷ ps) = Above l ls × (l ≤ 6) × Nested ls ps

abbrev Fitted : ℕ → List ℕ × List Text → Type 0
Fitted l r = Nested r.0 r.1 × Above l r.0

abbrev Sized : Option Heading → Type 0
Sized none = Unit
Sized (some h) = (1 ≤ h.level) × (h.level ≤ 6)

abbrev Good : Scan → Type 0
Good s =
    Nested s.levels s.section_path
    × All Outlined s.blocks
    × Tracked s.blocks s.levels s.section_path
