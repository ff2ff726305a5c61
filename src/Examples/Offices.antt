-- ===== src/Examples/Offices.antt =====
-- A Word document and two slides.
use doc_chat_platform.Text.{codes, is_space}
use doc_chat_platform.Parsing.Docx.{parse_docx, Child}
use doc_chat_platform.Parsing.Pptx.{parse_pptx, Slide, Frame, on_slide}
use doc_chat_platform.Parsing.{plain_block}
use doc_chat_platform.Models.{BlockKind}
use doc_chat_platform.Base.{◌∷◌, [], none, some, refl, List, ◌≡◌}

abbrev letter : List Child
letter =
    Child.p (some (record { text = codes "Manual"; style = codes "Title" }))
    ∷ Child.p (some (record { text = codes " Setup "; style = codes "HEADING 2" }))
    ∷ Child.p (some (record { text = codes "one"; style = codes "List Paragraph" }))
    ∷ Child.tbl (some ((codes "a\nb" ∷ []) ∷ (codes " " ∷ []) ∷ []))
    ∷ Child.p (some (record { text = codes "end"; style = codes "Heading 12" }))
    ∷ []

letter_is_parsed : parse_docx letter ≡ (
  record (plain_block BlockKind.heading (codes "Manual") (codes "Manual" ∷ [])) { level = some 1 }
      ∷ record (plain_block BlockKind.heading
          (codes "Setup")
          (codes "Manual" ∷ codes "Setup" ∷ [])) { level = some 2 }
      ∷ plain_block BlockKind.list (codes "one") (codes "Manual" ∷ codes "Setup" ∷ [])
      ∷ record (plain_block BlockKind.table
          (codes "| a b |\n| --- |")
          (codes "Manual" ∷ codes "Setup" ∷ [])) { table_header = some (codes "| a b |\n| --- |") }
      ∷ plain_block BlockKind.text (codes "end") (codes "Manual" ∷ codes "Setup" ∷ [])
      ∷ [],
  codes "# Manual\n\n## Setup\n\none\n\n| a b |\n| --- |\n\nend",
)
unfolding parse_docx is_space
letter_is_parsed = refl

abbrev talk : List Slide
talk =
    (record {
      title = some (4, codes "Hello");
      shapes =
          (record { shape_id = 4; frame = Frame.has_text (codes "Hello" ∷ []) })
          ∷ (record { shape_id = 5; frame = Frame.has_text (codes " a " ∷ [] ∷ codes "b" ∷ []) })
          ∷ [];
      notes = some (codes "slowly");
    })
    ∷ (record {
      title = none;
      shapes = (record { shape_id = 4; frame = Frame.has_text (codes "c" ∷ []) }) ∷ [];
      notes = none;
    })
    ∷ []

talk_is_parsed : parse_pptx talk ≡ (
  on_slide 1 (record (plain_block BlockKind.heading (codes "Hello") (codes "Hello" ∷ [])) {
    level = some 1;
  })
      ∷ on_slide 1 (plain_block BlockKind.text (codes "a\nb") (codes "Hello" ∷ []))
      ∷ on_slide 1
          (plain_block BlockKind.slide_notes (codes "Speaker notes: slowly") (codes "Hello" ∷ []))
      ∷ on_slide 2 (plain_block BlockKind.text (codes "c") (codes "Slide 2" ∷ []))
      ∷ [],
  2,
  codes "## Hello\n\na\nb\n\n> Speaker notes: slowly\n\nc",
)
unfolding parse_pptx is_space
talk_is_parsed = refl
