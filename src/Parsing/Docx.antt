-- ===== src/Parsing/Docx.antt =====
-- app/implementations/parsers/lite_office.py: parse_docx over the children of a document's body.
-- python-docx is a library: a paragraph is its text and the name of its style, a table the texts of its
-- cells.
use doc_chat_platform.Models.{Block, BlockKind}
use doc_chat_platform.Text.{
  join, Text, contains, digit_value, strip, lstrip, starts_with, codes, lower, text_eq,
}
use doc_chat_platform.Parsing.{plain_block, pop_levels}
use doc_chat_platform.Parsing.Html.{rows_to_markdown, hashes}
use doc_chat_platform.Base.{
  ◌∷◌, [], none, some, Bool, List, Option, ℕ, reverse_onto, if◌then◌else◌, ◌++◌, map, min, drop,
  ◌==◌, is_empty, leb, ◌||◌, ◌&&◌, or_option, ◌+◌,
}

-- A character under re.IGNORECASE
unfoldable pub fold : ℕ → ℕ
fold c =
    if leb 65 c && leb c 90
    then c + 32
    else if c == 0x130 || c == 0x131
    then b'i'
    else if c == 0x17f
    then b's'
    else if c == 0x212a
    then b'k'
    else c

unfoldable pub one_digit : Text → Option ℕ
unfolding digit_value
one_digit [] = none
one_digit (c ∷ []) = digit_value c
one_digit (c ∷ d ∷ cs) = none

-- `_HEADING_STYLE`, with the digit's value
unfoldable pub heading_style : Text → Option ℕ
unfolding fold lstrip starts_with one_digit
heading_style style =
    if starts_with (codes "heading") (map fold style)
    then one_digit (lstrip (drop 7 style))
    else none

-- `_LIST_STYLE`
unfoldable pub is_list_style : Text → Bool
unfolding fold contains
is_list_style style =
    contains (codes "list") (map fold style) || contains (codes "bullet") (map fold style)

-- `level` of a paragraph
unfoldable pub level_of : Text → Option ℕ
unfolding heading_style strip lower text_eq
level_of style =
    or_option (heading_style (strip style))
      (if text_eq (lower (strip style)) (codes "title") then some 1 else none)

pub record Paragraph : Type 0 where
  pub text : Text
  pub style : Text

-- A child that is a `p` or a `tbl` has none where the document lists no more of them.
pub data Child : Type 0 where
  p : Option Paragraph → Child
  tbl : Option (List (List Text)) → Child
  other : Child

abbrev pub cell_text : Text → Text
unfolding strip
cell_text t = strip (map (λ c. if c == 10 then 32 else c) t)

-- `_docx_table`, and `_pptx_table`
unfoldable pub table_of : List (List Text) → Text × Option Text
unfolding rows_to_markdown cell_text
table_of rows = rows_to_markdown (map (λ r. map cell_text r) rows)

-- The variables of parse_docx; the last level, and the last part of the path, stand first.
pub record Body : Type 0 where
  pub blocks : List Block
  pub markdown : List Text
  pub section_path : List Text
  pub levels : List ℕ

abbrev pub add_block : Block → Body → Body
add_block b s = record s { blocks = s.blocks ++ (b ∷ []); markdown = s.markdown ++ (b.text ∷ []) }

abbrev pub body_path : Body → List Text
body_path s = reverse_onto s.section_path []

unfoldable pub add_heading : ℕ → Text → Body → Body
unfolding pop_levels hashes
add_heading level text s =
    let (levels, path) = pop_levels level s.levels s.section_path in
    record {
      levels = level ∷ levels;
      section_path = text ∷ path;
      blocks =
          s.blocks
          ++ (record (plain_block BlockKind.heading text (reverse_onto (text ∷ path) [])) {
            level = some level;
          }
              ∷ []);
      markdown = s.markdown ++ ((hashes (min level 6) ++ (32 ∷ text)) ∷ []);
    }

unfoldable pub add_leveled : Option ℕ → Text → Text → Body → Body
unfolding add_heading is_list_style
add_leveled (some level) text style s = add_heading level text s
add_leveled none text style s =
    add_block
      (plain_block (if is_list_style style then BlockKind.list else BlockKind.text) text
        (body_path s))
      s

abbrev pub add_table : Text × Option Text → Body → Body
add_table ([], header) s = s
add_table (c ∷ cs, header) s =
    add_block
      (record (plain_block BlockKind.table (c ∷ cs) (body_path s)) { table_header = header }) s

unfoldable pub add_child : Child → Body → Body
unfolding add_leveled level_of strip table_of
add_child (Child.p none) s = s
add_child (Child.p (some paragraph)) s =
    let text = strip paragraph.text in
    if is_empty text then s else add_leveled (level_of paragraph.style) text paragraph.style s
add_child (Child.tbl none) s = s
add_child (Child.tbl (some rows)) s = add_table (table_of rows) s
add_child Child.other s = s

unfoldable pub add_children : List Child → Body → Body
unfolding add_child
add_children [] s = s
add_children (child ∷ children) s = add_children children (add_child child s)

unfoldable pub parse_docx : List Child → List Block × Text
unfolding add_children join
parse_docx children =
    let s : Body =
      add_children children
        (record { blocks = []; markdown = []; section_path = []; levels = [] }) in
    (s.blocks, join (10 ∷ 10 ∷ []) s.markdown)
