-- ===== src/Parsing/Sheets.antt =====
-- app/implementations/parsers/tabular_parser.py: the rows of sheets as blocks. csv, openpyxl and xlrd
-- read the files: a sheet is its name, its columns and its rows of cells.
use doc_chat_platform.Sql.{select_where}
use doc_chat_platform.Models.{Block, ParsedDocument, BlockKind}
use doc_chat_platform.Text.{decimal, strip, Text, join, text_eq, codes, lower}
use doc_chat_platform.Base.{
  [], none, some, true, zero, suc, List, Option, ℕ, if◌then◌else◌, ◌++◌, ◌∷◌, ◌||◌, not, length,
  ltb, is_empty, take, map,
}
use doc_chat_platform.Parsing.{plain_block}

-- A cell, for a value that is there; "nan" and "none" count as empty.
unfoldable pub cell : Option Text → Text
unfolding strip lower
cell none = []
cell (some value) =
    let t = strip value in
    if text_eq (lower t) (codes "nan") || text_eq (lower t) (codes "none") then [] else t

abbrev pub shorten : Text → Text
shorten value = if ltb 2000 (length value) then take 2000 value ++ codes "..." else value

abbrev pub push_cell : Text → Text → List Text → List Text
push_cell [] value parts = parts
push_cell (c ∷ cs) [] parts = parts
push_cell (c ∷ cs) (v ∷ vs) parts = ((c ∷ cs) ++ (codes ": " ++ shorten (v ∷ vs))) ∷ parts

unfoldable pub row_parts : List Text → List Text → List Text
row_parts [] row = []
row_parts (c ∷ cs) [] = []
row_parts (c ∷ cs) (v ∷ vs) = push_cell c v (row_parts cs vs)

unfoldable pub serialise_row : List Text → List Text → Text
unfolding row_parts join
serialise_row columns row = join (codes " | ") (row_parts columns row)

pub record Sheet : Type 0 where
  pub name : Text
  pub columns : List Text
  pub rows : List (List Text)

abbrev pub sheet_path : Text → List Text
sheet_path [] = []
sheet_path (c ∷ cs) = (c ∷ cs) ∷ []

abbrev pub sheet_heading : Text → List Block
sheet_heading [] = []
sheet_heading (c ∷ cs) =
    record (plain_block BlockKind.heading (c ∷ cs) ((c ∷ cs) ∷ [])) { level = some 1 } ∷ []

abbrev pub push_row : List Text → Text → List Block → List Block
push_row path [] blocks = blocks
push_row path (c ∷ cs) blocks =
    record (plain_block BlockKind.table (c ∷ cs) path) { atomic = true } ∷ blocks

unfoldable pub row_blocks : List Text → List Text → List (List Text) → List Block
unfolding serialise_row
row_blocks path columns [] = []
row_blocks path columns (row ∷ rows) =
    push_row path (serialise_row columns row) (row_blocks path columns rows)

-- The lines of the rows that have one.
unfoldable pub row_lines : List Text → List (List Text) → List Text
unfolding serialise_row
row_lines columns rows =
    select_where (λ line. not (is_empty line)) (map (serialise_row columns) rows)

-- `counts[k] = n`: a key that is known keeps its place.
unfoldable pub put_count : Text → ℕ → List (Text × ℕ) → List (Text × ℕ)
unfolding text_eq
put_count k n [] = (k, n) ∷ []
put_count k n ((l, m) ∷ rest) =
    let behind = put_count k n rest in if text_eq l k then (l, n) ∷ rest else (l, m) ∷ behind

abbrev pub sheet_key : ℕ → Text → Text
unfolding decimal
sheet_key index [] = codes "sheet" ++ decimal index
sheet_key index (c ∷ cs) = c ∷ cs

abbrev pub title_line : Text → List Text
title_line [] = []
title_line (c ∷ cs) = (codes "## " ++ (c ∷ cs)) ∷ []

-- The blocks, the lines of the markdown and the counts, in that order.
abbrev pub Written : Type 0
Written = List Block × List Text × List (Text × ℕ)

unfoldable pub write_sheet : ℕ → Sheet → Written → Written
unfolding row_blocks row_lines put_count decimal
write_sheet index sheet (blocks, markdown, counts) =
    let lines = row_lines sheet.columns sheet.rows in
    (
      blocks
          ++ (sheet_heading sheet.name
              ++ row_blocks (sheet_path sheet.name) sheet.columns sheet.rows),
      markdown ++ (title_line sheet.name ++ lines),
      put_count (sheet_key index sheet.name) (length lines) counts,
    )

unfoldable pub write_sheets : ℕ → List Sheet → Written → Written
unfolding write_sheet
write_sheets index [] w = w
write_sheets index (sheet ∷ sheets) w = write_sheets (suc index) sheets (write_sheet index sheet w)

unfoldable pub sheets_to_blocks : List Sheet → Written
unfolding write_sheets
sheets_to_blocks sheets = write_sheets 1 sheets ([], [], [])

abbrev pub or_none : ℕ → Option ℕ
or_none zero = none
or_none (suc n) = some (suc n)

-- `TabularParser.parse` of the sheets that were loaded
unfoldable pub parse_sheets : List Sheet → ParsedDocument
unfolding sheets_to_blocks join
parse_sheets sheets =
    let (blocks, markdown, counts) = sheets_to_blocks sheets in
    record {
      markdown = join (10 ∷ []) markdown;
      blocks = blocks;
      page_count = or_none (length counts);
    }
