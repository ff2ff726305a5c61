-- ===== src/Parsing.antt =====
-- app/implementations/parsers/text_parser.py: markdown_to_blocks, with extract_table_header of
-- docling_blocks.py, and the rows of tabular_parser.py. Reading and decoding of files, csv, openpyxl
-- and xlrd are the parsers' surroundings: a sheet is its name, its columns and its rows of cells.
pub mod Content
pub mod Collecting
pub mod Docling
pub mod Docx
pub mod Headings
pub mod Html
pub mod Parsed
pub mod Placing
pub mod Plain
pub mod Pptx
pub mod Sections
pub mod Sheets
pub mod Tags
pub mod Titles
use doc_chat_platform.Sql.{select_where, delete_where}
use doc_chat_platform.Models.{BlockKind, Block}
use doc_chat_platform.Text.{
  strip, Text, splitlines, lstrip, join, is_space, codes, lower, starts_with, rstrip, text_eq,
}
use doc_chat_platform.Base.{
  [], none, some, true, false, suc, Bool, List, Option, ◌∷◌, ℕ, if◌then◌else◌, any, not, is_empty,
  leb, ◌++◌, reverse_onto, ltb, ◌&&◌, ◌==◌, ◌||◌, length, take,
}

abbrev pub plain_block : BlockKind → Text → List Text → Block
plain_block kind content section_path = record {
  kind = kind;
  text = content;
  section_path = section_path;
  level = none;
  page = none;
  slide_index = none;
  table_header = none;
  atomic = false;
}

abbrev pub is_not_blank : Text → Bool
is_not_blank line = not (is_empty (strip line))

abbrev pub has_char : ℕ → Text → Bool
has_char d t = any (λ c. c == d) t

-- The characters that a separator row is made of.
abbrev pub is_rule_char : ℕ → Bool
is_rule_char c = c == b'|' || (c == b':' || c == b'-')

abbrev pub is_separator : Text → Bool
is_separator line = has_char b'-' line && is_empty (strip (delete_where is_rule_char line))

abbrev pub header_rows : List Text → Option Text
header_rows [] = none
header_rows (header ∷ []) = none
header_rows (header ∷ separator ∷ rest) =
    if has_char b'|' header && is_separator separator
    then some (header ++ (10 ∷ separator))
    else none

unfoldable pub extract_table_header : Text → Option Text
unfolding strip splitlines
extract_table_header table = header_rows (select_where is_not_blank (splitlines table))

-- `_FENCE`
unfoldable pub is_fence : Text → Bool
unfolding lstrip starts_with
is_fence line = starts_with (codes "```") (lstrip line) || starts_with (codes "~~~") (lstrip line)

abbrev pub ends_in_bar : Text → Bool
ends_in_bar [] = false
ends_in_bar (c ∷ []) = c == b'|'
ends_in_bar (c ∷ d ∷ cs) = ends_in_bar (d ∷ cs)

abbrev pub framed_by_bars : Text → Bool
framed_by_bars [] = false
framed_by_bars (c ∷ cs) = c == b'|' && ends_in_bar cs

-- `_TABLE_ROW`
unfoldable pub is_table_row : Text → Bool
unfolding strip
is_table_row line = framed_by_bars (strip line)

-- The hashes that a line opens with, and what stands behind them.
unfoldable pub leading_hashes : Text → ℕ × Text
leading_hashes [] = (0, [])
leading_hashes (c ∷ cs) =
    let r = leading_hashes cs in if c == b'#' then (suc r.0, r.1) else (0, c ∷ cs)

-- What `\s*#*$` leaves of a title.
unfoldable pub drop_hashes : Text → Text
drop_hashes [] = []
drop_hashes (c ∷ cs) =
    let rest = drop_hashes cs in if is_empty rest && c == b'#' then [] else c ∷ rest

abbrev pub opens_with_space : Text → Bool
opens_with_space [] = false
opens_with_space (c ∷ cs) = is_space c

pub record Heading : Type 0 where
  pub level : ℕ
  pub title : Text

-- `_ATX_HEADING`, with the title stripped
unfoldable pub match_heading : Text → Option Heading
unfolding leading_hashes drop_hashes strip rstrip
match_heading line =
    let (level, rest) = leading_hashes line in
    if leb 1 level && (leb level 6 && opens_with_space rest)
    then some (record { level = level; title = strip (rstrip (drop_hashes (lstrip rest))) })
    else none

-- The variables of the loop; the last level, and the last part of the path, stand first.
pub record Scan : Type 0 where
  pub blocks : List Block
  pub section_path : List Text
  pub levels : List ℕ
  pub buffer : List Text
  pub is_table : Bool
  pub in_fence : Bool

abbrev pub path_of : Scan → List Text
path_of s = reverse_onto s.section_path []

abbrev pub header_for : BlockKind → Text → Option Text
header_for BlockKind.table content = extract_table_header content
header_for _ content = none

abbrev pub push_block : BlockKind → List Text → Text → List Block → List Block
push_block kind path [] blocks = blocks
push_block kind path (c ∷ cs) blocks =
    blocks
    ++ (record (plain_block kind (c ∷ cs) path) { table_header = header_for kind (c ∷ cs) } ∷ [])

-- `_flush`
unfoldable pub flush_buffer : BlockKind → Scan → Scan
unfolding strip join
flush_buffer kind s = record s {
  blocks = push_block kind (path_of s) (strip (join (10 ∷ []) s.buffer)) s.blocks;
  buffer = [];
}

abbrev pub kind_now : Scan → BlockKind
kind_now s = if s.is_table then BlockKind.table else BlockKind.text

abbrev pub add_line : Text → Scan → Scan
add_line line s = record s { buffer = s.buffer ++ (line ∷ []) }

-- The loop that pops the levels that are not above a new heading.
unfoldable pub pop_levels : ℕ → List ℕ → List Text → List ℕ × List Text
pop_levels level [] path = ([], path)
pop_levels level (l ∷ ls) [] = (l ∷ ls, [])
pop_levels level (l ∷ ls) (p ∷ ps) =
    let rest = pop_levels level ls ps in if leb level l then rest else (l ∷ ls, p ∷ ps)

unfoldable pub open_section : Heading → Scan → Scan
unfolding pop_levels
open_section h s =
    let (levels, path) = pop_levels h.level s.levels s.section_path in
    record s {
      levels = h.level ∷ levels;
      section_path = h.title ∷ path;
      is_table = false;
      blocks =
          s.blocks
          ++ (record (plain_block BlockKind.heading h.title (reverse_onto (h.title ∷ path) [])) {
            level = some h.level;
          }
              ∷ []);
    }

-- A flush and a change of kind where a table begins or ends.
unfoldable pub switch_table : Bool → Scan → Scan
unfolding flush_buffer
switch_table row s =
    if row && not s.is_table
    then record (flush_buffer (kind_now s) s) { is_table = true }
    else if not row && s.is_table
    then record (flush_buffer BlockKind.table s) { is_table = false }
    else s

unfoldable pub text_line : Text → Scan → Scan
unfolding strip flush_buffer
text_line line s =
    if is_empty (strip line)
    then record (flush_buffer (kind_now s) s) { is_table = false }
    else add_line line s

unfoldable pub heading_or_text : Text → Option Heading → Scan → Scan
unfolding open_section switch_table text_line is_table_row flush_buffer
heading_or_text line (some h) s = open_section h (flush_buffer (kind_now s) s)
heading_or_text line none s = text_line line (switch_table (is_table_row line) s)

abbrev pub fence_line : Text → Scan → Scan
fence_line line s =
    if s.in_fence
    then record (flush_buffer BlockKind.code (add_line line s)) { in_fence = false }
    else add_line line (record (flush_buffer (kind_now s) s) { in_fence = true })

unfoldable pub scan_line : Scan → Text → Scan
unfolding is_fence heading_or_text match_heading flush_buffer
scan_line s line =
    if is_fence line
    then fence_line line s
    else if s.in_fence
    then add_line line s
    else heading_or_text line (match_heading line) s

unfoldable pub scan_lines : Scan → List Text → Scan
unfolding scan_line
scan_lines s [] = s
scan_lines s (line ∷ lines) = scan_lines (scan_line s line) lines

abbrev pub empty_scan : Scan
empty_scan = record {
  blocks = [];
  section_path = [];
  levels = [];
  buffer = [];
  is_table = false;
  in_fence = false;
}

abbrev pub last_kind : Scan → BlockKind
last_kind s = if s.in_fence then BlockKind.code else kind_now s

abbrev pub finish_scan : Scan → List Block
finish_scan s = (flush_buffer (last_kind s) s).blocks

unfoldable pub markdown_to_blocks : Text → List Block
unfolding scan_lines flush_buffer splitlines
markdown_to_blocks t = finish_scan (scan_lines empty_scan (splitlines t))
