-- ===== src/Parsing/Html.antt =====
-- app/implementations/parsers/lite_html.py, the collector over the events that the standard library's
-- HTMLParser calls it with, and _rows_to_markdown of lite_office.py.

use doc_chat_platform.Text.{strip, Text, join, text_eq, codes}
use doc_chat_platform.Models.{BlockKind, Block}
use doc_chat_platform.Sql.{select_where}
use doc_chat_platform.Parsing.{plain_block, pop_levels, is_not_blank}
use doc_chat_platform.Base.{
  ◌∷◌, [], none, some, false, zero, suc, Bool, List, Option, ℕ, max, ◌==◌, reverse_onto,
  if◌then◌else◌, any, ◌++◌, map, ◌||◌, ltb, length, min, ◌-◌,
}

abbrev longest : List (List Text) → ℕ
longest [] = 0
longest (r ∷ rows) = max (length r) (longest rows)

abbrev copies : ℕ → Text → List Text
copies zero t = []
copies (suc n) t = t ∷ copies n t

abbrev pub pad_row : ℕ → List Text → List Text
pad_row width r = r ++ copies (width - length r) []

unfoldable pub table_line : List Text → Text
unfolding join
table_line cells = codes "| " ++ (join (codes " | ") cells ++ codes " |")

abbrev pub table_text : List (List Text) → Text × Option Text
unfolding table_line join
table_text [] = ([], none)
table_text (first ∷ rows) =
    let width = longest (first ∷ rows) in
    let header = table_line (pad_row width first) in
    let separator = table_line (copies width (codes "---")) in
    (
      join (10 ∷ []) (header ∷ separator ∷ map (λ r. table_line (pad_row width r)) rows),
      some (header ++ (10 ∷ separator)),
    )

-- `_rows_to_markdown`
unfoldable pub rows_to_markdown : List (List Text) → Text × Option Text
unfolding select_where table_text
rows_to_markdown rows = table_text (select_where (λ r. any is_not_blank r) rows)

-- `_WHITESPACE`
abbrev pub is_inline_space : ℕ → Bool
is_inline_space c = c == 32 || (c == 9 || (c == 13 || (c == 12 || c == 11)))

abbrev pub opens_blank : Text → Bool
opens_blank [] = false
opens_blank (c ∷ cs) = is_inline_space c

unfoldable pub collapse : Text → Text
collapse [] = []
collapse (c ∷ cs) =
    let rest = collapse cs in
    if is_inline_space c then if opens_blank cs then rest else 32 ∷ rest else c ∷ rest

-- `_clean`
unfoldable pub clean : Text → Text
unfolding collapse strip
clean t = strip (collapse t)

-- `_HEADINGS`
abbrev pub heading_tags : List (Text × ℕ)
heading_tags =
    (codes "h1", 1)
    ∷ (codes "h2", 2)
    ∷ (codes "h3", 3)
    ∷ (codes "h4", 4)
    ∷ (codes "h5", 5)
    ∷ (codes "h6", 6)
    ∷ []

unfoldable pub level_in : List (Text × ℕ) → Text → Option ℕ
unfolding text_eq
level_in [] tag = none
level_in ((name, level) ∷ rest) tag =
    let later = level_in rest tag in if text_eq name tag then some level else later

-- `_BLOCK_TAGS`
abbrev pub block_tags : List Text
block_tags =
    codes "p"
    ∷ codes "div"
    ∷ codes "section"
    ∷ codes "article"
    ∷ codes "blockquote"
    ∷ codes "pre"
    ∷ codes "figcaption"
    ∷ []

-- `_SKIP_TAGS`
abbrev pub skip_tags : List Text
skip_tags =
    codes "script"
    ∷ codes "style"
    ∷ codes "noscript"
    ∷ codes "head"
    ∷ codes "svg"
    ∷ codes "template"
    ∷ []

abbrev pub cell_tags : List Text
cell_tags = codes "td" ∷ codes "th" ∷ []

abbrev pub list_tags : List Text
list_tags = codes "ul" ∷ codes "ol" ∷ []

-- `_Collector`; the last level, and the last part of the path, stand first.
pub record Collector : Type 0 where
  pub blocks : List Block
  pub markdown : List Text
  pub section_path : List Text
  pub levels : List ℕ
  pub buffer : List Text
  pub skip_depth : ℕ
  pub heading_level : Option ℕ
  pub list_depth : ℕ
  pub table_rows : Option (List (List Text))
  pub row : Option (List Text)
  pub cell : Option (List Text)

abbrev pub new_collector : Collector
new_collector = record {
  blocks = [];
  markdown = [];
  section_path = [];
  levels = [];
  buffer = [];
  skip_depth = 0;
  heading_level = none;
  list_depth = 0;
  table_rows = none;
  row = none;
  cell = none;
}

abbrev pub open_path : Collector → List Text
open_path s = reverse_onto s.section_path []

abbrev pub emit_text : BlockKind → Text → Collector → Collector
emit_text kind [] s = s
emit_text kind (c ∷ cs) s = record s {
  blocks = s.blocks ++ (plain_block kind (c ∷ cs) (open_path s) ∷ []);
  markdown = s.markdown ++ ((c ∷ cs) ∷ []);
}

-- `_emit`
unfoldable pub emit : BlockKind → Text → Collector → Collector
unfolding strip
emit kind text s = emit_text kind (strip text) s

-- `_flush_text`; `emit` ignores what strips to nothing.
unfoldable pub flush_text : BlockKind → Collector → Collector
unfolding clean join emit
flush_text kind s = emit kind (clean (join (codes " ") s.buffer)) (record s { buffer = [] })

unfoldable pub hashes : ℕ → Text
hashes zero = []
hashes (suc n) = b'#' ∷ hashes n

-- `_push_heading`
unfoldable pub push_heading : ℕ → Text → Collector → Collector
unfolding pop_levels hashes
push_heading level title s =
    let (levels, path) = pop_levels level s.levels s.section_path in
    record s {
      levels = level ∷ levels;
      section_path = title ∷ path;
      blocks =
          s.blocks
          ++ (record (plain_block BlockKind.heading title (reverse_onto (title ∷ path) [])) {
            level = some level;
          }
              ∷ []);
      markdown = s.markdown ++ ((hashes (min level 6) ++ (32 ∷ title)) ∷ []);
    }

abbrev pub push_table : Text × Option Text → Collector → Collector
push_table ([], header) s = s
push_table (c ∷ cs, header) s = record s {
  blocks =
      s.blocks
      ++ (record (plain_block BlockKind.table (c ∷ cs) (open_path s)) { table_header = header }
          ∷ []);
  markdown = s.markdown ++ ((c ∷ cs) ∷ []);
}

-- `_finish_table`
unfoldable pub finish_table : List (List Text) → Collector → Collector
unfolding rows_to_markdown
finish_table rows s = push_table (rows_to_markdown rows) (record s { table_rows = none })

abbrev pub list_kind : Collector → BlockKind
list_kind s = if ltb 0 s.list_depth then BlockKind.list else BlockKind.text
