-- ===== src/Parsing/Tags.antt =====
-- app/implementations/parsers/lite_html.py: the hooks of the collector, tag by tag.
use doc_chat_platform.Models.{Block, BlockKind}
use doc_chat_platform.Mime.{one_of}
use doc_chat_platform.Text.{Text, strip, join, text_eq, codes}
use doc_chat_platform.Parsing.Html.{
  Collector, flush_text, clean, push_heading, level_in, skip_tags, finish_table, new_collector,
  heading_tags, cell_tags, list_tags, list_kind, block_tags,
}
use doc_chat_platform.Base.{
  ◌∷◌, [], none, some, List, Option, ℕ, if◌then◌else◌, ◌++◌, ltb, is_some, ◌||◌, ◌-◌, ◌+◌, is_empty,
  ◌&&◌, get_or_else,
}

-- The calls of HTMLParser: `<br/>` is a start tag and an end tag.
pub data Event : Type 0 where
  start_tag : Text → Event
  end_tag : Text → Event
  data_text : Text → Event

-- `handle_starttag` where nothing is skipped
unfoldable pub open_tag : Text → Collector → Collector
unfolding flush_text one_of level_in text_eq
open_tag tag s =
    if text_eq tag (codes "br")
    then record s { buffer = s.buffer ++ ((10 ∷ []) ∷ []) }
    else if is_some (level_in heading_tags tag)
    then record (flush_text BlockKind.text s) { heading_level = level_in heading_tags tag }
    else if text_eq tag (codes "table")
    then record (flush_text BlockKind.text s) { table_rows = some [] }
    else if text_eq tag (codes "tr") && is_some s.table_rows
    then record s { row = some [] }
    else if one_of cell_tags tag && is_some s.row
    then record s { cell = some [] }
    else if one_of list_tags tag
    then record (flush_text BlockKind.text s) { list_depth = s.list_depth + 1 }
    else if text_eq tag (codes "li")
    then flush_text (list_kind s) s
    else if one_of block_tags tag
    then flush_text BlockKind.text s
    else s

unfoldable pub handle_starttag : Text → Collector → Collector
unfolding open_tag one_of
handle_starttag tag s =
    if one_of skip_tags tag
    then record s { skip_depth = s.skip_depth + 1 }
    else if ltb 0 s.skip_depth
    then s
    else open_tag tag s

unfoldable pub end_heading_at : Text → Option ℕ → Collector → Collector
unfolding push_heading
end_heading_at [] level s = s
end_heading_at (c ∷ cs) none s = s
end_heading_at (c ∷ cs) (some level) s = push_heading level (c ∷ cs) s

unfoldable pub end_heading : Collector → Collector
unfolding end_heading_at clean join
end_heading s =
    record (end_heading_at (clean (join (codes " ") s.buffer)) s.heading_level
      (record s { buffer = [] })) { heading_level = none }

abbrev end_cell : List Text → List Text → Collector → Collector
unfolding clean join
end_cell row cell s = record s {
  row = some (row ++ (clean (join (codes " ") cell) ∷ []));
  cell = none;
}

abbrev end_row : List Text → Collector → Collector
end_row row s = record s {
  table_rows = elim s.table_rows [ none ↦ none | some rows ↦ some (rows ++ (row ∷ [])) ];
  row = none;
}

-- `handle_endtag` where nothing is skipped
unfoldable pub close_tag : Text → Collector → Collector
unfolding end_heading end_cell one_of level_in flush_text finish_table text_eq
close_tag tag s =
    if is_some (level_in heading_tags tag)
    then end_heading s
    else if one_of cell_tags tag && (is_some s.cell && is_some s.row)
    then end_cell (get_or_else s.row []) (get_or_else s.cell []) s
    else if text_eq tag (codes "tr") && is_some s.row
    then end_row (get_or_else s.row []) s
    else if text_eq tag (codes "table") && is_some s.table_rows
    then finish_table (get_or_else s.table_rows []) s
    else if one_of list_tags tag
    then record (flush_text (list_kind s) s) { list_depth = s.list_depth - 1 }
    else if text_eq tag (codes "li")
    then flush_text BlockKind.list s
    else if one_of block_tags tag
    then flush_text BlockKind.text s
    else s

unfoldable pub handle_endtag : Text → Collector → Collector
unfolding close_tag one_of
handle_endtag tag s =
    if one_of skip_tags tag
    then record s { skip_depth = s.skip_depth - 1 }
    else if ltb 0 s.skip_depth
    then s
    else close_tag tag s

unfoldable pub handle_data : Text → Collector → Collector
unfolding strip
handle_data text s =
    if ltb 0 s.skip_depth || is_empty (strip text)
    then s
    else if is_some s.cell
    then record s { cell = some (get_or_else s.cell [] ++ (text ∷ [])) }
    else if is_some s.row || is_some s.table_rows
    then s
    else record s { buffer = s.buffer ++ (text ∷ []) }

unfoldable pub handle : Event → Collector → Collector
unfolding handle_starttag handle_endtag handle_data
handle (Event.start_tag tag) s = handle_starttag tag s
handle (Event.end_tag tag) s = handle_endtag tag s
handle (Event.data_text text) s = handle_data text s

unfoldable pub feed : List Event → Collector → Collector
unfolding handle
feed [] s = s
feed (e ∷ events) s = feed events (handle e s)

-- The blocks and the Markdown of `parse_html`
unfoldable pub parse_html : List Event → List Block × Text
unfolding feed flush_text join
parse_html events =
    let s = flush_text BlockKind.text (feed events new_collector) in
    (s.blocks, join (10 ∷ 10 ∷ []) s.markdown)
