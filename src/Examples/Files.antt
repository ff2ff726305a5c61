-- ===== src/Examples/Files.antt =====
-- A Markdown file with headings, a table and a fence, a text of paragraphs, and a sheet.
use doc_chat_platform.Parsing.Titles.{unmarked, Titled}
use doc_chat_platform.Parsing.Collecting.{parse_html-Placed}
use doc_chat_platform.Parsing.Tags.{parse_html, Event}
use doc_chat_platform.Parsing.Docling.{blocks_from_items, Item, Export}
use doc_chat_platform.Parsing.Sections.{Placed}
use doc_chat_platform.Sql.{select_where, delete_where}
use doc_chat_platform.Parsing.Parsed.{parse_text-written}
use doc_chat_platform.Text.Squeezing.{squeeze}
use doc_chat_platform.Parsing.Content.{written, spoken}
use doc_chat_platform.Models.{Block, BlockKind}
use doc_chat_platform.Text.{Text, codes, splitlines, is_line_break, is_space}
use doc_chat_platform.Parsing.Plain.{parse_text, is_markdown}
use doc_chat_platform.Parsing.Sheets.{parse_sheets, Sheet}
use doc_chat_platform.Base.{
  [], none, some, true, false, refl, List, All, ◌∷◌, ◌≡◌, if◌then◌else◌, ℕ,
}
use doc_chat_platform.Parsing.{plain_block, extract_table_header, match_heading}

abbrev guide : Text
guide =
    codes
      "# Guide\nRead *this*.\n\n### Setup ##\n| a | b |\n|---|:-:|\n| 1 | 2 |\nthen\n```\n# not\n```\n## Use\n"

abbrev guide_blocks : List Block
guide_blocks =
    record (plain_block BlockKind.heading (codes "Guide") (codes "Guide" ∷ [])) { level = some 1 }
    ∷ plain_block BlockKind.text (codes "Read *this*.") (codes "Guide" ∷ [])
    ∷ record (plain_block BlockKind.heading (codes "Setup") (codes "Guide" ∷ codes "Setup" ∷ [])) {
      level = some 3;
    }
    ∷ record (plain_block BlockKind.table (codes "| a | b |\n|---|:-:|\n| 1 | 2 |")
        (codes "Guide" ∷ codes "Setup" ∷ [])) { table_header = some (codes "| a | b |\n|---|:-:|") }
    ∷ plain_block BlockKind.text (codes "then") (codes "Guide" ∷ codes "Setup" ∷ [])
    ∷ plain_block BlockKind.code (codes "```\n# not\n```") (codes "Guide" ∷ codes "Setup" ∷ [])
    ∷ record (plain_block BlockKind.heading (codes "Use") (codes "Guide" ∷ codes "Use" ∷ [])) {
      level = some 2;
    }
    ∷ []

guide_is_parsed :
    parse_text guide (codes "text/markdown; charset=utf-8")
    ≡ record { markdown = guide; blocks = guide_blocks; page_count = none }
unfolding parse_text is_line_break extract_table_header select_where delete_where
guide_is_parsed = refl

paragraphs_are_parsed :
    (parse_text (codes " One\ntwo \n \t\n\n  three\n") (codes "text/plain")).blocks
    ≡ plain_block BlockKind.text (codes "One\ntwo") []
      ∷ plain_block BlockKind.text (codes "three") []
      ∷ []
unfolding parse_text
paragraphs_are_parsed = refl

abbrev stock : Sheet
stock = record {
  name = codes "Stock";
  columns = codes "item" ∷ [] ∷ codes "count" ∷ [];
  rows = (codes "bolt" ∷ codes "x" ∷ codes "3" ∷ []) ∷ ([] ∷ []) ∷ ([] ∷ [] ∷ codes "4" ∷ []) ∷ [];
}

sheet_is_parsed : parse_sheets (stock ∷ []) ≡ record {
  markdown = codes "## Stock\nitem: bolt | count: 3\ncount: 4";
  blocks =
      record (plain_block BlockKind.heading (codes "Stock") (codes "Stock" ∷ [])) { level = some 1 }
      ∷ record (plain_block BlockKind.table (codes "item: bolt | count: 3") (codes "Stock" ∷ [])) {
        atomic = true;
      }
      ∷ record (plain_block BlockKind.table (codes "count: 4") (codes "Stock" ∷ [])) {
        atomic = true;
      }
      ∷ [];
  page_count = some 1;
}
unfolding parse_sheets select_where
sheet_is_parsed = refl

parse_text-written_example :
    let d = parse_text guide (codes "text/markdown") in
    (d.markdown ≡ guide)
    × (unmarked (written d.blocks) ≡ unmarked (squeeze guide))
    × (written d.blocks ≡ (
        if is_markdown (codes "text/markdown")
        then spoken false (splitlines guide)
        else squeeze guide))
    × All (λ line. Titled line (match_heading line)) (splitlines guide)
parse_text-written_example = parse_text-written guide (codes "text/markdown")

abbrev page : List Event
page =
    Event.start_tag (codes "html")
    ∷ Event.start_tag (codes "script")
    ∷ Event.data_text (codes "x < 1")
    ∷ Event.start_tag (codes "style")
    ∷ Event.end_tag (codes "style")
    ∷ Event.end_tag (codes "script")
    ∷ Event.start_tag (codes "h2")
    ∷ Event.data_text (codes "Parts \t list")
    ∷ Event.end_tag (codes "h2")
    ∷ Event.start_tag (codes "ul")
    ∷ Event.start_tag (codes "li")
    ∷ Event.data_text (codes "bolt")
    ∷ Event.end_tag (codes "li")
    ∷ Event.end_tag (codes "ul")
    ∷ Event.start_tag (codes "table")
    ∷ Event.start_tag (codes "tr")
    ∷ Event.start_tag (codes "td")
    ∷ Event.data_text (codes "a")
    ∷ Event.end_tag (codes "td")
    ∷ Event.start_tag (codes "td")
    ∷ Event.end_tag (codes "td")
    ∷ Event.end_tag (codes "tr")
    ∷ Event.end_tag (codes "table")
    ∷ Event.data_text (codes "end")
    ∷ []

page_is_collected : parse_html page ≡ (
  record (plain_block BlockKind.heading (codes "Parts list") (codes "Parts list" ∷ [])) {
    level = some 2;
  }
      ∷ plain_block BlockKind.list (codes "bolt") (codes "Parts list" ∷ [])
      ∷ record (plain_block BlockKind.table
          (codes "| a |  |\n| --- | --- |")
          (codes "Parts list" ∷ [])) { table_header = some (codes "| a |  |\n| --- | --- |") }
      ∷ plain_block BlockKind.text (codes "end") (codes "Parts list" ∷ [])
      ∷ [],
  codes "## Parts list\n\nbolt\n\n| a |  |\n| --- | --- |\n\nend",
)
unfolding parse_html is_space
page_is_collected = refl

abbrev item : Text → Item
item text = record {
  label = codes "TEXT";
  text = text;
  pages = none ∷ some 2 ∷ [];
  export_with_doc = Export.type_error;
  export_without_doc = Export.exported (codes "| a |\n|---|");
  caption_text = none;
}

abbrev walked : List (Item × ℕ)
walked =
    (record (item (codes " One ")) { label = codes "Title" }, 1)
    ∷ (record (item []) { label = codes "table" }, 2)
    ∷ (record (item (codes "a map")) { label = codes "picture" }, 2)
    ∷ (record (item (codes "x")) { label = codes "list_item" }, 2)
    ∷ []

items_are_walked :
    blocks_from_items false walked
    ≡ record (plain_block BlockKind.heading (codes "One") (codes "One" ∷ [])) {
      level = some 1;
      page = some 2;
    }
      ∷ record (plain_block BlockKind.table (codes "| a |\n|---|") (codes "One" ∷ [])) {
        table_header = some (codes "| a |\n|---|");
        page = some 2;
      }
      ∷ record (plain_block BlockKind.image (codes "[image: a map]") (codes "One" ∷ [])) {
        page = some 2;
      }
      ∷ record (plain_block BlockKind.list (codes "x") (codes "One" ∷ [])) { page = some 2 }
      ∷ []
unfolding blocks_from_items is_space is_line_break extract_table_header select_where delete_where
items_are_walked = refl

parse_html-Placed_example : Placed [] (parse_html page).0
parse_html-Placed_example = parse_html-Placed page
