-- ===== src/Parsing/Docling.antt =====
-- app/implementations/parsers/docling_blocks.py: blocks_from_items and blocks_from_hybrid_chunker. Docling
-- is a library: an item is what its attributes and calls give, a chunk its text, headings and items.
use doc_chat_platform.Mime.{one_of}
use doc_chat_platform.Models.{Block, BlockKind}
use doc_chat_platform.Text.{lower, Text, strip, text_eq, codes}
use doc_chat_platform.Base.{
  [], none, some, Bool, List, Option, ℕ, any, if◌then◌else◌, map, ◌++◌, reverse_onto, ◌∷◌,
  or_option, is_empty,
}
use doc_chat_platform.Parsing.{plain_block, pop_levels, extract_table_header}

-- What a call of `export_to_markdown` ends in; a failure that is not a TypeError is not retried.
pub data Export : Type 0 where
  exported : Text → Export
  type_error failed : Export

-- `item.text` and an absent caption are empty; `pages` are the page numbers of `prov`.
pub record Item : Type 0 where
  pub label : Text
  pub text : Text
  pub pages : List (Option ℕ)
  pub export_with_doc : Export
  pub export_without_doc : Export
  pub caption_text : Option Text

abbrev pub heading_labels : List Text
heading_labels = codes "title" ∷ codes "section_header" ∷ []

abbrev pub table_labels : List Text
table_labels = codes "table" ∷ codes "document_index" ∷ []

abbrev pub image_labels : List Text
image_labels = codes "picture" ∷ codes "figure" ∷ []

abbrev pub code_labels : List Text
code_labels = codes "code" ∷ codes "formula" ∷ []

-- `_label_of`
unfoldable pub label_of : Item → Text
unfolding lower
label_of item = lower item.label

abbrev pub first_page : List (Option ℕ) → Option ℕ
first_page [] = none
first_page (p ∷ ps) = or_option p (first_page ps)

-- `_page_of`
abbrev pub page_of : Item → Option ℕ
page_of item = first_page item.pages

abbrev pub or_nothing : Export → Text
or_nothing (Export.exported t) = t
or_nothing _ = []

abbrev pub exported_text : Item → Text
exported_text item = elim item.export_with_doc [
  | Export.exported t ↦ t
  | Export.type_error ↦ or_nothing item.export_without_doc
  | Export.failed ↦ []
]

-- The text of `_table_markdown`; its header is extract_table_header of it.
abbrev pub table_markdown : Item → Text
table_markdown item = if is_empty (exported_text item) then item.text else exported_text item

abbrev pub paged : Option ℕ → Bool → Block → Block
paged page is_slides b = record b { page = page; slide_index = if is_slides then page else none }

abbrev pub image_text : Text → Text
image_text [] = codes "[image]"
image_text (c ∷ cs) = codes "[image: " ++ ((c ∷ cs) ++ codes "]")

unfoldable pub caption_of : Item → Text
unfolding strip
caption_of item = elim item.caption_text [ none ↦ strip item.text | some t ↦ strip t ]

abbrev pub kind_of_label : Text → BlockKind
unfolding one_of text_eq
kind_of_label label =
    if text_eq label (codes "list_item")
    then BlockKind.list
    else if one_of code_labels label
    then BlockKind.code
    else BlockKind.text

-- The variables of the walk; the last level, and the last part of the path, stand first.
pub record Walk : Type 0 where
  pub blocks : List Block
  pub section_path : List Text
  pub heading_levels : List ℕ

abbrev pub path_now : Walk → List Text
path_now w = reverse_onto w.section_path []

abbrev pub push : Block → Walk → Walk
push b w = record w { blocks = w.blocks ++ (b ∷ []) }

unfoldable pub enter_section : Option ℕ → Bool → ℕ → Text → Walk → Walk
unfolding pop_levels
enter_section page is_slides level text w =
    let (levels, path) = pop_levels level w.heading_levels w.section_path in
    record {
      heading_levels = level ∷ levels;
      section_path = text ∷ path;
      blocks =
          w.blocks
          ++ (paged page is_slides
                (record (plain_block BlockKind.heading text (reverse_onto (text ∷ path) [])) {
                  level = some level;
                })
              ∷ []);
    }

abbrev pub table_block : Text → List Text → Block
unfolding extract_table_header
table_block text path = record (plain_block BlockKind.table text path) {
  table_header = extract_table_header text;
}

-- One turn of the loop of `blocks_from_items`
unfoldable pub walk_item : Bool → Walk → Item × ℕ → Walk
unfolding label_of one_of strip enter_section extract_table_header caption_of text_eq
walk_item is_slides w (item, level) =
    let label = label_of item in
    let text = strip item.text in
    let page = page_of item in
    if one_of heading_labels label
    then if is_empty text then w else enter_section page is_slides level text w
    else if one_of table_labels label
    then if is_empty (strip (table_markdown item))
      then w
      else push (paged page is_slides (table_block (table_markdown item) (path_now w))) w
    else if one_of image_labels label
    then push
        (paged page is_slides
          (plain_block BlockKind.image (image_text (caption_of item)) (path_now w)))
        w
    else if is_empty text
    then w
    else push (paged page is_slides (plain_block (kind_of_label label) text (path_now w))) w

unfoldable pub walk_items : Bool → Walk → List (Item × ℕ) → Walk
unfolding walk_item
walk_items is_slides w [] = w
walk_items is_slides w (i ∷ items) = walk_items is_slides (walk_item is_slides w i) items

unfoldable pub blocks_from_items : Bool → List (Item × ℕ) → List Block
unfolding walk_items
blocks_from_items is_slides items =
    (walk_items is_slides (record { blocks = []; section_path = []; heading_levels = [] })
      items).blocks

-- A chunk of HybridChunker
pub record HybridChunk : Type 0 where
  pub text : Text
  pub headings : List Text
  pub doc_items : List Item

abbrev pub has_label : List Text → List Item → Bool
unfolding label_of one_of
has_label labels items = any (λ i. one_of labels (label_of i)) items

abbrev pub hybrid_block : Bool → Text → HybridChunk → Block
unfolding has_label extract_table_header
hybrid_block is_slides text chunk = paged (first_page (map page_of chunk.doc_items)) is_slides (
    if has_label table_labels chunk.doc_items
    then table_block text chunk.headings
    else plain_block
        (if has_label (codes "list_item" ∷ []) chunk.doc_items
          then BlockKind.list
          else BlockKind.text)
        text chunk.headings)

abbrev pub hybrid_blocks : Bool → List HybridChunk → List Block
unfolding strip hybrid_block
hybrid_blocks is_slides [] = []
hybrid_blocks is_slides (chunk ∷ chunks) =
    let rest = hybrid_blocks is_slides chunks in
    let text = strip chunk.text in
    if is_empty text then rest else hybrid_block is_slides text chunk ∷ rest

-- `none` where the chunker cannot be imported or fails
unfoldable pub blocks_from_hybrid_chunker : Bool → Option (List HybridChunk) → List Block
unfolding hybrid_blocks
blocks_from_hybrid_chunker is_slides none = []
blocks_from_hybrid_chunker is_slides (some chunks) = hybrid_blocks is_slides chunks
