-- ===== src/Parsing/Pptx.antt =====
-- app/implementations/parsers/lite_office.py: parse_pptx over slides. python-pptx is a library: a shape
-- has its id and a table, the texts of its paragraphs, or neither.
use doc_chat_platform.Sql.{select_where}
use doc_chat_platform.Text.{strip, join, decimal, Text, codes}
use doc_chat_platform.Models.{Block, BlockKind}
use doc_chat_platform.Parsing.{plain_block}
use doc_chat_platform.Parsing.Docx.{table_of}
use doc_chat_platform.Base.{
  ◌∷◌, [], none, some, false, suc, Bool, List, Option, ℕ, ◌==◌, if◌then◌else◌, ◌++◌, length, not,
  is_empty, map,
}

-- A shape with a table is not asked for its text.
pub data Frame : Type 0 where
  has_table : List (List Text) → Frame
  has_text : List Text → Frame
  neither : Frame

pub record Shape : Type 0 where
  pub shape_id : ℕ
  pub frame : Frame

-- `title` is the id and the text of `shapes.title`; `notes` is the text of the notes slide.
pub record Slide : Type 0 where
  pub title : Option (ℕ × Text)
  pub shapes : List Shape
  pub notes : Option Text

-- Blocks with their lines of Markdown
abbrev pub Lines : Type 0
Lines = List Block × List Text

abbrev pub on_slide : ℕ → Block → Block
on_slide index b = record b { page = some index; slide_index = some index }

abbrev pub non_empty : Text → Lines → Lines
non_empty [] lines = ([], [])
non_empty (c ∷ cs) lines = lines

-- `_shape_text`
unfoldable pub shape_text : List Text → Text
unfolding strip join select_where
shape_text paragraphs =
    join (10 ∷ []) (select_where (λ line. not (is_empty line)) (map strip paragraphs))

abbrev pub slide_title : Slide → Text
unfolding strip
slide_title slide = elim slide.title [ none ↦ [] | some t ↦ strip t.1 ]

abbrev pub is_title : Slide → Shape → Bool
is_title slide shape = elim slide.title [ none ↦ false | some t ↦ shape.shape_id == t.0 ]

abbrev pub path_for : ℕ → Text → List Text
unfolding decimal
path_for index [] = (codes "Slide " ++ decimal index) ∷ []
path_for index (c ∷ cs) = (c ∷ cs) ∷ []

abbrev pub title_lines : ℕ → Text → Lines
title_lines index title = non_empty title (
  on_slide index (record (plain_block BlockKind.heading title (title ∷ [])) { level = some 1 })
      ∷ [],
  (codes "## " ++ title) ∷ [],
)

abbrev pub frame_lines : ℕ → List Text → Frame → Lines
unfolding table_of shape_text
frame_lines index path (Frame.has_table rows) =
    let (text, header) = table_of rows in
    non_empty text (
      on_slide index (record (plain_block BlockKind.table text path) { table_header = header })
          ∷ [],
      text ∷ [],
    )
frame_lines index path (Frame.has_text paragraphs) =
    let text = shape_text paragraphs in
    non_empty text (on_slide index (plain_block BlockKind.text text path) ∷ [], text ∷ [])
frame_lines index path Frame.neither = ([], [])

abbrev pub shape_lines : ℕ → List Text → Slide → List Shape → Lines
unfolding frame_lines
shape_lines index path slide [] = ([], [])
shape_lines index path slide (shape ∷ shapes) =
    let rest = shape_lines index path slide shapes in
    let own = if is_title slide shape then ([], []) else frame_lines index path shape.frame in
    (own.0 ++ rest.0, own.1 ++ rest.1)

abbrev pub notes_lines : ℕ → List Text → Option Text → Lines
unfolding strip
notes_lines index path none = ([], [])
notes_lines index path (some text) =
    let notes = strip text in
    non_empty notes (
      on_slide index (plain_block BlockKind.slide_notes (codes "Speaker notes: " ++ notes) path)
          ∷ [],
      (codes "> Speaker notes: " ++ notes) ∷ [],
    )

unfoldable pub slide_lines : ℕ → Slide → Lines
unfolding slide_title path_for shape_lines notes_lines
slide_lines index slide =
    let title = slide_title slide in
    let path = path_for index title in
    let head = title_lines index title in
    let body = shape_lines index path slide slide.shapes in
    let foot = notes_lines index path slide.notes in
    (head.0 ++ (body.0 ++ foot.0), head.1 ++ (body.1 ++ foot.1))

unfoldable pub slides_from : ℕ → List Slide → Lines
unfolding slide_lines
slides_from index [] = ([], [])
slides_from index (slide ∷ slides) =
    let own = slide_lines index slide in
    let rest = slides_from (suc index) slides in (own.0 ++ rest.0, own.1 ++ rest.1)

unfoldable pub parse_pptx : List Slide → List Block × ℕ × Text
unfolding slides_from join
parse_pptx slides =
    let (blocks, markdown) = slides_from 1 slides in
    (blocks, length slides, join (10 ∷ 10 ∷ []) markdown)
