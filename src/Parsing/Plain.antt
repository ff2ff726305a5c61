-- ===== src/Parsing/Plain.antt =====
-- app/implementations/parsers/text_parser.py: TextParser.parse of a text that was read and decoded, with
-- the paragraphs of plain text.
use doc_chat_platform.Models.{Block, ParsedDocument, BlockKind}
use doc_chat_platform.Text.{strip, is_space, Text, text_eq, cons_first}
use doc_chat_platform.Mime.{normalise, md}
use doc_chat_platform.Base.{
  [], none, some, false, zero, suc, Bool, List, Option, ℕ, ◌∷◌, if◌then◌else◌, is_empty, or_option,
  ◌==◌,
}
use doc_chat_platform.Parsing.{plain_block, markdown_to_blocks}

abbrev pub one_more : Option ℕ → Option ℕ
one_more none = none
one_more (some n) = some (suc n)

-- `\s*\n`: how many characters the white space has up to its last line end.
unfoldable pub break_length : Text → Option ℕ
unfolding is_space
break_length [] = none
break_length (c ∷ cs) =
    if is_space c
    then or_option (one_more (break_length cs)) (if c == 10 then some 1 else none)
    else none

unfoldable pub break_after : ℕ → Text → Option ℕ
unfolding break_length
break_after c cs = if c == 10 then break_length cs else none

-- `re.split(r"\n\s*\n", text)`, where so many characters belong to a match
unfoldable pub split_paragraphs : ℕ → Text → List Text
unfolding break_after
split_paragraphs n [] = [] ∷ []
split_paragraphs (suc n) (c ∷ cs) = split_paragraphs n cs
split_paragraphs zero (c ∷ cs) = elim (break_after c cs) [
  | none ↦ cons_first c (split_paragraphs zero cs)
  | some n ↦ [] ∷ split_paragraphs n cs
]

abbrev pub paragraph_blocks : List Text → List Block
unfolding strip
paragraph_blocks [] = []
paragraph_blocks (para ∷ paras) =
    let rest = paragraph_blocks paras in
    if is_empty (strip para) then rest else plain_block BlockKind.text (strip para) [] ∷ rest

abbrev pub is_markdown : Text → Bool
unfolding normalise text_eq
is_markdown mime_type = elim (normalise (some mime_type)) [ none ↦ false | some m ↦ text_eq m md ]

unfoldable pub parse_text : Text → Text → ParsedDocument
unfolding markdown_to_blocks split_paragraphs normalise strip text_eq
parse_text text mime_type = record {
  markdown = text;
  blocks =
      if is_markdown mime_type
      then markdown_to_blocks text
      else paragraph_blocks (split_paragraphs 0 text);
  page_count = none;
}
