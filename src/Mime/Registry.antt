-- ===== src/Mime/Registry.antt =====
-- app/implementations/parsers/__init__.py: the map from a type to its parser. A parser is known by
-- its name and its `mime_types`; the parsers themselves are not under the model.
use doc_chat_platform.Text.{Text, text_eq}
use doc_chat_platform.Mime.{
  pdf, normalise, Unsupported, docx, pptx, unsupported, html, csv, xlsx, txt, md, doc, ppt, xls,
}
use doc_chat_platform.Base.{
  [], none, some, ok, err, Bool, List, Option, Result, if◌then◌else◌, ◌∷◌, is_some, ◌++◌, is_empty,
  get_or_else,
}

pub data ParserName : Type 0 where
  rich tabular text legacy_office : ParserName

-- `mime_types` of the classes; the two rich parsers declare the same ones.
unfoldable pub mime_types : ParserName → List Text
mime_types ParserName.rich = pdf ∷ docx ∷ pptx ∷ html ∷ []
mime_types ParserName.tabular = csv ∷ xlsx ∷ []
mime_types ParserName.text = txt ∷ md ∷ []
mime_types ParserName.legacy_office = doc ∷ ppt ∷ xls ∷ []

abbrev pub Parsers : Type 0
Parsers = List (Text × ParserName)

unfoldable pub parser_of : Parsers → Text → Option ParserName
unfolding text_eq
parser_of [] t = none
parser_of ((k, p) ∷ parsers) t =
    let rest = parser_of parsers t in if text_eq k t then some p else rest

-- The two errors of `register`.
pub data RegisterError : Type 0 where
  declares_none : ParserName → RegisterError
  already_handled : Text → ParserName → RegisterError

unfoldable pub register_types : ParserName → List Text → Parsers → Result RegisterError Parsers
unfolding parser_of
register_types parser [] parsers = ok parsers
register_types parser (t ∷ types) parsers = elim (parser_of parsers t) [
  | some existing ↦ err (already_handled t existing)
  | none ↦ register_types parser types (parsers ++ (t, parser) ∷ [])
]

unfoldable pub register : ParserName → Parsers → Result RegisterError Parsers
unfolding register_types mime_types
register parser parsers =
    if is_empty (mime_types parser)
    then err (declares_none parser)
    else register_types parser (mime_types parser) parsers

abbrev then_register : ParserName → Result RegisterError Parsers → Result RegisterError Parsers
then_register parser (ok parsers) = register parser parsers
then_register parser (err e) = err e

unfoldable pub build_registry : Result RegisterError Parsers
unfolding register
build_registry =
    then_register ParserName.legacy_office (
      then_register ParserName.text
        (then_register ParserName.tabular (register ParserName.rich [])))

-- `ParserRegistry.get`, which raises UnsupportedFileType when it has no parser
unfoldable pub get_parser : Parsers → Text → Result Unsupported ParserName
unfolding parser_of normalise
get_parser parsers mime_type =
    elim (parser_of parsers (get_or_else (normalise (some mime_type)) mime_type)) [
      | some p ↦ ok p
      | none ↦ err (unsupported mime_type)
    ]

unfoldable pub supports : Parsers → Text → Bool
unfolding parser_of normalise
supports parsers mime_type =
    is_some (parser_of parsers (get_or_else (normalise (some mime_type)) mime_type))
