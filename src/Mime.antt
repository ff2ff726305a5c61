-- ===== src/Mime.antt =====
-- app/implementations/parsers/mime.py: the type of an upload. Bytes are numbers.
pub mod Registry
pub mod Detection
use doc_chat_platform.Text.{Text, codes, text_eq, starts_with, lower, strip, lstrip}
use doc_chat_platform.Base.{
  [], none, some, Bool, List, Option, ◌∷◌, ok, err, true, false, ◌||◌, ◌&&◌, ◌==◌, not, take, any,
  if◌then◌else◌, ℕ, Result, get_or_else, or_option,
}

abbrev pub pdf : Text
pdf = codes "application/pdf"

abbrev pub docx : Text
docx = codes "application/vnd.openxmlformats-officedocument.wordprocessingml.document"

abbrev pub pptx : Text
pptx = codes "application/vnd.openxmlformats-officedocument.presentationml.presentation"

abbrev pub xlsx : Text
xlsx = codes "application/vnd.openxmlformats-officedocument.spreadsheetml.sheet"

abbrev pub doc : Text
doc = codes "application/msword"

abbrev pub ppt : Text
ppt = codes "application/vnd.ms-powerpoint"

abbrev pub xls : Text
xls = codes "application/vnd.ms-excel"

abbrev pub csv : Text
csv = codes "text/csv"

abbrev pub txt : Text
txt = codes "text/plain"

abbrev pub md : Text
md = codes "text/markdown"

abbrev pub html : Text
html = codes "text/html"

abbrev pub extension_map : List (Text × Text)
extension_map =
    (codes ".pdf", pdf)
    ∷ (codes ".docx", docx)
    ∷ (codes ".pptx", pptx)
    ∷ (codes ".xlsx", xlsx)
    ∷ (codes ".xlsm", xlsx)
    ∷ (codes ".doc", doc)
    ∷ (codes ".ppt", ppt)
    ∷ (codes ".xls", xls)
    ∷ (codes ".csv", csv)
    ∷ (codes ".tsv", csv)
    ∷ (codes ".txt", txt)
    ∷ (codes ".md", md)
    ∷ (codes ".markdown", md)
    ∷ (codes ".html", html)
    ∷ (codes ".htm", html)
    ∷ []

abbrev pub aliases : List (Text × Text)
aliases =
    (codes "application/x-pdf", pdf)
    ∷ (codes "text/x-markdown", md)
    ∷ (codes "application/csv", csv)
    ∷ (codes "text/comma-separated-values", csv)
    ∷ (codes "text/tab-separated-values", csv)
    ∷ (codes "application/vnd.ms-excel.sheet.macroenabled.12", xlsx)
    ∷ (codes "application/xhtml+xml", html)
    ∷ []

abbrev pub supported_mime_types : List Text
supported_mime_types = pdf ∷ docx ∷ pptx ∷ xlsx ∷ doc ∷ ppt ∷ xls ∷ csv ∷ txt ∷ md ∷ html ∷ []

abbrev pub ole2_signature : List ℕ
ole2_signature = 0xd0 ∷ 0xcf ∷ 0x11 ∷ 0xe0 ∷ 0xa1 ∷ 0xb1 ∷ 0x1a ∷ 0xe1 ∷ []

-- What the standard library answers: the names in a ZIP archive (none when it is no archive), and
-- the type that `mimetypes.guess_type` has for a file name.
pub record MimeTools : Type 0 where
  pub zip_names : List ℕ → Option (List Text)
  pub guess_type : Text → Option Text

-- The type that was detected, of an upload that is refused.
pub data Unsupported : Type 0 where
  unsupported : Text → Unsupported

unfoldable pub one_of : List Text → Text → Bool
unfolding text_eq
one_of types t = any (λ u. text_eq t u) types

unfoldable pub look_up : List (Text × Text) → Text → Option Text
unfolding text_eq
look_up [] t = none
look_up ((k, v) ∷ table) t = let rest = look_up table t in if text_eq k t then some v else rest

-- `split(";", 1)[0]`
unfoldable pub before_semicolon : Text → Text
before_semicolon [] = []
before_semicolon (c ∷ cs) = let rest = before_semicolon cs in if c == b';' then [] else c ∷ rest

unfoldable pub normalise : Option Text → Option Text
unfolding look_up before_semicolon one_of lower strip
normalise none = none
normalise (some []) = none
normalise (some (c ∷ cs)) =
    let base = lower (strip (before_semicolon (c ∷ cs))) in
    let name = get_or_else (look_up aliases base) base in
    if one_of supported_mime_types name then some name else none

unfoldable pub ends_with : Text → Text → Bool
unfolding text_eq
ends_with suffix [] = text_eq suffix []
ends_with suffix (c ∷ cs) = text_eq suffix (c ∷ cs) || ends_with suffix cs

unfoldable pub from_table : List (Text × Text) → Text → Option Text
unfolding ends_with
from_table [] lowered = none
from_table ((ext, mime) ∷ table) lowered =
    let rest = from_table table lowered in if ends_with ext lowered then some mime else rest

unfoldable pub from_extension : MimeTools → Text → Option Text
unfolding from_table normalise lower
from_extension tools filename =
    or_option (from_table extension_map (lower filename)) (normalise (tools.guess_type filename))

abbrev pub holds_folder : Text → List Text → Bool
holds_folder folder names = any (λ n. starts_with folder n) names

-- The member of the family, by the names in the archive.
unfoldable pub ooxml_type : Option Text → Option (List Text) → Option Text
unfolding starts_with
ooxml_type hint none = none
ooxml_type hint (some names) =
    if holds_folder (codes "word/") names
    then some docx
    else if holds_folder (codes "ppt/") names
    then some pptx
    else if holds_folder (codes "xl/") names
    then some xlsx
    else hint

unfoldable pub sniff_ooxml : MimeTools → List ℕ → Option Text → Option Text
unfolding ooxml_type
sniff_ooxml tools bytes hint = ooxml_type hint (tools.zip_names bytes)

-- White space of `bytes.lstrip`
abbrev is_byte_space : ℕ → Bool
is_byte_space c = c == 32 || c == 9 || c == 10 || c == 13 || c == 11 || c == 12

unfoldable pub lstrip_bytes : List ℕ → List ℕ
lstrip_bytes [] = []
lstrip_bytes (c ∷ cs) = let rest = lstrip_bytes cs in if is_byte_space c then rest else c ∷ cs

-- The prefixes have letters of ASCII, whose lower case `bytes.lower` and `lower` agree on.
unfoldable pub looks_like_html : List ℕ → Bool
unfolding lstrip_bytes starts_with lower
looks_like_html head =
    let probe = lower (lstrip_bytes (take 1024 head)) in
    starts_with (codes "<!doctype html") probe
    || (starts_with (codes "<html") probe || starts_with (codes "<?xml-stylesheet") probe)

-- Bytes with no NUL: those that UTF-8 does not decode, latin-1 does, which decodes every byte.
unfoldable pub is_text : List ℕ → Bool
is_text bytes = not (any (λ b. b == 0) (take 8192 bytes))

-- What a test on the hint lets through, or else the given outcome.
abbrev pub trust : List Text → Option Text → Result Unsupported Text → Result Unsupported Text
trust types none outcome = outcome
trust types (some t) outcome = if one_of types t then ok t else outcome

abbrev pub archive_type : Option Text → Result Unsupported Text
archive_type none = err (unsupported (codes "application/zip"))
archive_type (some t) = ok t

unfoldable pub detect_with : MimeTools → List ℕ → Option Text → Result Unsupported Text
unfolding sniff_ooxml looks_like_html is_text starts_with one_of
detect_with tools bytes hint =
    if starts_with (codes "%PDF") bytes
    then ok pdf
    else if starts_with (b'P' ∷ b'K' ∷ 3 ∷ 4 ∷ []) bytes
    then archive_type (sniff_ooxml tools bytes hint)
    else if starts_with ole2_signature bytes
    then trust (doc ∷ ppt ∷ xls ∷ []) hint (err (unsupported (codes "application/x-ole-storage")))
    else if looks_like_html bytes
    then ok html
    else if is_text bytes
    then trust (csv ∷ md ∷ txt ∷ html ∷ []) hint (ok txt)
    else err (unsupported (get_or_else hint (codes "application/octet-stream")))

unfoldable pub detect_mime : MimeTools → List ℕ → Text → Option Text → Result Unsupported Text
unfolding detect_with normalise from_extension
detect_mime tools bytes filename declared =
    detect_with tools bytes (or_option (normalise declared) (from_extension tools filename))
