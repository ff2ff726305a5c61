-- ===== src/Mime/Detection.antt =====
-- Detection and the registry agree: what `detect_mime` returns, a registered parser accepts.
use doc_chat_platform.Text.{Text, text_eq, lower, codes, is_space, strip}
use doc_chat_platform.Mime.{
  one_of, from_extension, from_table, normalise, or_option, MimeTools, pdf, extension_map,
  supported_mime_types, docx, ends_with, pptx, html, csv, xlsx, txt, md, doc, ppt, xls, sniff_ooxml,
  Unsupported, holds_folder, detect_mime, detect_with, trust, archive_type, look_up, aliases,
  before_semicolon, ooxml_type,
}
use doc_chat_platform.Mime.Registry.{Parsers, supports, build_registry, ParserName}
use mathlib.Core.Path.{subst}
use doc_chat_platform.Text.Laws.{text_eq→eq}
use doc_chat_platform.Base.{
  [], none, some, true, inl, inr, refl, ok, List, Option, ◌∷◌, All, ◌≡◌, Bool-cases, sym, err, Bool,
  Result, all, if◌then◌else◌, ℕ, false, get_or_else,
}

abbrev registered : Parsers
registered =
    (pdf, ParserName.rich)
    ∷ (docx, ParserName.rich)
    ∷ (pptx, ParserName.rich)
    ∷ (html, ParserName.rich)
    ∷ (csv, ParserName.tabular)
    ∷ (xlsx, ParserName.tabular)
    ∷ (txt, ParserName.text)
    ∷ (md, ParserName.text)
    ∷ (doc, ParserName.legacy_office)
    ∷ (ppt, ParserName.legacy_office)
    ∷ (xls, ParserName.legacy_office)
    ∷ []

build_registry-registered : build_registry ≡ ok registered
unfolding build_registry
build_registry-registered = refl

abbrev Accepted : Text → Type 0
Accepted t = supports registered t ≡ true

all→All : {A : Type 0} (p : A → Bool) (xs : List A) → all p xs ≡ true → All (λ x. p x ≡ true) xs
all→All p [] h = tt
all→All p (x ∷ xs) h = elim (Bool-cases (p x)) [
  | inl e ↦ (e, all→All p xs (rw e at h))
  | inr e ↦ absurd (cc (rw e at h))
]

supported_types-Accepted : All Accepted supported_mime_types
unfolding supports is_space
supported_types-Accepted = all→All (λ t. supports registered t) supported_mime_types refl

extension_map-Accepted : All (λ entry. Accepted entry.1) extension_map
unfolding supports is_space
extension_map-Accepted = all→All (λ entry. supports registered entry.1) extension_map refl

one_of-All :
    (P : Text → Type 0) (types : List Text) (t : Text) → All P types → one_of types t ≡ true → P t
unfolding one_of
one_of-All P [] t h e = cc
one_of-All P (u ∷ types) t h e = elim (Bool-cases (text_eq t u)) [
  | inl y ↦ subst P (sym (text_eq→eq t u y)) h.0
  | inr n ↦ one_of-All P types t h.1 (rw n at e)
]

-- An optional type that is Accepted when there is one.
abbrev AcceptedHint : Option Text → Type 0
AcceptedHint none = Unit
AcceptedHint (some t) = Accepted t

checked-AcceptedHint :
    (name : Text) → AcceptedHint (if one_of supported_mime_types name then some name else none)
checked-AcceptedHint name = elim (Bool-cases (one_of supported_mime_types name)) [
  | inl e ↦ rw e (one_of-All Accepted supported_mime_types name supported_types-Accepted e)
  | inr e ↦ rw e tt
]

normalise-AcceptedHint : (o : Option Text) → AcceptedHint (normalise o)
unfolding normalise one_of
normalise-AcceptedHint none = tt
normalise-AcceptedHint (some []) = tt
normalise-AcceptedHint (some (c ∷ cs)) = checked-AcceptedHint (
    get_or_else (look_up aliases (lower (strip (before_semicolon (c ∷ cs)))))
      (lower (strip (before_semicolon (c ∷ cs)))))

from_table-AcceptedHint :
    (table : List (Text × Text)) (t : Text)
    → All (λ entry. Accepted entry.1) table
    → AcceptedHint (from_table table t)
unfolding from_table
from_table-AcceptedHint [] t h = tt
from_table-AcceptedHint ((ext, mime) ∷ table) t h = elim (Bool-cases (ends_with ext t)) [
  | inl e ↦ rw e h.0
  | inr e ↦ rw e (from_table-AcceptedHint table t h.1)
]

or_option-AcceptedHint :
    (a b : Option Text) → AcceptedHint a → AcceptedHint b → AcceptedHint (or_option a b)
or_option-AcceptedHint none b h k = k
or_option-AcceptedHint (some t) b h k = h

from_extension-AcceptedHint :
    (tools : MimeTools) (filename : Text) → AcceptedHint (from_extension tools filename)
unfolding from_extension
from_extension-AcceptedHint tools filename =
    or_option-AcceptedHint _ _
      (from_table-AcceptedHint extension_map (lower filename) extension_map-Accepted)
      (normalise-AcceptedHint (tools.guess_type filename))

AcceptedResult : Result Unsupported Text → Type 0
AcceptedResult (ok t) = Accepted t
AcceptedResult (err e) = Unit

-- The types that the code names are accepted.
Accepted-type : (t : Text) → one_of supported_mime_types t ≡ true → Accepted t
Accepted-type t e = one_of-All Accepted supported_mime_types t supported_types-Accepted e

named_or-AcceptedHint :
    (b : Bool) (t : Text) (hint : Option Text)
    → Accepted t
    → AcceptedHint hint
    → AcceptedHint (if b then some t else hint)
named_or-AcceptedHint true t hint a h = a
named_or-AcceptedHint false t hint a h = h

family-AcceptedHint :
    (word ppt_folder xl : Bool) (hint : Option Text)
    → AcceptedHint hint
    → AcceptedHint (
        if word
        then some docx
        else if ppt_folder
        then some pptx
        else if xl
        then some xlsx
        else hint)
unfolding one_of
family-AcceptedHint word ppt_folder xl hint h =
    named_or-AcceptedHint word docx _ (Accepted-type docx refl) (
      named_or-AcceptedHint ppt_folder pptx _ (Accepted-type pptx refl)
        (named_or-AcceptedHint xl xlsx hint (Accepted-type xlsx refl) h))

ooxml_type-AcceptedHint :
    (hint : Option Text) (names : Option (List Text))
    → AcceptedHint hint
    → AcceptedHint (ooxml_type hint names)
unfolding ooxml_type
ooxml_type-AcceptedHint hint none h = tt
ooxml_type-AcceptedHint hint (some names) h =
    family-AcceptedHint (holds_folder (codes "word/") names) (holds_folder (codes "ppt/") names)
      (holds_folder (codes "xl/") names) hint h

Accepted-ok : (t : Text) → Accepted t → AcceptedResult (ok t)
unfolding AcceptedResult
Accepted-ok t h = h

refused_ok : (e : Unsupported) → AcceptedResult (err e)
unfolding AcceptedResult
refused_ok e = tt

either-AcceptedResult :
    (b : Bool) (r s : Result Unsupported Text)
    → AcceptedResult r
    → AcceptedResult s
    → AcceptedResult (if b then r else s)
either-AcceptedResult true r s h k = h
either-AcceptedResult false r s h k = k

archive_type-AcceptedResult : (o : Option Text) → AcceptedHint o → AcceptedResult (archive_type o)
unfolding AcceptedResult
archive_type-AcceptedResult none h = tt
archive_type-AcceptedResult (some t) h = h

trust-AcceptedResult :
    (types : List Text) (hint : Option Text) (outcome : Result Unsupported Text)
    → AcceptedHint hint
    → AcceptedResult outcome
    → AcceptedResult (trust types hint outcome)
unfolding AcceptedResult
trust-AcceptedResult types none outcome h k = k
trust-AcceptedResult types (some t) outcome h k =
    either-AcceptedResult (one_of types t) (ok t) outcome (Accepted-ok t h) k

detect_with-AcceptedResult :
    (tools : MimeTools) (bytes : List ℕ) (hint : Option Text)
    → AcceptedHint hint
    → AcceptedResult (detect_with tools bytes hint)
unfolding detect_with one_of sniff_ooxml
detect_with-AcceptedResult tools bytes hint h =
    either-AcceptedResult _ _ _ (Accepted-ok pdf (Accepted-type pdf refl)) (
      either-AcceptedResult _ _ _
        (archive_type-AcceptedResult _ (ooxml_type-AcceptedHint hint (tools.zip_names bytes) h))
        (either-AcceptedResult _ _ _
          (trust-AcceptedResult (doc ∷ ppt ∷ xls ∷ []) hint _ h (refused_ok _))
          (either-AcceptedResult _ _ _ (Accepted-ok html (Accepted-type html refl)) (
            either-AcceptedResult _ _ _
              (trust-AcceptedResult (csv ∷ md ∷ txt ∷ html ∷ []) hint _ h
                (Accepted-ok txt (Accepted-type txt refl)))
              (refused_ok _)))))

Accepted-of_result :
    (r : Result Unsupported Text) (t : Text) → AcceptedResult r → r ≡ ok t → Accepted t
unfolding AcceptedResult
Accepted-of_result r t h e = subst AcceptedResult e h

-- The registry of parsers can be built, no type having two parsers, and it has a parser for every
-- type that detection returns, whatever the bytes, the file name and the declared type are, and
-- whatever the standard library answers on archives and on file names.
pub detect_mime-supports :
    (tools : MimeTools) (bytes : List ℕ) (filename : Text) (declared : Option Text) (t : Text)
    → detect_mime tools bytes filename declared ≡ ok t
    → (parsers : Parsers) × (build_registry ≡ ok parsers) × (supports parsers t ≡ true)
unfolding detect_mime
detect_mime-supports tools bytes filename declared t e = (
  registered,
  build_registry-registered,
  Accepted-of_result _ t
      (detect_with-AcceptedResult tools bytes _ (
        or_option-AcceptedHint _ _ (normalise-AcceptedHint declared)
          (from_extension-AcceptedHint tools filename)))
      e,
)
