-- ===== src/Examples/Uploads.antt =====
-- Uploads: a new document, a new version of one, and detection of a type.
use doc_chat_platform.Mime.Detection.{detect_mime-supports}
use doc_chat_platform.Examples.{sample_database}
use doc_chat_platform.Intake.Outcomes.{Outcome, admit-Outcome}
use doc_chat_platform.VectorStore.{belongs}
use doc_chat_platform.Text.{starts_with, Text, codes}
use doc_chat_platform.Mime.Registry.{Parsers, build_registry, supports}
use doc_chat_platform.Mime.{detect_mime, MimeTools, pdf}
use doc_chat_platform.Sql.{count_where}
use doc_chat_platform.Intake.Hashes.{OnePerHash, intake_upload-OnePerHash}
use doc_chat_platform.Intake.{Upload, intake_upload, admit}
use doc_chat_platform.Base.{[], none, true, refl, arith, ok, List, ℕ, ◌∷◌, ◌≡◌}

abbrev sha256 : List ℕ → Text
sha256 bytes = bytes

abbrev tools : MimeTools
tools = record { zip_names = λ bytes. none; guess_type = λ name. none }

abbrev upload : Upload
upload = record {
  workspace_id = 1;
  filename = codes "guide.txt";
  content = 104 ∷ 105 ∷ [];
  mime_type = codes "text/plain";
  file_hash = codes "h2";
}

-- A new version of the document of the same name.
admit-Outcome_example : Outcome upload sample_database (admit 4 9 upload sample_database)
unfolding count_where belongs
admit-Outcome_example = admit-Outcome 4 9 upload sample_database refl

documents-OnePerHash : OnePerHash sample_database.documents
unfolding count_where
documents-OnePerHash = record { apart = (tt, tt); single = λ w h. ground arith }

intake_upload-OnePerHash_example :
    OnePerHash
      (intake_upload sha256 tools [] 4 9 1
        (codes "guide.txt")
        (104 ∷ 105 ∷ [])
        none
        1000
        sample_database).1.documents
intake_upload-OnePerHash_example =
    intake_upload-OnePerHash sha256 tools [] 4 9 1 (codes "guide.txt") (104 ∷ 105 ∷ []) none 1000
      sample_database ((λ e. absurd (omega (arith, e))), tt) documents-OnePerHash

pdf_bytes : detect_mime tools (codes "%PDF-1.7") (codes "guide.pdf") none ≡ ok pdf
unfolding detect_mime starts_with
pdf_bytes = refl

detect_mime-supports_example :
    (parsers : Parsers) × (build_registry ≡ ok parsers) × (supports parsers pdf ≡ true)
detect_mime-supports_example =
    detect_mime-supports tools (codes "%PDF-1.7") (codes "guide.pdf") none pdf pdf_bytes
