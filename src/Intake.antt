-- ===== src/Intake.antt =====
-- app/pipeline/intake.py: an upload is validated, deduplicated, versioned and queued; and the
-- writes of app/implementations/postgres_file_store.py. The session of the request is committed
-- when the route returns and rolled back when it raises: an error leaves the database as it was.
pub mod Outcomes
pub mod Hashes
use doc_chat_platform.FileStore.{put_file}
use doc_chat_platform.Mime.Registry.{Parsers, supports}
use doc_chat_platform.Mime.{MimeTools, detect_mime, unsupported}
use doc_chat_platform.Queue.{enqueue, new_job}
use doc_chat_platform.VectorStore.{delete_by_document}
use doc_chat_platform.Database.{Database}
use doc_chat_platform.Sql.{
  find_where, delete_where, scalar_one_or_none, update_where, select_where, TooMany,
}
use doc_chat_platform.Models.{DocumentFile, Document, IngestJob, is_ready, DocumentStatus}
use doc_chat_platform.Text.{int_from, digit_value, text_eq, decimal, Text, codes}
use doc_chat_platform.Base.{
  [], none, some, true, false, ok, err, Bool, List, Option, ℕ, ◌==◌, not, if◌then◌else◌, length,
  Result, any, ◌∷◌, Exec, ◌++◌, ◌&&◌, is_some, ◌+◌, ◌>>=◌, lift, ltb, is_empty,
}

-- `int(current[1:]) + 1` after a `v`, when what follows it are digits (`str.isdigit`; of the
-- digits that are no decimal digits, such as superscripts, `int` raises, and labels have none).
unfoldable pub all_digits : Text → Bool
unfolding digit_value
all_digits [] = false
all_digits (c ∷ []) = is_some (digit_value c)
all_digits (c ∷ d ∷ cs) = is_some (digit_value c) && all_digits (d ∷ cs)

unfoldable pub next_version : Text → Text
unfolding all_digits int_from decimal
next_version [] = codes "v2"
next_version (c ∷ digits) =
    if c == b'v' && all_digits digits then b'v' ∷ decimal (int_from 0 digits + 1) else codes "v2"

pub data IntakeError : Type 0 where
  upload_too_large : ℕ → ℕ → IntakeError
  empty_upload : Text → IntakeError
  unsupported_file_type : Text → IntakeError
  several_rows : IntakeError

pub record IntakeResult : Type 0 where
  pub document : Document
  pub job : Option IngestJob
  pub deduplicated : Bool
  pub superseded : Bool

-- The bytes of an upload with what the request says of them, and what `detect_mime` and `sha256`
-- make of them.
pub record Upload : Type 0 where
  pub workspace_id : ℕ
  pub filename : Text
  pub content : List ℕ
  pub mime_type : Text
  pub file_hash : Text

abbrev pub has_document_id : ℕ → Document → Bool
has_document_id i document = document.id == i

unfoldable pub same_hash : ℕ → Text → Document → Bool
unfolding text_eq
same_hash workspace_id file_hash document =
    document.workspace_id == workspace_id && text_eq document.file_hash file_hash

unfoldable pub same_filename : ℕ → Text → Document → Bool
unfolding text_eq
same_filename workspace_id filename document =
    document.workspace_id == workspace_id && text_eq document.filename filename

abbrev pub succeed : IntakeResult × Database → Result IntakeError IntakeResult × Database
succeed (r, db) = (ok r, db)

-- `document.storage_key = stored.key`, the document's id
abbrev pub set_key : Document → Document
set_key document = record document { storage_key = some document.id }

module _ (upload : Upload) where
  -- The row of a new document; its id is uuid4().
  unfoldable pub new_document : ℕ → ℕ → Document
  new_document document_id now = record {
    id = document_id;
    workspace_id = upload.workspace_id;
    filename = upload.filename;
    mime_type = upload.mime_type;
    file_hash = upload.file_hash;
    size_bytes = length upload.content;
    version_label = codes "v1";
    status = DocumentStatus.pending;
    error_message = none;
    page_count = none;
    profile = none;
    storage_key = none;
    indexed_at = none;
    created_at = now;
  }

  -- `existing.file_hash != file_hash`
  unfoldable pub is_superseded : Document → Bool
  unfolding text_eq
  is_superseded existing = not (text_eq existing.file_hash upload.file_hash)

  -- The assignments to an existing row.
  unfoldable pub renew : Document → Document
  unfolding is_superseded next_version
  renew existing = record existing {
    version_label =
        if is_superseded existing
        then next_version existing.version_label
        else existing.version_label;
    file_hash = upload.file_hash;
    mime_type = upload.mime_type;
    size_bytes = length upload.content;
    filename = upload.filename;
    status = DocumentStatus.pending;
    error_message = none;
    page_count = none;
    indexed_at = none;
  }

  abbrev pub stored_file : ℕ → DocumentFile
  stored_file id = record {
    document_id = id;
    workspace_id = upload.workspace_id;
    filename = upload.filename;
    content = upload.content;
  }

module _ (document_id job_id : ℕ) (upload : Upload) where
  -- The end of an intake that is queued: the bytes are stored and a job is appended.
  unfoldable pub store_and_enqueue : Document → Bool → Database → IntakeResult × Database
  unfolding put_file enqueue new_job
  store_and_enqueue document superseded db = (
    record {
      document = set_key document;
      job = some (new_job job_id db.clock upload.workspace_id document.id);
      deduplicated = false;
      superseded = superseded;
    },
    record db {
      documents = update_where (has_document_id document.id) set_key db.documents;
      files = put_file (stored_file upload document.id) db.files;
      jobs = enqueue job_id db.clock upload.workspace_id document.id db.jobs;
    },
  )

  unfoldable pub resubmit : Document → Database → IntakeResult × Database
  unfolding renew delete_by_document store_and_enqueue is_superseded
  resubmit existing db =
      store_and_enqueue (renew upload existing) (is_superseded upload existing) (record db {
        documents = update_where (has_document_id existing.id) (renew upload) db.documents;
        chunks = delete_by_document upload.workspace_id existing.id db.chunks;
      })

  unfoldable pub insert_new : Database → IntakeResult × Database
  unfolding new_document store_and_enqueue
  insert_new db =
      store_and_enqueue (new_document upload document_id db.clock) false
        (record db { documents = db.documents ++ new_document upload document_id db.clock ∷ [] })

  -- No document has these bytes: one with this name is replaced, or the document is new.
  unfoldable pub by_filename :
      Result TooMany (Option Document) → Exec IntakeError Database IntakeResult
  unfolding resubmit insert_new
  by_filename (err e) db = (err several_rows, db)
  by_filename (ok (some existing)) db = succeed (resubmit existing db)
  by_filename (ok none) db = succeed (insert_new db)

  -- What the search for a document with the same bytes leads to.
  unfoldable pub by_hash : Result TooMany (Option Document) → Exec IntakeError Database IntakeResult
  unfolding same_filename is_ready resubmit by_filename
  by_hash (err e) db = (err several_rows, db)
  by_hash (ok (some identical)) db =
      if is_ready identical.status
      then (
        ok (record { document = identical; job = none; deduplicated = true; superseded = false }),
        db,
      )
      else succeed (resubmit identical db)
  by_hash (ok none) db =
      by_filename
        (scalar_one_or_none
          (select_where (same_filename upload.workspace_id upload.filename) db.documents))
        db

  -- What `intake_upload` does with a file that has passed validation.
  unfoldable pub admit : Exec IntakeError Database IntakeResult
  unfolding same_hash by_hash
  admit db =
      by_hash
        (scalar_one_or_none
          (select_where (same_hash upload.workspace_id upload.file_hash) db.documents))
        db

-- `hashlib.sha256(data).hexdigest()`, the standard library's answers on types, and the registry.
module _ (sha256 : List ℕ → Text) (tools : MimeTools) (parsers : Parsers) where
  unfoldable pub validate : ℕ → Text → List ℕ → Option Text → ℕ → Result IntakeError Upload
  unfolding detect_mime supports
  validate workspace_id filename bytes declared max_upload_bytes =
      if ltb max_upload_bytes (length bytes)
      then err (upload_too_large (length bytes) max_upload_bytes)
      else if is_empty bytes
      then err (empty_upload filename)
      else elim (detect_mime tools bytes filename declared) as (λ _. Result IntakeError Upload) [
        | err (unsupported t) ↦ err (unsupported_file_type t)
        | ok t ↦
            if supports parsers t
            then ok (record {
              workspace_id = workspace_id;
              filename = filename;
              content = bytes;
              mime_type = t;
              file_hash = sha256 bytes;
            })
            else err (unsupported_file_type t)
      ]

  unfoldable pub intake_upload :
      ℕ → ℕ → ℕ → Text → List ℕ → Option Text → ℕ → Exec IntakeError Database IntakeResult
  unfolding validate admit
  intake_upload document_id job_id workspace_id filename bytes declared max_upload_bytes = do
    upload ← lift (validate workspace_id filename bytes declared max_upload_bytes)
    admit document_id job_id upload
