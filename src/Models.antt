-- ===== src/Models.antt =====
-- The rows of the database and the values passed between the stages: app/models/*.py and
-- app/interfaces/types.py. A UUID and a time are numbers; a JSON object with known keys is a
-- record of optional fields; a vector is the list of its components, as numbers of the provider.
use doc_chat_platform.Base.{ℕ, Bool, true, false, Option, none, List}
use doc_chat_platform.Text.{Text}

pub data DocumentStatus : Type 0 where
  pending parsing profiling chunking embedding ready failed : DocumentStatus

pub data JobStatus : Type 0 where
  pending running succeeded failed : JobStatus

pub data BlockKind : Type 0 where
  heading text list table code image slide_notes : BlockKind

pub record Block : Type 0 where
  pub kind : BlockKind
  pub text : Text
  pub section_path : List Text
  pub level : Option ℕ
  pub page : Option ℕ
  pub slide_index : Option ℕ
  pub table_header : Option Text
  pub atomic : Bool

pub record ParsedDocument : Type 0 where
  pub markdown : Text
  pub blocks : List Block
  pub page_count : Option ℕ

pub record DocumentProfile : Type 0 where
  pub document_type : Text
  pub summary : Text
  pub topics : List Text
  pub entities : List Text

-- The tags copied onto each chunk.
pub record Tags : Type 0 where
  pub document_type : Text
  pub topics : List Text
  pub entities : List Text

pub record ChunkDraft : Type 0 where
  pub ordinal : ℕ
  pub content : Text
  pub section_path : List Text
  pub contextual_header : Option Text
  pub token_count : ℕ
  pub page : Option ℕ
  pub slide_index : Option ℕ

-- A row of `chunks`; `embedding` is NULL until its batch is committed.
pub record Chunk : Type 0 where
  pub id : ℕ
  pub document_id : ℕ
  pub workspace_id : ℕ
  pub ordinal : ℕ
  pub content : Text
  pub contextual_header : Option Text
  pub section_path : List Text
  pub tags : Tags
  pub token_count : ℕ
  pub embedding : Option (List ℕ)

pub record Document : Type 0 where
  pub id : ℕ
  pub workspace_id : ℕ
  pub filename : Text
  pub mime_type : Text
  pub file_hash : Text
  pub size_bytes : ℕ
  pub version_label : Text
  pub status : DocumentStatus
  pub error_message : Option Text
  pub page_count : Option ℕ
  pub profile : Option DocumentProfile
  pub storage_key : Option ℕ
  pub indexed_at : Option ℕ
  pub created_at : ℕ

-- A row of `document_files`.
pub record DocumentFile : Type 0 where
  pub document_id : ℕ
  pub workspace_id : ℕ
  pub filename : Text
  pub content : List ℕ

-- `ingest_jobs.checkpoint`; the empty object has no field.
pub record Checkpoint : Type 0 where
  pub chunks_written : Option ℕ
  pub embedded : Option ℕ
  pub embed_total : Option ℕ

abbrev pub empty_checkpoint : Checkpoint
empty_checkpoint = record { chunks_written = none; embedded = none; embed_total = none }

pub record IngestJob : Type 0 where
  pub id : ℕ
  pub workspace_id : ℕ
  pub document_id : ℕ
  pub status : JobStatus
  pub stage : DocumentStatus
  pub progress_pct : ℕ
  pub error_message : Option Text
  pub checkpoint : Checkpoint
  pub attempts : ℕ
  pub heartbeat_at : Option ℕ
  pub started_at : Option ℕ
  pub finished_at : Option ℕ
  pub created_at : ℕ

-- The tests `status == JobStatus.PENDING` and the like.
unfoldable pub is_pending : JobStatus → Bool
is_pending JobStatus.pending = true
is_pending _ = false

unfoldable pub is_running : JobStatus → Bool
is_running JobStatus.running = true
is_running _ = false

unfoldable pub is_failed : JobStatus → Bool
is_failed JobStatus.failed = true
is_failed _ = false

unfoldable pub is_ready : DocumentStatus → Bool
is_ready DocumentStatus.ready = true
is_ready _ = false
