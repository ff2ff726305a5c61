-- ===== src/Ingest.antt =====
-- app/pipeline/ingest.py: one ingestion job, stage by stage, and the queueing of a workspace.
pub mod Stages
pub mod Readiness
pub mod Resuming
pub mod Attempts
pub mod Untouched
pub mod Completing
pub mod Success
use doc_chat_platform.FileStore.{get_file}
use doc_chat_platform.Sql.{select_where, update_where}
use doc_chat_platform.Database.{Database, Error}
use doc_chat_platform.Text.{Text, codes}
use doc_chat_platform.Tokens.{Tools}
use doc_chat_platform.Embedding.{embed_document, Embedder}
use doc_chat_platform.Chunking.{chunk_blocks, ChunkingConfig}
use doc_chat_platform.Queue.{update_progress, enqueue}
use doc_chat_platform.Contextualise.{contextualise, contextualise_chunks}
use doc_chat_platform.Models.{
  DocumentStatus, IngestJob, Document, Checkpoint, ParsedDocument, DocumentProfile, Block,
  ChunkDraft,
}
use doc_chat_platform.Persist.{
  set_document_status, load_document, replace_chunks, store_document_profile,
}
use doc_chat_platform.Base.{
  [], none, some, true, false, ok, err, Bool, List, Option, ℕ, Result, ◌∷◌, Exec, get_or_else, ◌==◌,
  raise, ◌>>=◌, if◌then◌else◌, ◌>>◌, ◌+◌, pure, is_empty, modify, lift, ◌*◌, length, ◌/◌, ◌++◌,
}

-- What a run calls that is not modelled: the parser of a document's type on its bytes, the LLM's
-- profile of a document (empty when the call fails), its descriptions of sections or of chunks,
-- the embedding provider and uuid4().
pub record Services : Type 0 where
  pub tools : Tools
  pub parse : Document → List ℕ → Result Text ParsedDocument
  pub profile : Document → List Block → DocumentProfile
  pub described : Document → DocumentProfile → List ChunkDraft → Text → Text
  pub described_chunks : Document → List ChunkDraft → ℕ → Text
  pub embedder : Embedder
  pub new_id : ℕ → ℕ

pub record Settings : Type 0 where
  pub config : ChunkingConfig
  pub per_chunk : Bool
  pub embed_batch_size : ℕ

-- `_STAGE_PROGRESS.get(stage)`
unfoldable pub stage_progress : DocumentStatus → Option ℕ
stage_progress DocumentStatus.parsing = some 10
stage_progress DocumentStatus.profiling = some 25
stage_progress DocumentStatus.chunking = some 40
stage_progress DocumentStatus.embedding = some 50
stage_progress DocumentStatus.pending = none
stage_progress DocumentStatus.ready = none
stage_progress DocumentStatus.failed = none

abbrev pub record_progress :
    IngestJob → Option DocumentStatus → Option ℕ → Checkpoint → Database → Database
record_progress job stage progress_pct checkpoint db = record db {
  jobs = update_progress db.clock job.id stage progress_pct (some checkpoint) db.jobs;
}

-- `_advance`: two transactions, which only update rows
unfoldable pub advance : IngestJob → DocumentStatus → Checkpoint → Exec Error Database Unit
unfolding stage_progress update_progress set_document_status
advance job stage checkpoint = do
  modify (record_progress job (some stage) (stage_progress stage) checkpoint)
  modify (set_document_status job.document_id stage none none false)

abbrev pub no_text : Text → Text
no_text filename =
    codes "No text could be extracted from '"
    ++ (filename
        ++ codes "'. If it is a scanned document, run the OCR-capable parser (PARSER=docling).")

abbrev pub no_chunks : Text → Text
no_chunks filename = b'\'' ∷ filename ++ codes "' produced no chunks."

abbrev pub stored_content : Option (List ℕ) → Result Error (List ℕ)
stored_content none = err Error.file_not_found
stored_content (some content) = ok content

-- `document.storage_key or str(document.id)`
abbrev pub key_of : Document → ℕ
key_of document = get_or_else document.storage_key document.id

abbrev pub parse_result : Text → Result Text ParsedDocument → Result Error ParsedDocument
parse_result filename (err e) = err (Error.ingest_error e)
parse_result filename (ok parsed) =
    if is_empty parsed.blocks then err (Error.ingest_error (no_text filename)) else ok parsed

module _ (services : Services) where
  -- `_materialise` and `_parse`; the temporary file holds the bytes only while they are parsed.
  unfoldable pub parse_document : Document → Exec Error Database ParsedDocument
  unfolding get_file
  parse_document document = do
    content ← (λ (db : Database).
        (stored_content (get_file document.workspace_id (key_of document) db.files), db))
    lift (parse_result document.filename (services.parse document content))

  module _ (settings : Settings) where
    -- The headers, by the setting CONTEXT_DESCRIPTIONS.
    unfoldable pub with_headers : Document → DocumentProfile → List ChunkDraft → List ChunkDraft
    unfolding contextualise contextualise_chunks
    with_headers document profile drafts =
        if settings.per_chunk
        then contextualise_chunks (services.described_chunks document drafts) document.filename
            drafts
        else contextualise (services.described document profile drafts) document.filename drafts

    -- `_chunk_and_store`
    unfoldable pub chunk_and_store : Document → List Block → DocumentProfile → Exec Error Database ℕ
    unfolding chunk_blocks with_headers replace_chunks
    chunk_and_store document blocks profile =
        let drafts = chunk_blocks services.tools settings.config blocks in
        if is_empty drafts
        then raise (Error.ingest_error (no_chunks document.filename))
        else replace_chunks services.new_id document.workspace_id document.id
            (with_headers document profile drafts) profile

    abbrev pub record_pages : Document → Option ℕ → Database → Database
    record_pages document none db = db
    record_pages document (some n) db =
        set_document_status document.id DocumentStatus.parsing none (some n) false db

    -- The stages up to the chunks, which a resumed job skips; the last of them.
    unfoldable pub write_stage :
        IngestJob → Document → List Block → DocumentProfile → Exec Error Database ℕ
    unfolding advance chunk_and_store
    write_stage job document blocks profile =
        advance job DocumentStatus.chunking job.checkpoint
        >> chunk_and_store document blocks profile

    unfoldable pub profile_stage : IngestJob → Document → ParsedDocument → Exec Error Database ℕ
    unfolding advance set_document_status store_document_profile write_stage
    profile_stage job document parsed = do
      modify (record_pages document parsed.page_count)
      advance job DocumentStatus.profiling job.checkpoint
      store_document_profile document.workspace_id document.id
          (services.profile document parsed.blocks)
      write_stage job document parsed.blocks (services.profile document parsed.blocks)

    unfoldable pub rebuild : IngestJob → Document → Exec Error Database ℕ
    unfolding advance parse_document profile_stage
    rebuild job document = do
      advance job DocumentStatus.parsing job.checkpoint
      parsed ← parse_document document
      profile_stage job document parsed

    -- `int(checkpoint.get("chunks_written") or 0)`
    abbrev pub written_before : IngestJob → ℕ
    written_before job = get_or_else job.checkpoint.chunks_written 0

    -- The checkpoint with the count, when the chunks were rebuilt, or as it was.
    unfoldable pub chunk_stage : IngestJob → Document → Exec Error Database Checkpoint
    unfolding rebuild
    chunk_stage job document =
        if written_before job == 0
        then (do n ← rebuild job document; pure (record job.checkpoint { chunks_written = some n }))
        else pure job.checkpoint

    -- The callback of the embedding stage: 50 percent and the share of the rest. The quotient of
    -- floats is exact to the integer below for counts of chunks below 2^40.
    unfoldable pub on_progress : IngestJob → Checkpoint → ℕ → ℕ → Database → Database
    unfolding update_progress
    on_progress job checkpoint done total db =
        record_progress job none (some (50 + 50 * done / total))
          (record checkpoint { embedded = some done; embed_total = some total }) db

    unfoldable pub embed_stage : IngestJob → Document → Checkpoint → Exec Error Database Unit
    unfolding embed_document on_progress set_document_status
    embed_stage job document checkpoint = do
      _ ←
          embed_document services.embedder (on_progress job checkpoint) document.workspace_id
            document.id settings.embed_batch_size
      modify (set_document_status document.id DocumentStatus.ready none none true)

    unfoldable pub run_document : Bool → IngestJob → Document → Exec Error Database Unit
    unfolding chunk_stage advance embed_stage
    run_document embed job document = do
      checkpoint ← chunk_stage job document
      advance job DocumentStatus.embedding checkpoint
      if embed then embed_stage job document checkpoint else pure tt

    -- A document that is gone is an error; the message names its id.
    unfoldable pub run_found : Bool → IngestJob → Option Document → Exec Error Database Unit
    unfolding run_document
    run_found embed job none = raise (Error.ingest_error (codes "The document no longer exists"))
    run_found embed job (some document) = run_document embed job document

    unfoldable pub run_job : Bool → IngestJob → Exec Error Database Unit
    unfolding load_document run_found
    run_job embed job = do document ← load_document job.document_id; run_found embed job document

-- The assignments of `requeue_workspace` to a document.
abbrev pub requeued : Document → Document
requeued document = record document {
  status = DocumentStatus.pending;
  error_message = none;
  indexed_at = none;
}

-- A job for each document; the nth has the nth of the new ids.
unfoldable pub enqueue_all : (ℕ → ℕ) → ℕ → ℕ → ℕ → List Document → List IngestJob → List IngestJob
unfolding enqueue
enqueue_all new_id n now workspace_id [] jobs = jobs
enqueue_all new_id n now workspace_id (d ∷ documents) jobs =
    enqueue_all new_id (n + 1) now workspace_id documents
      (enqueue (new_id n) now workspace_id d.id jobs)

abbrev pub in_workspace : ℕ → Document → Bool
in_workspace workspace_id document = document.workspace_id == workspace_id

unfoldable pub requeue_workspace : (ℕ → ℕ) → ℕ → Database → ℕ × Database
unfolding enqueue_all
requeue_workspace new_id workspace_id db =
    let documents = select_where (in_workspace workspace_id) db.documents in
    (
      length documents,
      record db {
        documents = update_where (in_workspace workspace_id) requeued db.documents;
        jobs = enqueue_all new_id 0 db.clock workspace_id documents db.jobs;
      },
    )
