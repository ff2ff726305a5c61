-- ===== src/Ingest/Untouched.antt =====
-- The stages of a run, and the run as a whole, leave the attempts of every job as they are.
use doc_chat_platform.Chunking.{chunk_blocks}
use doc_chat_platform.Sql.{TooMany}
use doc_chat_platform.FileStore.{get_file}
use doc_chat_platform.Embedding.{embed_document}
use doc_chat_platform.Database.{Database, Workspace, Error}
use doc_chat_platform.Ingest.Attempts.{
  Quiet, Quiet-bind, attempts_of, Quiet-if, embed_document-Quiet, record_progress-Quiet,
  advance-Quiet,
}
use doc_chat_platform.Persist.{
  set_document_status, load_document, store_document_profile, fold_profile, replace_chunks,
}
use doc_chat_platform.Models.{
  IngestJob, Document, Checkpoint, DocumentProfile, ParsedDocument, Block, DocumentStatus,
}
use doc_chat_platform.Ingest.{
  Services, Settings, run_found, run_job, embed_stage, rebuild, parse_document, run_document,
  chunk_and_store, chunk_stage, profile_stage, on_progress, write_stage, advance, stored_content,
  written_before, record_pages, key_of, parse_result,
}
use doc_chat_platform.Base.{
  none, some, true, refl, ok, err, Bool, List, Option, ℕ, pure, Result, if◌then◌else◌, modify,
  if_ind, Exec, ◌≡◌, ◌>>◌, ◌>>=◌, ◌==◌, lift, ◌+◌, is_empty, ◌*◌, ◌/◌,
}

module _ (i : ℕ) where
  module _ (services : Services) (settings : Settings) (job : IngestJob) (document : Document) where
    fold_profile-Quiet :
        (profile : DocumentProfile) (found : Result TooMany (Option Workspace)) (db : Database)
        → attempts_of i (fold_profile document.id profile found db).1.jobs ≡ attempts_of i db.jobs
    unfolding fold_profile
    fold_profile-Quiet profile (err e) db = refl
    fold_profile-Quiet profile (ok none) db = refl
    fold_profile-Quiet profile (ok (some workspace)) db = refl

    store_document_profile-Quiet :
        (profile : DocumentProfile)
        → Quiet i (store_document_profile document.workspace_id document.id profile)
    unfolding store_document_profile
    store_document_profile-Quiet profile db = fold_profile-Quiet profile _ db

    chunk_and_store-Quiet :
        (blocks : List Block) (profile : DocumentProfile)
        → Quiet i (chunk_and_store services settings document blocks profile)
    unfolding chunk_and_store replace_chunks
    chunk_and_store-Quiet blocks profile db =
        if_ind (λ (m : Exec Error Database ℕ). attempts_of i (m db).1.jobs ≡ attempts_of i db.jobs)
          (is_empty (chunk_blocks services.tools settings.config blocks)) (λ _. refl) (λ _. refl)

    parse_document-Quiet : Quiet i (parse_document services document)
    unfolding parse_document
    parse_document-Quiet =
        Quiet-bind i
          (λ d. (stored_content (get_file document.workspace_id (key_of document) d.files), d))
          (λ content. lift (parse_result document.filename (services.parse document content)))
          (λ db. refl) (λ content db. refl)

    pages-Quiet :
        (pages : Option ℕ) (db : Database)
        → attempts_of i (record_pages services settings document pages db).jobs
          ≡ attempts_of i db.jobs
    unfolding set_document_status
    pages-Quiet none db = refl
    pages-Quiet (some n) db = refl

    profile_stage-Quiet :
        (parsed : ParsedDocument) → Quiet i (profile_stage services settings job document parsed)
    unfolding profile_stage write_stage
    profile_stage-Quiet parsed =
        let profile = services.profile document parsed.blocks in
        let write = write_stage services settings job document parsed.blocks profile in
        let store = store_document_profile document.workspace_id document.id profile in
        Quiet-bind i (modify (record_pages services settings document parsed.page_count))
          (λ _. advance job DocumentStatus.profiling job.checkpoint >> (store >> write))
          (pages-Quiet parsed.page_count)
          (λ _.
            Quiet-bind i (advance job DocumentStatus.profiling job.checkpoint) (λ _. store >> write)
              (advance-Quiet i job DocumentStatus.profiling job.checkpoint)
              (λ _.
                Quiet-bind i store (λ _. write) (store_document_profile-Quiet profile)
                  (λ _.
                    Quiet-bind i (advance job DocumentStatus.chunking job.checkpoint)
                      (λ _. chunk_and_store services settings document parsed.blocks profile)
                      (advance-Quiet i job DocumentStatus.chunking job.checkpoint)
                      (λ _. chunk_and_store-Quiet parsed.blocks profile))))

    rebuild-Quiet : Quiet i (rebuild services settings job document)
    unfolding rebuild
    rebuild-Quiet =
        Quiet-bind i (advance job DocumentStatus.parsing job.checkpoint)
          (λ _. parse_document services document >>= profile_stage services settings job document)
          (advance-Quiet i job DocumentStatus.parsing job.checkpoint)
          (λ _.
            Quiet-bind i (parse_document services document)
              (profile_stage services settings job document) parse_document-Quiet
              profile_stage-Quiet)

    chunk_stage-Quiet : Quiet i (chunk_stage services settings job document)
    unfolding chunk_stage
    chunk_stage-Quiet =
        let record_count = λ (n : ℕ). pure (record job.checkpoint { chunks_written = some n }) in
        Quiet-if i (written_before services settings job == 0)
          (rebuild services settings job document >>= record_count) (pure job.checkpoint)
          (Quiet-bind i (rebuild services settings job document) record_count rebuild-Quiet
            (λ n db. refl))
          (λ db. refl)

    embed_stage-Quiet :
        (checkpoint : Checkpoint) → Quiet i (embed_stage services settings job document checkpoint)
    unfolding embed_stage set_document_status on_progress
    embed_stage-Quiet checkpoint =
        Quiet-bind i
          (embed_document services.embedder (on_progress services settings job checkpoint)
            document.workspace_id document.id settings.embed_batch_size)
          (λ _. modify (set_document_status document.id DocumentStatus.ready none none true))
          (embed_document-Quiet i services.embedder (on_progress services settings job checkpoint)
            document.workspace_id document.id settings.embed_batch_size
            (λ n t db.
              record_progress-Quiet i job none (some (50 + 50 * n / t))
                (record checkpoint { embedded = some n; embed_total = some t }) db))
          (λ n db. refl)

    pub run_document-Quiet :
        (embed : Bool) → Quiet i (run_document services settings embed job document)
    unfolding run_document
    run_document-Quiet embed =
        let last = λ (checkpoint : Checkpoint).
          if embed then embed_stage services settings job document checkpoint else pure tt in
        Quiet-bind i (chunk_stage services settings job document)
          (λ checkpoint. advance job DocumentStatus.embedding checkpoint >> last checkpoint)
          chunk_stage-Quiet
          (λ checkpoint.
            Quiet-bind i (advance job DocumentStatus.embedding checkpoint) (λ _. last checkpoint)
              (advance-Quiet i job DocumentStatus.embedding checkpoint)
              (λ _.
                Quiet-if i embed (embed_stage services settings job document checkpoint) (pure tt)
                  (embed_stage-Quiet checkpoint) (λ db. refl)))

  module _ (services : Services) (settings : Settings) (embed : Bool) (job : IngestJob) where
    run_found-Quiet :
        (found : Option Document) → Quiet i (run_found services settings embed job found)
    unfolding run_found
    run_found-Quiet none db = refl
    run_found-Quiet (some document) db = run_document-Quiet services settings job document embed db

    -- A run of any job, with embedding or without and however it ends, leaves the number of
    -- attempts of every job as it was, by its id.
    pub run_job-Quiet : Quiet i (run_job services settings embed job)
    unfolding run_job load_document
    run_job-Quiet =
        Quiet-bind i (load_document job.document_id) (run_found services settings embed job)
          (λ db. refl) run_found-Quiet
