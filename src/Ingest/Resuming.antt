-- ===== src/Ingest/Resuming.antt =====
-- A job that has written its chunks resumes at the embedding stage: what was written is kept.
use doc_chat_platform.Sql.{scalar_one_or_none, select_where, TooMany}
use doc_chat_platform.Embedding.Progress.{embed_document_lem}
use doc_chat_platform.Embedding.{embed_document}
use doc_chat_platform.Embedding.Batches.{DistinctIds}
use doc_chat_platform.Embedding.Growth.{Grown, Grown-refl}
use doc_chat_platform.Persist.{set_document_status, load_document, document_has_id, row_result}
use doc_chat_platform.Database.{Database, Error}
use doc_chat_platform.Models.{IngestJob, Document, Checkpoint, DocumentStatus}
use doc_chat_platform.Ingest.{
  Services, Settings, embed_stage, run_document, chunk_stage, on_progress, advance, written_before,
  run_job, run_found, record_progress,
}
use mathlib.Core.Path.{subst}
use doc_chat_platform.Base.{
  none, true, refl, ok, err, Bool, ◌<◌, Result, ℕ, continue, ◌≢◌, modify, some, false, Option, ◌≡◌,
  if◌then◌else◌, ◌>>◌, pure, if_ind, Exec, sym, ◌==◌, ==_iff,
}

module _ (services : Services) (settings : Settings) (some_size : 0 < settings.embed_batch_size)
    (job : IngestJob) (document : Document) where
  abbrev Kept : Database → {A : Type 0} → Result Error A × Database → Type 0
  Kept before r = Grown document.workspace_id document.id before.chunks r.1.chunks

  embedded-Kept :
      (before : Database) (r : Result Error ℕ × Database)
      → Kept before r
      → Kept before (
          continue r.0
            (λ _. modify (set_document_status document.id DocumentStatus.ready none none true))
            r.1)
  unfolding set_document_status
  embedded-Kept before (ok n, db) h = h
  embedded-Kept before (err e, db) h = h

  embed_stage-Kept :
      (checkpoint : Checkpoint) (db : Database)
      → DistinctIds db.chunks
      → Kept db (embed_stage services settings job document checkpoint db)
  unfolding embed_stage on_progress
  embed_stage-Kept checkpoint db d =
      embedded-Kept db
        (embed_document services.embedder (on_progress services settings job checkpoint)
          document.workspace_id document.id settings.embed_batch_size db)
        (embed_document_lem services.embedder (on_progress services settings job checkpoint)
          document.workspace_id document.id settings.embed_batch_size (λ n t d'. refl) some_size db
          d).grown

  last_stage-Kept :
      (embed : Bool) (checkpoint : Checkpoint) (db : Database)
      → DistinctIds db.chunks
      → Kept db
          ((if embed then embed_stage services settings job document checkpoint else pure tt) db)
  last_stage-Kept true checkpoint db d = embed_stage-Kept checkpoint db d
  last_stage-Kept false checkpoint db d = Grown-refl document.workspace_id document.id db.chunks

  chunk_stage_resumed :
      (db : Database)
      → written_before services settings job ≢ 0
      → chunk_stage services settings job document db ≡ (ok job.checkpoint, db)
  unfolding chunk_stage
  chunk_stage_resumed db resumed =
      if_ind (λ (m : Exec Error Database Checkpoint). m db ≡ (ok job.checkpoint, db))
        (written_before services settings job == 0) (λ e. absurd (resumed ((==_iff _ _).0 e)))
        (λ _. refl)

  after_chunks-Kept :
      (embed : Bool) (db : Database)
      → DistinctIds db.chunks
      → Kept db (
          (advance job DocumentStatus.embedding job.checkpoint
              >> (if embed
                  then embed_stage services settings job document job.checkpoint
                  else pure tt))
            db)
  unfolding advance set_document_status
  after_chunks-Kept embed db d =
      last_stage-Kept embed job.checkpoint
        (set_document_status job.document_id DocumentStatus.embedding none none false
          (record_progress job (some DocumentStatus.embedding) (some 50) job.checkpoint db))
        d

  run_document-Kept :
      (embed : Bool) (db : Database)
      → written_before services settings job ≢ 0
      → DistinctIds db.chunks
      → Kept db (run_document services settings embed job document db)
  unfolding run_document
  run_document-Kept embed db resumed d =
      subst
        (λ (r : Result Error Checkpoint × Database). Kept db (
          continue r.0
            (λ checkpoint.
              advance job DocumentStatus.embedding checkpoint
              >> (if embed then embed_stage services settings job document checkpoint else pure tt))
            r.1))
        (sym (chunk_stage_resumed db resumed)) (after_chunks-Kept embed db d)

  -- A run of a job whose checkpoint says that chunks were written loses nothing, however it ends
  -- and with embedding or without: every chunk of every document is still in the table with its
  -- text, in its place, and each one that had a vector keeps it. The document is the one that the
  -- job's query finds, the batch size is positive and the chunks have distinct ids.
  pub run_job-resumed :
      (embed : Bool) (db : Database)
      → scalar_one_or_none (select_where (document_has_id job.document_id) db.documents)
        ≡ ok (some document)
      → written_before services settings job ≢ 0
      → DistinctIds db.chunks
      → Grown document.workspace_id document.id db.chunks
          (run_job services settings embed job db).1.chunks
  unfolding run_job load_document run_found
  run_job-resumed embed db found resumed d =
      subst
        (λ (f : Result TooMany (Option Document)).
          Kept db (continue (row_result f) (run_found services settings embed job) db))
        (sym found) (run_document-Kept embed db resumed d)
