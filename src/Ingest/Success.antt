-- ===== src/Ingest/Success.antt =====
-- A run of a job succeeds when the world does its part.
use doc_chat_platform.Persist.Replacing.{NewIds}
use doc_chat_platform.Sql.{TooMany, scalar_one_or_none, select_where}
use doc_chat_platform.Embedding.Progress.{embed_document-answered}
use doc_chat_platform.Persist.{set_document_status, load_document, document_has_id, row_result}
use doc_chat_platform.Embedding.Batches.{DistinctIds}
use doc_chat_platform.Ingest.Stages.{Ends}
use doc_chat_platform.Ingest.Completing.{Done, Done-bind, Runnable, rebuild-Done}
use doc_chat_platform.Ingest.Readiness.{Ready, run_document-Ready}
use doc_chat_platform.Database.{Database, Error}
use doc_chat_platform.Embedding.{Vector, embed_document}
use doc_chat_platform.Text.{Text}
use doc_chat_platform.Models.{IngestJob, Document, Checkpoint, DocumentStatus}
use doc_chat_platform.Ingest.{
  Services, Settings, embed_stage, on_progress, chunk_stage, run_found, run_job, run_document,
  advance, written_before, rebuild,
}
use mathlib.Core.Path.{subst}
use doc_chat_platform.Base.{
  none, true, refl, ok, err, List, ◌<◌, ℕ, ◌≡◌, length, Result, modify, some, false, Bool, Option,
  continue, ◌>>◌, if_ind, Exec, sym, ◌==◌, pure,
}

module _ (services : Services) (settings : Settings) (some_size : 0 < settings.embed_batch_size)
    (job : IngestJob) (document : Document)
    (answers : (round : ℕ) (texts : List Text)
      → (vectors : List Vector) × (services.embedder round texts ≡ ok vectors)
        × (length vectors ≡ length texts)) where
  -- The tables after a run: the document is ready.
  abbrev IsReady : {A : Type 0} → A → Database → Type 0
  IsReady a db = Ready document db

  ready_of_ends : (r : Result Error ℕ × Database) (n : ℕ) → r.0 ≡ ok n → Done (λ _ db. Unit) r
  ready_of_ends (ok k, db) n e = Done.done k db tt
  ready_of_ends (err x, db) n e = absurd (cc e)

  abbrev succeeded : Result Error Unit → Bool
  succeeded (ok tt) = true
  succeeded (err e) = false

  succeeds : (r : Result Error Unit × Database) → Done (λ _ db. Unit) r → succeeded r.0 ≡ true
  succeeds r (Done.done a db u) = refl

  both-Ends :
      (r : Result Error Unit × Database) → succeeded r.0 ≡ true → Ends IsReady r → Done IsReady r
  both-Ends r e (Ends.ended a db now_ready) = Done.done a db now_ready
  both-Ends r e (Ends.raised x db ne) = cc

  embed_stage-Done :
      (checkpoint : Checkpoint) (db : Database)
      → DistinctIds db.chunks
      → Done (λ _ db'. Unit) (embed_stage services settings job document checkpoint db)
  unfolding embed_stage on_progress
  embed_stage-Done checkpoint db d =
      Done-bind (λ _ db'. Unit)
        (embed_document services.embedder (on_progress services settings job checkpoint)
          document.workspace_id document.id settings.embed_batch_size)
        (λ _. modify (set_document_status document.id DocumentStatus.ready none none true)) db
        (ready_of_ends _ _
          (embed_document-answered services.embedder (on_progress services settings job checkpoint)
            document.workspace_id document.id settings.embed_batch_size (λ n t d'. refl) some_size
            answers db d).0)
        (λ n db' u. Done.done tt _ tt)

  abbrev Apart : {A : Type 0} → A → Database → Type 0
  Apart a db = DistinctIds db.chunks

  chunk_stage-Done :
      (db : Database)
      → Runnable services settings document db
      → NewIds services.new_id db.chunks
      → DistinctIds db.chunks
      → Done Apart (chunk_stage services settings job document db)
  unfolding chunk_stage
  chunk_stage-Done db able ids d =
      if_ind (λ (m : Exec Error Database Checkpoint). Done Apart (m db))
        (written_before services settings job == 0)
        (λ _.
          Done-bind Apart (rebuild services settings job document)
            (λ n. pure (record job.checkpoint { chunks_written = some n })) db
            (rebuild-Done services settings job document db able ids d)
            (λ n db' d'. Done.done _ db' d'))
        (λ _. Done.done job.checkpoint db d)

  advance-Apart :
      (checkpoint : Checkpoint) (db : Database)
      → DistinctIds db.chunks
      → Done Apart (advance job DocumentStatus.embedding checkpoint db)
  unfolding advance set_document_status
  advance-Apart checkpoint db d = Done.done tt _ d

  run_document-Done :
      (db : Database)
      → Runnable services settings document db
      → NewIds services.new_id db.chunks
      → DistinctIds db.chunks
      → Done (λ _ db'. Unit) (run_document services settings true job document db)
  unfolding run_document
  run_document-Done db able ids d =
      Done-bind Apart (chunk_stage services settings job document)
        (λ checkpoint.
          advance job DocumentStatus.embedding checkpoint
          >> embed_stage services settings job document checkpoint)
        db (chunk_stage-Done db able ids d)
        (λ checkpoint db1 d1.
          Done-bind Apart (advance job DocumentStatus.embedding checkpoint)
            (λ _. embed_stage services settings job document checkpoint) db1
            (advance-Apart checkpoint db1 d1) (λ _ db2 d2. embed_stage-Done checkpoint db2 d2))

  found-Done :
      (found : Result TooMany (Option Document)) (db : Database)
      → found ≡ ok (some document)
      → Runnable services settings document db
      → NewIds services.new_id db.chunks
      → DistinctIds db.chunks
      → Done (λ _ db'. Unit) (continue (row_result found) (run_found services settings true job) db)
  unfolding run_found
  found-Done found db e able ids d =
      subst
        (λ (f : Result TooMany (Option Document)).
          Done (λ _ db'. Unit) (continue (row_result f) (run_found services settings true job) db))
        (sym e) (run_document-Done db able ids d)

  found-Ready :
      (found : Result TooMany (Option Document)) (db : Database)
      → found ≡ ok (some document)
      → NewIds services.new_id db.chunks
      → DistinctIds db.chunks
      → Ends IsReady (continue (row_result found) (run_found services settings true job) db)
  unfolding run_found
  found-Ready found db e ids d =
      subst
        (λ (f : Result TooMany (Option Document)).
          Ends IsReady (continue (row_result f) (run_found services settings true job) db))
        (sym e) (run_document-Ready services settings some_size job document db ids d)

  -- A run of a job with embedding succeeds, and leaves its document ready, whatever the checkpoint
  -- of the job, when: the job's query finds the document; its file is stored, parses into blocks
  -- that give chunks, and its workspace is in its table; the embedding provider answers each call
  -- with a vector for each text; the batch size is positive; the chunks have distinct ids, and the
  -- new ids are distinct and not in the table.
  pub run_job-Done :
      (db : Database)
      → scalar_one_or_none (select_where (document_has_id job.document_id) db.documents)
        ≡ ok (some document)
      → Runnable services settings document db
      → NewIds services.new_id db.chunks
      → DistinctIds db.chunks
      → Done IsReady (run_job services settings true job db)
  unfolding run_job load_document
  run_job-Done db e able ids d =
      both-Ends _ (succeeds _ (found-Done _ db e able ids d)) (found-Ready _ db e ids d)
