-- ===== src/Ingest/Readiness.antt =====
-- What a run of a job leaves: a document that is ready has all its vectors, and a resumed run keeps
-- those that were written before.
use doc_chat_platform.Sql.Counting.{scalar-some}
use doc_chat_platform.Embedding.Progress.{IsRun, FromProvider, embed_document_lem}
use doc_chat_platform.Ingest.Stages.{Ends, Ends-bind, Has, no_fuel-ne, advance-Has, rebuild-Apart}
use doc_chat_platform.Embedding.Batches.{DistinctIds}
use doc_chat_platform.Persist.Replacing.{NewIds}
use doc_chat_platform.Embedding.{count_pending, embed_document}
use doc_chat_platform.Persist.{
  with_status, load_document, document_has_id, set_document_status, row_result,
}
use doc_chat_platform.Database.{Database, Error}
use doc_chat_platform.Models.{Document, IngestJob, DocumentStatus, Checkpoint}
use doc_chat_platform.Ingest.{
  Services, Settings, run_found, on_progress, run_job, chunk_stage, embed_stage, run_document,
  advance, written_before, rebuild,
}
use doc_chat_platform.Sql.{update_where, TooMany, scalar_one_or_none, select_where}
use mathlib.Core.List.{Memᴰ}
use mathlib.Core.Path.{subst}
use doc_chat_platform.Base.{
  [], none, some, true, false, refl, ok, err, Bool, List, Option, ℕ, ◌<◌, All, ◌≡◌, Result, ◌∷◌,
  ◌==◌, if_ind, if◌then◌else◌, continue, ==_iff, ◌≢◌, Exec, modify, ◌>>◌, pure, sym,
}

-- The document is marked ready and indexed, and every chunk of it has a vector.
pub record Ready (document : Document) (db : Database) : Type 0 where
  pub embedded : count_pending document.workspace_id document.id db.chunks ≡ 0
  pub marked :
      All
        (λ d.
          d.id ≡ document.id → (d.status ≡ DocumentStatus.ready) × (d.indexed_at ≡ some db.clock))
        db.documents

marked_ready :
    (i now : ℕ) (documents : List Document)
    → All
        (λ d. d.id ≡ i → (d.status ≡ DocumentStatus.ready) × (d.indexed_at ≡ some now))
        (update_where
          (document_has_id i)
          (with_status now DocumentStatus.ready none none true)
          documents)
unfolding update_where with_status
marked_ready i now [] = tt
marked_ready i now (d ∷ documents) = (go (d.id == i) refl, marked_ready i now documents)
  where
    go :
        (b : Bool)
        → (d.id == i) ≡ b
        → (let e = if b then with_status now DocumentStatus.ready none none true d else d in
            e.id ≡ i → (e.status ≡ DocumentStatus.ready) × (e.indexed_at ≡ some now))
    go true h = λ _. (refl, refl)
    go false h = λ same. absurd (cc (h, (==_iff _ _).1 same))

module _ (services : Services) (settings : Settings)
    (some_size : 0 < settings.embed_batch_size) where
  module _ (job : IngestJob) (document : Document) where
    abbrev callback : Checkpoint → ℕ → ℕ → Database → Database
    callback checkpoint = on_progress services settings job checkpoint

    keeps :
        (checkpoint : Checkpoint) (n t : ℕ) (db : Database)
        → (callback checkpoint n t db).chunks ≡ db.chunks
    unfolding on_progress
    keeps checkpoint n t db = refl

    -- Every chunk of the document has a vector.
    abbrev Embedded : ℕ → Database → Type 0
    Embedded n db = count_pending document.workspace_id document.id db.chunks ≡ 0

    run-Embedded :
        (checkpoint : Checkpoint) (db : Database) (r : Result Error ℕ × Database)
        → IsRun services.embedder
            (callback checkpoint)
            document.workspace_id
            document.id
            settings.embed_batch_size
            (keeps checkpoint)
            some_size
            0
            db
            r
        → Ends Embedded r
    run-Embedded checkpoint db (ok n, db') run = Ends.ended n db' run.ends.1
    run-Embedded checkpoint db (err e, db') run = Ends.raised e db' (own e run.ends)
      where
        own :
            (x : Error)
            → FromProvider services.embedder
                (callback checkpoint)
                document.workspace_id
                document.id
                settings.embed_batch_size
                (keeps checkpoint)
                some_size
                x
            → x ≢ Error.no_fuel
        own x (FromProvider.refused round texts y asked) = λ h. cc
        own x (FromProvider.miscounted round texts vectors got wanted asked g w ne) = λ h. cc

    embed_stage-Ready :
        (checkpoint : Checkpoint) (db : Database)
        → DistinctIds db.chunks
        → Ends
            (λ _ db'. Ready document db')
            (embed_stage services settings job document checkpoint db)
    unfolding embed_stage set_document_status
    embed_stage-Ready checkpoint db d =
        Ends-bind Embedded
          (embed_document services.embedder (callback checkpoint) document.workspace_id document.id
            settings.embed_batch_size)
          (λ _. modify (set_document_status document.id DocumentStatus.ready none none true)) db
          (run-Embedded checkpoint db _ (
            embed_document_lem services.embedder (callback checkpoint) document.workspace_id
              document.id settings.embed_batch_size (keeps checkpoint) some_size db d))
          (λ n db' done.
            Ends.ended tt _ (record {
              embedded = done;
              marked = marked_ready document.id db'.clock db'.documents;
            }))

    chunk_stage-Apart :
        (db : Database)
        → NewIds services.new_id db.chunks
        → DistinctIds db.chunks
        → Ends (λ _ db'. DistinctIds db'.chunks) (chunk_stage services settings job document db)
    unfolding chunk_stage
    chunk_stage-Apart db ids d =
        if_ind
          (λ (m : Exec Error Database Checkpoint). Ends (λ _ db'. DistinctIds db'.chunks) (m db))
          (written_before services settings job == 0)
          (λ _.
            Ends-bind (λ _ db'. DistinctIds db'.chunks) (rebuild services settings job document)
              (λ n. pure (record job.checkpoint { chunks_written = some n })) db
              (rebuild-Apart services settings job document db ids d)
              (λ n db' d'. Ends.ended _ db' d'))
          (λ _. Ends.ended job.checkpoint db d)

    pub run_document-Ready :
        (db : Database)
        → NewIds services.new_id db.chunks
        → DistinctIds db.chunks
        → Ends (λ _ db'. Ready document db') (run_document services settings true job document db)
    unfolding run_document
    run_document-Ready db ids d =
        Ends-bind (λ _ db'. DistinctIds db'.chunks) (chunk_stage services settings job document)
          (λ checkpoint.
            advance job DocumentStatus.embedding checkpoint
            >> embed_stage services settings job document checkpoint)
          db (chunk_stage-Apart db ids d)
          (λ checkpoint db1 d1.
            Ends-bind (Has db1.chunks) (advance job DocumentStatus.embedding checkpoint)
              (λ _. embed_stage services settings job document checkpoint) db1
              (advance-Has db1.chunks job DocumentStatus.embedding checkpoint db1 refl)
              (λ _ db2 same. embed_stage-Ready checkpoint db2 (subst DistinctIds (sym same) d1)))

  module _ (job : IngestJob) where
    -- The document of the job, as the run found it, is ready.
    abbrev pub ReadyAfter : Database → {A : Type 0} → A → Database → Type 0
    ReadyAfter before a db =
        (document : Document) × (Memᴰ document before.documents × (document.id ≡ job.document_id))
        × Ready document db

    found-Ready :
        (found : Result TooMany (Option Document)) (db : Database)
        → scalar_one_or_none (select_where (document_has_id job.document_id) db.documents) ≡ found
        → NewIds services.new_id db.chunks
        → DistinctIds db.chunks
        → Ends
            (ReadyAfter db)
            (continue (row_result found) (run_found services settings true job) db)
    unfolding run_found
    found-Ready (err x) db e ids d = Ends.raised Error.multiple_results_found db (λ h. cc)
    found-Ready (ok none) db e ids d = Ends.raised _ db (no_fuel-ne _)
    found-Ready (ok (some document)) db e ids d =
        let (there, same) = scalar-some (document_has_id job.document_id) document db.documents e in
        with_document (document) (there, (==_iff _ _).0 same) _
          (run_document-Ready job document db ids d)
      where
        with_document :
            (m : Document)
            → Memᴰ m db.documents × (m.id ≡ job.document_id)
            → (r : Result Error Unit × Database) → Ends (λ _ db'. Ready m db') r
            → Ends (ReadyAfter db) r
        with_document m k r (Ends.ended a db' ready) = Ends.ended a db' (m, k, ready)
        with_document m k r (Ends.raised x db' ne) = Ends.raised x db' ne

    -- A run of a job with embedding, for a positive batch size, chunks with distinct ids, and new
    -- ids that are distinct and not in the table. When it ends without an error, the document of
    -- the job was in the table, it is marked ready and indexed, and every chunk of it has a
    -- vector. When it ends with an error, that is one of the program's: no loop is cut off.
    pub run_job-Ready :
        (db : Database)
        → NewIds services.new_id db.chunks
        → DistinctIds db.chunks
        → Ends (ReadyAfter db) (run_job services settings true job db)
    unfolding run_job load_document
    run_job-Ready db ids d = found-Ready _ db refl ids d
