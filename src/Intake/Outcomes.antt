-- ===== src/Intake/Outcomes.antt =====
-- The three outcomes of an upload, and what each leaves in the tables.
use doc_chat_platform.FileStore.{of_document, put_file, get_file, content_of}
use doc_chat_platform.Intake.Hashes.{same_hash_iff, both}
use doc_chat_platform.Sql.Laws.{All-mem, count_where-delete_where_self}
use doc_chat_platform.Sql.Order.{mem-update_where}
use doc_chat_platform.Sql.Counting.{
  mem-update_hit, mem-append_last, mem-append_left, mem-delete_where, scalar-some, scalar-several,
  scalar-All, scalar-All-none,
}
use doc_chat_platform.Queue.{enqueue, new_job}
use doc_chat_platform.VectorStore.{belongs, delete_by_document}
use doc_chat_platform.Sql.{
  count_where, find_where, update_where, TooMany, scalar_one_or_none, select_where,
}
use doc_chat_platform.Models.{
  DocumentFile, Document, DocumentStatus, is_ready, IngestJob, JobStatus, empty_checkpoint,
}
use doc_chat_platform.Database.{Database}
use doc_chat_platform.Intake.{
  Upload, IntakeResult, IntakeError, insert_new, store_and_enqueue, resubmit, new_document, renew,
  has_document_id, succeed, set_key, is_superseded, stored_file, by_filename, by_hash, admit,
  same_filename, several_rows, same_hash,
}
use mathlib.Core.List.{Memᴰ}
use doc_chat_platform.Base.{
  [], none, some, true, false, ok, err, List, Result, ◌≡◌, ◌++◌, ◌∷◌, All, ◌≢◌, refl, arith, Bool,
  ◌==◌, ℕ, ◌&&◌, if_ind, any, All-imp, ==_refl, ap, Option, ==_iff, inl, inr, ◌<◌, ◌⊎◌,
}

-- What a queued upload leaves: the document of the result is in the table, waiting, with the bytes
-- of the upload; no chunk of an earlier version is left; one job was appended, for this document,
-- that starts from the first stage; and every other document and every other chunk is kept.
pub record Queued (upload : Upload) (db : Database) (r : IntakeResult) (db' : Database)
    : Type 0 where
  pub in_table : Memᴰ r.document db'.documents
  pub waiting : r.document.status ≡ DocumentStatus.pending
  pub same_bytes : r.document.file_hash ≡ upload.file_hash
  pub same_workspace : r.document.workspace_id ≡ upload.workspace_id
  pub same_name : r.document.filename ≡ upload.filename
  pub not_indexed : r.document.indexed_at ≡ none
  pub content_stored : get_file upload.workspace_id r.document.id db'.files ≡ some upload.content
  pub chunks_gone : count_where (belongs upload.workspace_id r.document.id) db'.chunks ≡ 0
  pub job : IngestJob
  pub job_returned : r.job ≡ some job
  pub job_queued : db'.jobs ≡ db.jobs ++ job ∷ []
  pub job_waiting : job.status ≡ JobStatus.pending
  pub job_fresh : job.checkpoint ≡ empty_checkpoint
  pub job_for : job.document_id ≡ r.document.id
  pub others_kept : All (λ d. d.id ≢ r.document.id → Memᴰ d db'.documents) db.documents
  pub other_chunks :
      All (λ c. belongs upload.workspace_id r.document.id c ≡ false → Memᴰ c db'.chunks) db.chunks

-- No document of the workspace that has the bytes of the upload is ready.
abbrev pub NoneReady : Upload → Database → Type 0
NoneReady upload db =
    All (λ d. same_hash upload.workspace_id upload.file_hash d ≡ true → is_ready d.status ≡ false)
      db.documents

-- What an upload may lead to.
pub data Outcome (upload : Upload) (db : Database)
    : Result IntakeError IntakeResult × Database → Type 0 where
  ambiguous :
      (1 < count_where (same_hash upload.workspace_id upload.file_hash) db.documents)
        ⊎ (1 < count_where (same_filename upload.workspace_id upload.filename) db.documents)
      → Outcome upload db (err several_rows, db)
  known :
      (d : Document)
      → Memᴰ d db.documents
      → d.workspace_id ≡ upload.workspace_id
      → d.file_hash ≡ upload.file_hash
      → is_ready d.status ≡ true
      → Outcome upload db
          (ok (record { document = d; job = none; deduplicated = true; superseded = false }), db)
  queued :
      (r : IntakeResult) (db' : Database)
      → Queued upload db r db'
      → r.deduplicated ≡ false
      → NoneReady upload db
      → Outcome upload db (ok r, db')

module _ (new : DocumentFile) where
  abbrev wanted : DocumentFile → Bool
  wanted f = f.document_id == new.document_id && f.workspace_id == new.workspace_id

  find-replaced :
      (files : List DocumentFile)
      → any (of_document new.document_id) files ≡ true
      → find_where wanted (update_where (of_document new.document_id) (λ _. new) files) ≡ some new
  unfolding find_where update_where
  find-replaced [] h = cc
  find-replaced (f ∷ files) h = ground (arith, find-replaced files)

  find-appended :
      (files : List DocumentFile)
      → any (of_document new.document_id) files ≡ false
      → find_where wanted (files ++ new ∷ []) ≡ some new
  unfolding find_where
  find-appended [] h = ground arith
  find-appended (f ∷ files) h = ground (arith, find-appended files)

  find-put_file : (files : List DocumentFile) → find_where wanted (put_file new files) ≡ some new
  unfolding put_file
  find-put_file files =
      if_ind (λ fs. find_where wanted fs ≡ some new) (any (of_document new.document_id) files)
        (find-replaced files) (find-appended files)

  get_file-put_file :
      (files : List DocumentFile)
      → get_file new.workspace_id new.document_id (put_file new files) ≡ some new.content
  unfolding get_file
  get_file-put_file files = ap content_of (find-put_file files)

-- The ids that a row and its assignments share keep the other rows in the table.
others-update :
    (i : ℕ) (f : Document → Document) (documents rows : List Document)
    → All (λ d. d.id ≢ i → Memᴰ d rows) documents
    → All (λ d. d.id ≢ i → Memᴰ d (update_where (has_document_id i) f rows)) documents
others-update i f documents rows h =
    All-imp (λ d. d.id ≢ i → Memᴰ d rows) _ documents
      (λ d k ne.
        mem-update_where (λ (x : Document). x.id) (has_document_id i) f d rows (ground (arith, ne))
          (k ne))
      h

module _ (document_id job_id : ℕ) (upload : Upload) where
  store_and_enqueue-Queued :
      (before db : Database) (document : Document) (superseded : Bool)
      → Memᴰ document db.documents
      → (document.status ≡ DocumentStatus.pending) × (document.indexed_at ≡ none)
      → (document.file_hash ≡ upload.file_hash)
        × (document.workspace_id ≡ upload.workspace_id)
        × (document.filename ≡ upload.filename)
      → count_where (belongs upload.workspace_id document.id) db.chunks ≡ 0
      → db.jobs ≡ before.jobs
      → All (λ d. d.id ≢ document.id → Memᴰ d db.documents) before.documents
      → All
          (λ c. belongs upload.workspace_id document.id c ≡ false → Memᴰ c db.chunks)
          before.chunks
      → let q = store_and_enqueue document_id job_id upload document superseded db in
        Queued upload before q.0 q.1
  unfolding store_and_enqueue enqueue
  store_and_enqueue-Queued before db document superseded r state same gone jobs others chunks =
      record {
        in_table =
            mem-update_hit (has_document_id document.id) set_key document db.documents
              (==_refl document.id) r;
        waiting = state.0;
        same_bytes = same.0;
        same_workspace = same.1;
        same_name = same.2;
        not_indexed = state.1;
        content_stored = get_file-put_file (stored_file upload document.id) db.files;
        chunks_gone = gone;
        job = new_job job_id db.clock upload.workspace_id document.id;
        job_returned = refl;
        job_queued =
            ap (λ js. js ++ new_job job_id db.clock upload.workspace_id document.id ∷ []) jobs;
        job_waiting = refl;
        job_fresh = refl;
        job_for = refl;
        others_kept = others-update document.id set_key before.documents db.documents others;
        other_chunks = chunks;
      }

  resubmit-Outcome :
      (m : Document) (db : Database)
      → Memᴰ m db.documents
      → m.workspace_id ≡ upload.workspace_id
      → NoneReady upload db
      → Outcome upload db (succeed (resubmit document_id job_id upload m db))
  unfolding resubmit store_and_enqueue renew delete_by_document
  resubmit-Outcome m db r here unready =
      Outcome.queued _ _
        (store_and_enqueue-Queued db
          (record db {
            documents = update_where (has_document_id m.id) (renew upload) db.documents;
            chunks = delete_by_document upload.workspace_id m.id db.chunks;
          })
          (renew upload m) (is_superseded upload m)
          (mem-update_hit (has_document_id m.id) (renew upload) m db.documents (==_refl m.id) r)
          (refl, refl) (refl, here, refl)
          (count_where-delete_where_self (belongs upload.workspace_id m.id) db.chunks) refl
          (others-update m.id (renew upload) db.documents db.documents
            (All-imp (λ d. Memᴰ d db.documents) _ db.documents (λ d k _. k) (All-mem db.documents)))
          (All-imp (λ c. Memᴰ c db.chunks) _ db.chunks
            (λ c k t. mem-delete_where (belongs upload.workspace_id m.id) c db.chunks t k)
            (All-mem db.chunks)))
        refl unready

  insert-Outcome :
      (db : Database)
      → count_where (belongs upload.workspace_id document_id) db.chunks ≡ 0
      → NoneReady upload db
      → Outcome upload db (succeed (insert_new document_id job_id upload db))
  unfolding insert_new store_and_enqueue new_document
  insert-Outcome db gone unready =
      let new = new_document upload document_id db.clock in
      Outcome.queued _ _
        (store_and_enqueue-Queued db (record db { documents = db.documents ++ new ∷ [] }) new false
          (mem-append_last new db.documents) (refl, refl) (refl, refl, refl) gone refl
          (All-imp (λ d. Memᴰ d db.documents) _ db.documents
            (λ d k _. mem-append_left d db.documents (new ∷ []) k) (All-mem db.documents))
          (All-imp (λ c. Memᴰ c db.chunks) _ db.chunks (λ c k _. k) (All-mem db.chunks)))
        refl unready

  by_filename-Outcome :
      (found : Result TooMany (Option Document)) (db : Database)
      → scalar_one_or_none
          (select_where (same_filename upload.workspace_id upload.filename) db.documents)
        ≡ found
      → count_where (belongs upload.workspace_id document_id) db.chunks ≡ 0
      → NoneReady upload db
      → Outcome upload db (by_filename document_id job_id upload found db)
  unfolding by_filename same_filename
  by_filename-Outcome (err x) db e gone unready =
      Outcome.ambiguous
        (inr (scalar-several (same_filename upload.workspace_id upload.filename) db.documents x e))
  by_filename-Outcome (ok (some m)) db e gone unready =
      let (r, t) =
        scalar-some (same_filename upload.workspace_id upload.filename) m db.documents e in
      resubmit-Outcome m db r ((==_iff _ _).0 (both (m.workspace_id == upload.workspace_id) _ t).0)
        unready
  by_filename-Outcome (ok none) db e gone unready = insert-Outcome db gone unready

  by_hash-Outcome :
      (found : Result TooMany (Option Document)) (db : Database)
      → scalar_one_or_none
          (select_where (same_hash upload.workspace_id upload.file_hash) db.documents)
        ≡ found
      → count_where (belongs upload.workspace_id document_id) db.chunks ≡ 0
      → Outcome upload db (by_hash document_id job_id upload found db)
  unfolding by_hash
  by_hash-Outcome (err x) db e gone =
      Outcome.ambiguous
        (inl (scalar-several (same_hash upload.workspace_id upload.file_hash) db.documents x e))
  by_hash-Outcome (ok (some m)) db e gone =
      let (r, t) = scalar-some (same_hash upload.workspace_id upload.file_hash) m db.documents e in
      let (here, bytes) = same_hash_iff upload.workspace_id upload.file_hash m t in
      if_ind (Outcome upload db) (is_ready m.status) (Outcome.known m r here bytes) (λ not_ready.
        resubmit-Outcome m db r here (
          scalar-All (same_hash upload.workspace_id upload.file_hash)
            (λ d. is_ready d.status ≡ false) m db.documents e not_ready))
  by_hash-Outcome (ok none) db e gone = by_filename-Outcome _ db refl gone (
      scalar-All-none (same_hash upload.workspace_id upload.file_hash)
        (λ d. is_ready d.status ≡ false) db.documents e)

  -- An upload that has passed validation ends in one of three ways. It is refused, with the
  -- database as before, only when several documents of the workspace have its hash, or its name.
  -- Or the workspace holds a ready document with the same hash: that document is the result,
  -- nothing is queued and the database is as before. Or no document with the hash is ready and it
  -- is queued: the result's document is in the table, pending, with the upload's hash, name and
  -- workspace, and not indexed; the file store gives back its bytes; it has no chunk left; one job
  -- was appended, pending, for this document, with an empty checkpoint; and all other documents
  -- and all chunks that are not this document's are still there. The id for a new document is one
  -- that no chunk refers to.
  pub admit-Outcome :
      (db : Database)
      → count_where (belongs upload.workspace_id document_id) db.chunks ≡ 0
      → Outcome upload db (admit document_id job_id upload db)
  unfolding admit
  admit-Outcome db gone = by_hash-Outcome _ db refl gone
