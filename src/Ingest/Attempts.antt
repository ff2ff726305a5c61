-- ===== src/Ingest/Attempts.antt =====
-- A run of a job reports its progress, and never counts an attempt: that is the queue's to do.

use doc_chat_platform.Text.{Text}
use doc_chat_platform.Database.{Database, Error}
use doc_chat_platform.Persist.{set_document_status}
use doc_chat_platform.Ingest.{advance, record_progress, stage_progress}
use doc_chat_platform.Embedding.{
  Embedder, store_vectors, embed_rounds, embed_document, count_pending, Vector, next_batch,
  batch_texts,
}
use doc_chat_platform.Models.{IngestJob, Chunk, DocumentStatus, Checkpoint}
use doc_chat_platform.Sql.{find_where, update_where}
use mathlib.Core.Option.{Option}
use doc_chat_platform.Queue.{has_id, update_progress, set_progress}
use doc_chat_platform.Base.{
  [], none, some, true, false, zero, suc, inl, inr, refl, ok, err, Bool, List, ℕ, Exec, Result, ◌≡◌,
  continue, ◌∷◌, ◌>>=◌, if◌then◌else◌, ◌∙◌, if_ind, ◌+◌, ◌==◌, Bool-cases, length, is_empty, ap,
  pure, ◌>>◌, modify,
}

abbrev attempts_in : Option IngestJob → Option ℕ
attempts_in none = none
attempts_in (some job) = some job.attempts

-- The attempts of the job with an id, when there is one.
abbrev pub attempts_of : ℕ → List IngestJob → Option ℕ
attempts_of i jobs = attempts_in (find_where (has_id i) jobs)

attempts_of-update :
    (i : ℕ) (p : IngestJob → Bool) (f : IngestJob → IngestJob) (jobs : List IngestJob)
    → ((job : IngestJob) → (f job).id ≡ job.id)
    → ((job : IngestJob) → (f job).attempts ≡ job.attempts)
    → attempts_of i (update_where p f jobs) ≡ attempts_of i jobs
unfolding find_where update_where
attempts_of-update i p f [] same_id same = refl
attempts_of-update i p f (job ∷ jobs) same_id same =
    let rest = attempts_of-update i p f jobs same_id same in
    let here : ((if p job then f job else job).id ≡ job.id)
        × ((if p job then f job else job).attempts ≡ job.attempts) =
      if_ind (λ (j : IngestJob). (j.id ≡ job.id) × (j.attempts ≡ job.attempts)) (p job)
        (λ _. (same_id job, same job)) (λ _. (refl, refl)) in
    elim (Bool-cases (job.id == i)) [
      | inl e ↦ rw (here.0, e) (ap some here.1)
      | inr e ↦ rw (here.0, e) rest
    ]

module _ (i : ℕ) where
  -- A stage that leaves the attempts of the job, whatever its outcome.
  abbrev pub Quiet : {A : Type 0} → Exec Error Database A → Type 0
  Quiet m = (db : Database) → attempts_of i (m db).1.jobs ≡ attempts_of i db.jobs

  Quiet-continue :
      {A B : Type 0} (r : Result Error A) (db : Database) (f : A → Exec Error Database B)
      → ((a : A) → Quiet (f a))
      → attempts_of i (continue r f db).1.jobs ≡ attempts_of i db.jobs
  Quiet-continue (ok a) db f h = h a db
  Quiet-continue (err e) db f h = refl

  pub Quiet-bind :
      {A B : Type 0} (m : Exec Error Database A) (f : A → Exec Error Database B)
      → Quiet m
      → ((a : A) → Quiet (f a))
      → Quiet (m >>= f)
  Quiet-bind m f h k db = Quiet-continue (m db).0 (m db).1 f k ∙ h db

  pub Quiet-if :
      {A : Type 0} (b : Bool) (m n : Exec Error Database A)
      → Quiet m
      → Quiet n
      → Quiet (if b then m else n)
  Quiet-if true m n h k = h
  Quiet-if false m n h k = k

  pub record_progress-Quiet :
      (job : IngestJob) (stage : Option DocumentStatus) (pct : Option ℕ) (checkpoint : Checkpoint)
      (db : Database)
      → attempts_of i (record_progress job stage pct checkpoint db).jobs ≡ attempts_of i db.jobs
  unfolding update_progress set_progress
  record_progress-Quiet job stage pct checkpoint db =
      attempts_of-update i (has_id job.id) (set_progress db.clock stage pct (some checkpoint))
        db.jobs (λ j. refl) (λ j. refl)

  pub advance-Quiet :
      (job : IngestJob) (stage : DocumentStatus) (checkpoint : Checkpoint)
      → Quiet (advance job stage checkpoint)
  unfolding advance set_document_status
  advance-Quiet job stage checkpoint db =
      record_progress-Quiet job (some stage) (stage_progress stage) checkpoint db

  store_vectors-Quiet :
      (batch : List Chunk) (answer : Result Text (List Vector)) → Quiet (store_vectors batch answer)
  unfolding store_vectors
  store_vectors-Quiet batch (err e) db = refl
  store_vectors-Quiet batch (ok vectors) db =
      if_ind (λ (r : Result Error Unit × Database). attempts_of i r.1.jobs ≡ attempts_of i db.jobs)
        (length vectors == length batch) (λ _. refl) (λ _. refl)

  module _ (embedder : Embedder) (on_progress : ℕ → ℕ → Database → Database)
      (workspace_id document_id batch_size : ℕ)
      (quiet : (n t : ℕ) (db : Database)
        → attempts_of i (on_progress n t db).jobs ≡ attempts_of i db.jobs) where
    embed_rounds-Quiet :
        (fuel round written total : ℕ)
        → Quiet (
            embed_rounds embedder on_progress workspace_id document_id batch_size fuel round written
              total)
    unfolding embed_rounds
    embed_rounds-Quiet zero round written total db = refl
    embed_rounds-Quiet (suc fuel) round written total db =
        let batch = next_batch workspace_id document_id batch_size db.chunks in
        let rest =
          embed_rounds embedder on_progress workspace_id document_id batch_size fuel (round + 1)
            (written + length batch) total in
        Quiet-if (is_empty batch) (pure written)
          (store_vectors batch (embedder round (batch_texts batch))
            >> (modify (on_progress (written + length batch) total) >> rest))
          (λ db'. refl)
          (Quiet-bind (store_vectors batch (embedder round (batch_texts batch)))
            (λ _. modify (on_progress (written + length batch) total) >> rest)
            (store_vectors-Quiet batch (embedder round (batch_texts batch)))
            (λ _.
              Quiet-bind (modify (on_progress (written + length batch) total)) (λ _. rest)
                (quiet (written + length batch) total)
                (λ _. embed_rounds-Quiet fuel (round + 1) (written + length batch) total)))
          db

    pub embed_document-Quiet :
        Quiet (embed_document embedder on_progress workspace_id document_id batch_size)
    unfolding embed_document
    embed_document-Quiet db =
        let total = count_pending workspace_id document_id db.chunks in
        Quiet-if (total == 0) (pure 0)
          (embed_rounds embedder on_progress workspace_id document_id batch_size (total + 1) 0 0
            total)
          (λ db'. refl) (embed_rounds-Quiet (total + 1) 0 0 total) db
