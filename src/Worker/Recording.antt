-- ===== src/Worker/Recording.antt =====
-- Success and failure are recorded against the job and its document.
use doc_chat_platform.Ingest.Untouched.{run_job-Quiet}
use doc_chat_platform.Persist.{with_status, set_document_status, document_has_id}
use doc_chat_platform.Worker.{mark_failed, process, record_outcome}
use doc_chat_platform.Ingest.Attempts.{attempts_of}
use doc_chat_platform.Ingest.{Services, Settings, run_job}
use doc_chat_platform.Models.{IngestJob, JobStatus, DocumentStatus, Document, is_failed}
use doc_chat_platform.Sql.{find_where, update_where}
use doc_chat_platform.Text.{Text}
use doc_chat_platform.Database.{Error, Database}
use mathlib.Core.Path.{subst}
use doc_chat_platform.Queue.{
  has_id, job_status, release, set_released, finish, set_finished, is_error,
}
use doc_chat_platform.Base.{
  [], some, inl, inr, ok, err, List, ℕ, ◌≡◌, ◌∷◌, Result, Bool-cases, ◌==◌, ◌<◌, ◌≤◌, All, ap,
  get_or_else, none, true, false, refl, arith, Bool, if_ind, leb, if◌then◌else◌, ==_iff, sym, ◌∙◌,
  ltb, ltb→lt,
}

-- An UPDATE of the row of a job, by what it does to rows with its attempts.
status-update :
    (i k : ℕ) (s : JobStatus) (f : IngestJob → IngestJob) (jobs : List IngestJob)
    → ((j : IngestJob) → (f j).id ≡ j.id)
    → ((j : IngestJob) → j.attempts ≡ k → (f j).status ≡ s)
    → attempts_of i jobs ≡ some k
    → job_status i (update_where (has_id i) f jobs) ≡ some s
unfolding job_status find_where update_where
status-update i k s f [] same_id gives h = cc
status-update i k s f (j ∷ jobs) same_id gives h = elim (Bool-cases (j.id == i)) [
  | inl e ↦ rw (e, same_id j, e) (ap some (gives j (ap (λ o. get_or_else o 0) (rw e at h))))
  | inr e ↦ rw (e, e) (status-update i k s f jobs same_id gives (rw e at h))
]

marked_failed :
    (i now : ℕ) (reason : Text) (documents : List Document)
    → All
        (λ d. d.id ≡ i → (d.status ≡ DocumentStatus.failed) × (d.error_message ≡ some reason))
        (update_where
          (document_has_id i)
          (with_status now DocumentStatus.failed (some reason) none false)
          documents)
unfolding update_where with_status
marked_failed i now reason [] = tt
marked_failed i now reason (d ∷ documents) =
    (go (d.id == i) refl, marked_failed i now reason documents)
  where
    go :
        (b : Bool)
        → (d.id == i) ≡ b
        → (let e =
              if b then with_status now DocumentStatus.failed (some reason) none false d else d in
            e.id ≡ i → (e.status ≡ DocumentStatus.failed) × (e.error_message ≡ some reason))
    go true h = λ _. (refl, refl)
    go false h = λ same. absurd (cc (h, (==_iff _ _).1 same))

module _ (message : Error → Text) (max_attempts : ℕ) (job : IngestJob) (services : Services)
    (settings : Settings) where
  -- The documents of the job are marked failed, with the error as their message.
  abbrev pub DocumentFailed : Error → Database → Type 0
  DocumentFailed e db =
      All
        (λ d.
          d.id ≡ job.document_id
          → (d.status ≡ DocumentStatus.failed) × (d.error_message ≡ some (message e)))
        db.documents

  -- What is recorded for a run that ended with a result in the tables `after`, of a job that was
  -- claimed `attempts` times.
  pub data Recorded (attempts : ℕ) (after db : Database) : Result Error Unit → Type 0 where
    success :
        job_status job.id db.jobs ≡ some JobStatus.succeeded → Recorded attempts after db (ok tt)
    retry :
        (e : Error)
        → attempts < max_attempts
        → job_status job.id db.jobs ≡ some JobStatus.pending
        → db.documents ≡ after.documents
        → Recorded attempts after db (err e)
    failure :
        (e : Error)
        → max_attempts ≤ attempts
        → job_status job.id db.jobs ≡ some JobStatus.failed
        → DocumentFailed e db
        → Recorded attempts after db (err e)

  released_status :
      (now k : ℕ) (e : Error) (s : JobStatus) (jobs : List IngestJob)
      → ((j : IngestJob)
          → j.attempts ≡ k
          → (set_released now (message e) max_attempts j).status ≡ s)
      → attempts_of job.id jobs ≡ some k
      → job_status job.id (release now job.id (message e) max_attempts jobs) ≡ some s
  unfolding release set_released
  released_status now k e s jobs gives h =
      status-update job.id k s (set_released now (message e) max_attempts) jobs
        (λ j. kept_id now e j) gives h
    where
      kept_id :
          (t : ℕ) (x : Error) (j : IngestJob)
          → (set_released t (message x) max_attempts j).id ≡ j.id
      kept_id t x j =
          if_ind (λ (r : IngestJob). r.id ≡ j.id) (leb max_attempts j.attempts) (λ _. refl)
            (λ _. refl)

  finished_status :
      (now k : ℕ) (jobs : List IngestJob)
      → attempts_of job.id jobs ≡ some k
      → job_status job.id (finish now job.id none jobs) ≡ some JobStatus.succeeded
  unfolding finish set_finished is_error
  finished_status now k jobs h =
      status-update job.id k JobStatus.succeeded (set_finished now none) jobs (λ j. refl)
        (λ j e. refl) h

  released_pending :
      (now k : ℕ) (e : Error) (j : IngestJob)
      → k < max_attempts
      → j.attempts ≡ k
      → (set_released now (message e) max_attempts j).status ≡ JobStatus.pending
  unfolding set_released
  released_pending now k e j h same = ground (arith, h, same)

  released_failed :
      (now k : ℕ) (e : Error) (j : IngestJob)
      → max_attempts ≤ k
      → j.attempts ≡ k
      → (set_released now (message e) max_attempts j).status ≡ JobStatus.failed
  unfolding set_released
  released_failed now k e j h same = ground (arith, h, same)

  abbrev after_release : Error → Database → Database
  after_release e db = record db { jobs = release db.clock job.id (message e) max_attempts db.jobs }

  mark_kept :
      (e : Error) (db : Database)
      → job_status job.id db.jobs ≡ some JobStatus.pending
      → mark_failed message max_attempts job (message e) db ≡ db
  unfolding mark_failed is_failed
  mark_kept e db h = rw h refl

  mark_done :
      (e : Error) (db : Database)
      → job_status job.id db.jobs ≡ some JobStatus.failed
      → mark_failed message max_attempts job (message e) db
        ≡ set_document_status job.document_id DocumentStatus.failed (some (message e)) none false db
  unfolding mark_failed is_failed
  mark_done e db h = rw h refl

  retry-Recorded :
      (k : ℕ) (e : Error) (after : Database)
      → k < max_attempts
      → attempts_of job.id after.jobs ≡ some k
      → Recorded k after
          (mark_failed message max_attempts job (message e) (after_release e after))
          (err e)
  retry-Recorded k e after less h =
      let status =
        released_status after.clock k e JobStatus.pending after.jobs
          (λ j at. released_pending after.clock k e j less at) h in
      subst (λ (d : Database). Recorded k after d (err e))
        (sym (mark_kept e (after_release e after) status)) (Recorded.retry e less status refl)

  failure-Recorded :
      (k : ℕ) (e : Error) (after : Database)
      → max_attempts ≤ k
      → attempts_of job.id after.jobs ≡ some k
      → Recorded k after
          (mark_failed message max_attempts job (message e) (after_release e after))
          (err e)
  unfolding set_document_status
  failure-Recorded k e after more h =
      let status =
        released_status after.clock k e JobStatus.failed after.jobs
          (λ j at. released_failed after.clock k e j more at) h in
      subst (λ (d : Database). Recorded k after d (err e))
        (sym (mark_done e (after_release e after) status))
        (Recorded.failure e more status
          (marked_failed job.document_id after.clock (message e) after.documents))

  outcome-Recorded :
      (k : ℕ) (result : Result Error Unit) (after : Database)
      → attempts_of job.id after.jobs ≡ some k
      → Recorded k after (record_outcome message max_attempts job result after) result
  unfolding record_outcome
  outcome-Recorded k (ok tt) after h = Recorded.success (finished_status after.clock k after.jobs h)
  outcome-Recorded k (err e) after h = elim (Bool-cases (ltb k max_attempts)) [
    | inl t ↦ retry-Recorded k e after (ltb→lt k max_attempts t) h
    | inr t ↦ failure-Recorded k e after (ground (arith, t)) h
  ]

  -- Processing a job that is in the table and was claimed `attempts` times. When the run ends
  -- without an error, the job has succeeded. When it raises and attempts are left, the job is
  -- pending again and the documents are as the run left them. When it raises on the last attempt,
  -- the job has failed, and so has its document, with the error as its message.
  pub process-Recorded :
      (attempts : ℕ) (db : Database)
      → attempts_of job.id db.jobs ≡ some attempts
      → let r = run_job services settings true job db in
        Recorded attempts r.1 (process message max_attempts job services settings db) r.0
  unfolding process
  process-Recorded attempts db h =
      let r = run_job services settings true job db in
      outcome-Recorded attempts r.0 r.1 (run_job-Quiet job.id services settings true job db ∙ h)
