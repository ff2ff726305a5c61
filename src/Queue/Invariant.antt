-- ===== src/Queue/Invariant.antt =====
-- What holds of every row of the queue, whatever the order of the operations.
use doc_chat_platform.Base.{
  ℕ, ◌≤◌, ◌<◌, ◌≡◌, ◌≢◌, refl, inl, inr, Option, none, List, [], ◌∷◌, arith, All, All-append, map,
  Bool, Option-cases,
}
use doc_chat_platform.Text.{Text}
use doc_chat_platform.Sql.{update_where}
use doc_chat_platform.Sql.Laws.{All-update_where}
use doc_chat_platform.Models.{DocumentStatus, JobStatus, IngestJob, Checkpoint}
use doc_chat_platform.Queue.{
  enqueue, claim_past-eq_none, claim_past-eq_some, claim_past, candidate, heartbeat,
  update_progress, finish, release, reclaim_stalled, mark_claimed,
}

-- A row of the queue is sound.
pub record IsSound (job : IngestJob) : Type 0 where
  pub progress_bounded : job.progress_pct ≤ 100
  -- a running job was claimed, and shows a sign of life
  pub running_claimed : job.status ≡ JobStatus.running → 0 < job.attempts
  pub running_beats : job.status ≡ JobStatus.running → job.heartbeat_at ≢ none
  -- a job in a final state has the time at which it ended
  pub succeeded_finished : job.status ≡ JobStatus.succeeded → job.finished_at ≢ none
  pub failed_finished : job.status ≡ JobStatus.failed → job.finished_at ≢ none

abbrev pub IsSoundQueue : List IngestJob → Type 0
IsSoundQueue jobs = All IsSound jobs

-- The operations of the queue, as the program calls them.
pub data Op : Type 0 where
  enqueues : ℕ → ℕ → ℕ → Op
  claims : List ℕ → Op
  beats : ℕ → Op
  progresses : ℕ → Option DocumentStatus → Option ℕ → Option Checkpoint → Op
  finishes : ℕ → Option Text → Op
  releases : ℕ → Text → ℕ → Op
  reclaims : ℕ → Op

unfoldable pub step : ℕ → Op → List IngestJob → List IngestJob
step now (enqueues id w d) jobs = enqueue id now w d jobs
step now (claims locked) jobs = (claim_past locked now jobs).1
step now (beats i) jobs = heartbeat now i jobs
step now (progresses i stage pct cp) jobs = update_progress now i stage pct cp jobs
step now (finishes i error) jobs = finish now i error jobs
step now (releases i error n) jobs = release now i error n jobs
step now (reclaims timeout) jobs = (reclaim_stalled now timeout jobs).1

claim_past-IsSound :
    (locked : List ℕ) (now : ℕ) (jobs : List IngestJob)
    → IsSoundQueue jobs
    → IsSoundQueue (claim_past locked now jobs).1
claim_past-IsSound locked now jobs h = elim (Option-cases (candidate locked jobs)) [
  | inl e ↦ rw (claim_past-eq_none locked now jobs e) h
  | inr (job, e) ↦
      rw (claim_past-eq_some locked now jobs job e)
        (All-update_where IsSound _ _ jobs (λ x s p. unfold mark_claimed in ground arith) h)
]

-- Whatever operation comes next, with whatever arguments and at whatever time, every row of the
-- queue stays sound: its progress is at most 100, a running job has been claimed and shows a
-- heartbeat, and a succeeded or failed job has its finishing time.
pub step-IsSound :
    (now : ℕ) (op : Op) (jobs : List IngestJob)
    → IsSoundQueue jobs
    → IsSoundQueue (step now op jobs)
unfolding step enqueue heartbeat update_progress finish release reclaim_stalled
step-IsSound now (enqueues id w d) jobs h = All-append IsSound jobs _ h (ground arith, tt)
step-IsSound now (claims locked) jobs h = claim_past-IsSound locked now jobs h
step-IsSound now (beats i) jobs h = All-update_where IsSound _ _ jobs (λ x s e. ground arith) h
step-IsSound now (progresses i stage pct cp) jobs h =
    All-update_where IsSound _ _ jobs (λ x s e. ground arith) h
step-IsSound now (finishes i error) jobs h =
    All-update_where IsSound _ _ jobs (λ x s e. ground arith) h
step-IsSound now (releases i error n) jobs h =
    All-update_where IsSound _ _ jobs (λ x s e. ground arith) h
step-IsSound now (reclaims timeout) jobs h =
    All-update_where IsSound _ _ jobs (λ x s e. ground arith) h

pub run : List (ℕ × Op) → List IngestJob → List IngestJob
run [] jobs = jobs
run ((now, op) ∷ ops) jobs = run ops (step now op jobs)

-- Every row is sound after any history of operations, when every row was sound at its start (as
-- in an empty table).
pub run-IsSound :
    (ops : List (ℕ × Op)) (jobs : List IngestJob) → IsSoundQueue jobs → IsSoundQueue (run ops jobs)
unfolding run
run-IsSound [] jobs h = h
run-IsSound ((now, op) ∷ ops) jobs h =
    run-IsSound ops (step now op jobs) (step-IsSound now op jobs h)

-- What an operation may take from a job for a resumed run: nothing but `update_progress` writes it.
abbrev pub resume_points : List IngestJob → List (ℕ × Checkpoint)
resume_points jobs = map (λ job. (job.id, job.checkpoint)) jobs

resume_points-update_where :
    (p : IngestJob → Bool) (f : IngestJob → IngestJob) (jobs : List IngestJob)
    → ((job : IngestJob) → ((f job).id ≡ job.id) × ((f job).checkpoint ≡ job.checkpoint))
    → resume_points (update_where p f jobs) ≡ resume_points jobs
unfolding update_where
resume_points-update_where p f [] keep = refl
resume_points-update_where p f (job ∷ jobs) keep =
    ground (arith, keep job, resume_points-update_where p f jobs keep)

-- The operations that a job meets between two runs of it.
abbrev pub BetweenRuns : Op → Type 0
BetweenRuns (enqueues id w d) = ⊥
BetweenRuns (progresses i stage pct cp) = ⊥
BetweenRuns _ = Unit

resume_points-claim_past :
    (locked : List ℕ) (now : ℕ) (jobs : List IngestJob)
    → resume_points (claim_past locked now jobs).1 ≡ resume_points jobs
resume_points-claim_past locked now jobs = elim (Option-cases (candidate locked jobs)) [
  | inl e ↦ rw (claim_past-eq_none locked now jobs e)
  | inr (job, e) ↦
      rw (claim_past-eq_some locked now jobs job e)
        (resume_points-update_where _ _ jobs (λ x. unfold mark_claimed in (refl, refl)))
]

-- Claims, heartbeats, the end of a run, its release and the sweep for stalled jobs leave the
-- checkpoint of every job as it was, so that a retry resumes where the last run stopped.
pub step-resume_points :
    (now : ℕ) (op : Op) (jobs : List IngestJob)
    → BetweenRuns op
    → resume_points (step now op jobs) ≡ resume_points jobs
unfolding step heartbeat finish release reclaim_stalled
step-resume_points now (enqueues id w d) jobs b = absurd b
step-resume_points now (progresses i stage pct cp) jobs b = absurd b
step-resume_points now (claims locked) jobs b = resume_points-claim_past locked now jobs
step-resume_points now (beats i) jobs b = resume_points-update_where _ _ jobs (λ x. (refl, refl))
step-resume_points now (finishes i error) jobs b =
    resume_points-update_where _ _ jobs (λ x. (refl, refl))
step-resume_points now (releases i error n) jobs b =
    resume_points-update_where _ _ jobs (λ x. ground arith)
step-resume_points now (reclaims timeout) jobs b =
    resume_points-update_where _ _ jobs (λ x. (refl, refl))
