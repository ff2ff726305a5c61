-- ===== src/Queue.antt =====
-- app/workers/queue.py: the job queue, over the rows of `ingest_jobs`. The database's now() is an
-- argument, and so is the id that uuid4() returns.
pub mod Invariant
pub mod Claiming
pub mod Sweeping
pub mod Racing
use doc_chat_platform.Base.{
  ℕ, suc, ◌+◌, ◌-◌, Bool, true, false, ◌&&◌, ◌||◌, not, Option, none, some, List, [], ◌∷◌, ◌++◌,
  ltb, leb, ◌==◌, if◌then◌else◌, is_none, is_some, min, max, get_or_else, any, length, ◌≡◌,
}
use doc_chat_platform.Text.{Text}
use doc_chat_platform.Sql.{select_where, update_where, count_where, find_where, first_by}
use doc_chat_platform.Models.{
  DocumentStatus, JobStatus, IngestJob, Checkpoint, empty_checkpoint, is_pending, is_running,
}

abbrev pub has_id : ℕ → IngestJob → Bool
has_id i job = job.id == i

unfoldable pub new_job : ℕ → ℕ → ℕ → ℕ → IngestJob
new_job id now workspace_id document_id = record {
  id = id;
  workspace_id = workspace_id;
  document_id = document_id;
  status = JobStatus.pending;
  stage = DocumentStatus.pending;
  progress_pct = 0;
  error_message = none;
  checkpoint = empty_checkpoint;
  attempts = 0;
  heartbeat_at = none;
  started_at = none;
  finished_at = none;
  created_at = now;
}

unfoldable pub enqueue : ℕ → ℕ → ℕ → ℕ → List IngestJob → List IngestJob
unfolding new_job
enqueue id now workspace_id document_id jobs = jobs ++ new_job id now workspace_id document_id ∷ []

-- `job.id in ids`
abbrev pub among : List ℕ → ℕ → Bool
among ids i = any (λ j. j == i) ids

-- The rows that the claim's subquery may take: pending, and not locked by another transaction
-- (FOR UPDATE SKIP LOCKED).
unfoldable pub claimable : List ℕ → IngestJob → Bool
unfolding is_pending
claimable locked job = is_pending job.status && not (among locked job.id)

abbrev pub by_created_at : IngestJob → ℕ
by_created_at job = job.created_at

unfoldable pub candidate : List ℕ → List IngestJob → Option IngestJob
candidate locked jobs = first_by by_created_at (select_where (claimable locked) jobs)

-- The SET clause of the claim.
unfoldable pub mark_claimed : ℕ → IngestJob → IngestJob
mark_claimed now job = record job {
  status = JobStatus.running;
  attempts = job.attempts + 1;
  started_at = some now;
  heartbeat_at = some now;
  error_message = none;
}

-- The claim with the jobs that other transactions hold locked; RETURNING gives the new row.
unfoldable pub claim_past : List ℕ → ℕ → List IngestJob → Option IngestJob × List IngestJob
claim_past locked now jobs = elim (candidate locked jobs) [
  | none ↦ (none, jobs)
  | some job ↦ (some (mark_claimed now job), update_where (has_id job.id) (mark_claimed now) jobs)
]

pub claim_past-eq_none :
    (locked : List ℕ) (now : ℕ) (jobs : List IngestJob)
    → candidate locked jobs ≡ none
    → claim_past locked now jobs ≡ (none, jobs)
unfolding claim_past
claim_past-eq_none locked now jobs e = rw (e, claim_past)

pub claim_past-eq_some :
    (locked : List ℕ) (now : ℕ) (jobs : List IngestJob) (job : IngestJob)
    → candidate locked jobs ≡ some job
    → claim_past locked now jobs
      ≡ (some (mark_claimed now job), update_where (has_id job.id) (mark_claimed now) jobs)
unfolding claim_past
claim_past-eq_some locked now jobs job e = rw (e, claim_past)

unfoldable pub claim : ℕ → List IngestJob → Option IngestJob × List IngestJob
claim now jobs = claim_past [] now jobs

unfoldable pub heartbeat : ℕ → ℕ → List IngestJob → List IngestJob
heartbeat now job_id jobs =
    update_where (has_id job_id) (λ job. record job { heartbeat_at = some now }) jobs

-- `max(0, min(100, p))`: the percentages that the program computes are not negative
unfoldable pub clamp_pct : ℕ → ℕ
clamp_pct p = min 100 p

unfoldable pub set_progress :
    ℕ → Option DocumentStatus → Option ℕ → Option Checkpoint → IngestJob → IngestJob
unfolding clamp_pct
set_progress now stage progress_pct checkpoint job = record job {
  heartbeat_at = some now;
  stage = get_or_else stage job.stage;
  progress_pct = elim progress_pct [ none ↦ job.progress_pct | some p ↦ clamp_pct p ];
  checkpoint = get_or_else checkpoint job.checkpoint;
}

unfoldable pub update_progress :
    ℕ → ℕ → Option DocumentStatus → Option ℕ → Option Checkpoint → List IngestJob → List IngestJob
unfolding set_progress
update_progress now job_id stage progress_pct checkpoint jobs =
    update_where (has_id job_id) (set_progress now stage progress_pct checkpoint) jobs

-- `if error`: an empty message counts as none
unfoldable pub is_error : Option Text → Bool
is_error none = false
is_error (some []) = false
is_error (some (c ∷ cs)) = true

unfoldable pub set_finished : ℕ → Option Text → IngestJob → IngestJob
unfolding is_error
set_finished now error job = record job {
  status = if is_error error then JobStatus.failed else JobStatus.succeeded;
  stage = if is_error error then DocumentStatus.failed else DocumentStatus.ready;
  progress_pct = if is_error error then job.progress_pct else 100;
  error_message = error;
  finished_at = some now;
}

unfoldable pub finish : ℕ → ℕ → Option Text → List IngestJob → List IngestJob
unfolding set_finished
finish now job_id error jobs = update_where (has_id job_id) (set_finished now error) jobs

unfoldable pub set_released : ℕ → Text → ℕ → IngestJob → IngestJob
set_released now error max_attempts job =
    if leb max_attempts job.attempts
    then record job {
      status = JobStatus.failed;
      stage = DocumentStatus.failed;
      error_message = some error;
      finished_at = some now;
    }
    else record job { status = JobStatus.pending; error_message = some error; heartbeat_at = none }

unfoldable pub release : ℕ → ℕ → Text → ℕ → List IngestJob → List IngestJob
unfolding set_released
release now job_id error max_attempts jobs =
    update_where (has_id job_id) (set_released now error max_attempts) jobs

-- coalesce(heartbeat_at, started_at)
unfoldable pub last_sign : IngestJob → Option ℕ
last_sign job = elim job.heartbeat_at [ none ↦ job.started_at | some t ↦ some t ]

-- `last_sign < now - timeout`, which is NULL, and so no match, when there is no time; written
-- without the subtraction, since now - timeout may lie before the origin of the numbers
unfoldable pub is_stalled : ℕ → ℕ → IngestJob → Bool
unfolding is_running
is_stalled now timeout job =
    is_running job.status && elim (last_sign job) [ none ↦ false | some t ↦ ltb (t + timeout) now ]

unfoldable pub set_reclaimed : IngestJob → IngestJob
set_reclaimed job = record job { status = JobStatus.pending; heartbeat_at = none }

-- The count and the new rows.
unfoldable pub reclaim_stalled : ℕ → ℕ → List IngestJob → ℕ × List IngestJob
unfolding is_stalled set_reclaimed
reclaim_stalled now timeout jobs = (
  count_where (is_stalled now timeout) jobs,
  update_where (is_stalled now timeout) set_reclaimed jobs,
)

abbrev pub is_active : JobStatus → Bool
is_active status = is_pending status || is_running status

unfoldable pub pending_count : List IngestJob → ℕ
unfolding is_pending is_running
pending_count jobs = count_where (λ job. is_active job.status) jobs

abbrev pub status_in : Option IngestJob → Option JobStatus
status_in none = none
status_in (some job) = some job.status

-- SELECT status WHERE id = job_id, as worker.py reads it back
unfoldable pub job_status : ℕ → List IngestJob → Option JobStatus
job_status job_id jobs = status_in (find_where (has_id job_id) jobs)
