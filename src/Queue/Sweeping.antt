-- ===== src/Queue/Sweeping.antt =====
-- The sweep for stalled jobs, and what becomes of a job whose run failed.
use doc_chat_platform.Sql.Laws.{count_where-update_where}
use doc_chat_platform.Text.{Text}
use doc_chat_platform.Sql.{count_where, update_where}
use doc_chat_platform.Base.{
  ℕ, List, ◌≡◌, some, true, ◌∷◌, false, refl, ◌<◌, arith, ◌+◌, none, ◌≤◌, [], inl, inr, ◌⊎◌,
  Bool-cases, ltb, ltb→lt,
}
use doc_chat_platform.Models.{IngestJob, JobStatus, DocumentStatus, is_pending, is_running}
use doc_chat_platform.Queue.{
  is_stalled, set_reclaimed, reclaim_stalled, last_sign, pending_count, is_active, set_released,
}

not_stalled :
    (now timeout : ℕ) (job : IngestJob) → is_stalled now timeout (set_reclaimed job) ≡ false
unfolding is_stalled set_reclaimed
not_stalled now timeout job = refl

count-swept :
    (now timeout : ℕ) (jobs : List IngestJob)
    → count_where
        (is_stalled now timeout)
        (update_where (is_stalled now timeout) set_reclaimed jobs)
      ≡ 0
unfolding count_where update_where
count-swept now timeout [] = refl
count-swept now timeout (job ∷ jobs) =
    ground (arith, not_stalled now timeout job, count-swept now timeout jobs)

still_active :
    (now timeout : ℕ) (job : IngestJob)
    → is_stalled now timeout job ≡ true
    → is_active (set_reclaimed job).status ≡ is_active job.status
unfolding is_stalled set_reclaimed is_pending is_running
still_active now timeout job h = ground arith

-- After a sweep no job is stalled, as many jobs are pending or running as before, and the sweep
-- reports how many were stalled.
pub reclaim_stalled_lem :
    (now timeout : ℕ) (jobs : List IngestJob)
    → (count_where (is_stalled now timeout) (reclaim_stalled now timeout jobs).1 ≡ 0)
      × (pending_count (reclaim_stalled now timeout jobs).1 ≡ pending_count jobs)
      × ((reclaim_stalled now timeout jobs).0 ≡ count_where (is_stalled now timeout) jobs)
unfolding reclaim_stalled pending_count
reclaim_stalled_lem now timeout jobs = (
  count-swept now timeout jobs,
  count_where-update_where _ _ _ jobs (still_active now timeout),
  refl,
)

stalled_late :
    (now timeout t : ℕ) (job : IngestJob)
    → job.status ≡ JobStatus.running
    → last_sign job ≡ some t
    → t + timeout < now
    → is_stalled now timeout job ≡ true
unfolding is_stalled is_running last_sign
stalled_late now timeout t job r s late = ground arith

stalled_fresh :
    (now timeout t : ℕ) (job : IngestJob)
    → job.status ≡ JobStatus.running
    → last_sign job ≡ some t
    → now ≤ t + timeout
    → is_stalled now timeout job ≡ false
unfolding is_stalled is_running last_sign
stalled_fresh now timeout t job r s fresh = ground arith

-- What the sweep does to the first row of a table, of a running job whose last sign of life was at
-- `t`: it is pending again when that is longer ago than the timeout, and is left as it was when it
-- is within the timeout; the rest of the table is swept alike.
pub swept-row :
    (now timeout t : ℕ) (job : IngestJob) (jobs : List IngestJob)
    → job.status ≡ JobStatus.running
    → last_sign job ≡ some t
    → (((t + timeout < now)
          × ((reclaim_stalled now timeout (job ∷ jobs)).1
              ≡ record job { status = JobStatus.pending; heartbeat_at = none }
                ∷ (reclaim_stalled now timeout jobs).1))
        ⊎ ((now ≤ t + timeout)
            × ((reclaim_stalled now timeout (job ∷ jobs)).1
                ≡ job ∷ (reclaim_stalled now timeout jobs).1)))
unfolding reclaim_stalled is_stalled set_reclaimed update_where is_running
swept-row now timeout t job jobs r s = elim (Bool-cases (ltb (t + timeout) now)) [
  | inl e ↦
      let late = ltb→lt (t + timeout) now e in
      inl (late, rw (stalled_late now timeout t job r s late) refl)
  | inr e ↦
      let fresh : now ≤ t + timeout = ground (arith, e) in
      inr (fresh, rw (stalled_fresh now timeout t job r s fresh) refl)
]

-- A job whose run failed keeps its checkpoint, its attempts and its progress, and gets the error as
-- its message. It goes back to the queue while it has attempts left, and is failed for good, its
-- stage too, once it has none.
pub set_released_lem :
    (now max_attempts : ℕ) (error : Text) (job : IngestJob)
    → let job' = set_released now error max_attempts job in
      ((job'.checkpoint ≡ job.checkpoint)
        × (job'.attempts ≡ job.attempts)
        × (job'.progress_pct ≡ job.progress_pct)
        × (job'.error_message ≡ some error))
      × (((job.attempts < max_attempts) × (job'.status ≡ JobStatus.pending))
          ⊎ ((max_attempts ≤ job.attempts)
              × (job'.status ≡ JobStatus.failed)
              × (job'.stage ≡ DocumentStatus.failed)))
unfolding set_released
set_released_lem now max_attempts error job = (
  (ground arith, ground arith, ground arith, ground arith),
  elim (Bool-cases (ltb job.attempts max_attempts)) [
    | inl e ↦ inl (ltb→lt _ _ e, ground (arith, e))
    | inr e ↦ inr (ground (arith, e), ground (arith, e), ground (arith, e))
  ],
)
