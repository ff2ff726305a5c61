-- ===== src/Queue/Claiming.antt =====
-- What a claim takes, and that claims which overlap never take the same job.
use mathlib.Core.List.{Memᴰ}
use doc_chat_platform.Sql.Laws.{
  DistinctBy, first_by-min, mem-select_where, All-of_select_where, count_where-update_one,
  length-select_where, first_by-none,
}
use doc_chat_platform.Sql.{select_where, count_where, update_where}
use doc_chat_platform.Base.{
  Bool, ℕ, List, All, ◌≤◌, ◌≡◌, some, none, true, ◌⊎◌, inl, [], inr, ◌+◌, false, sym, Option-cases,
  ◌∙◌, ap, length, refl,
}
use doc_chat_platform.Models.{IngestJob}
use doc_chat_platform.Queue.{
  has_id, claimable, candidate, by_created_at, mark_claimed, claim, claim_past-eq_none,
  claim_past-eq_some,
}

-- Two rows never share an id: `ingest_jobs.id` is the primary key.
abbrev pub DistinctIds : List IngestJob → Type 0
DistinctIds = DistinctBy (λ job. job.id)

-- A pending job; no claim holds it.
abbrev pub waiting : IngestJob → Bool
waiting = claimable []

-- The job that a claim picks: in the table, pending, not locked, and no such job is older.
pub record IsOldest (locked : List ℕ) (jobs : List IngestJob) (job : IngestJob) : Type 0 where
  pub stored : Memᴰ job jobs
  pub free : claimable locked job ≡ true
  pub oldest : All (λ other. claimable locked other ≡ true → job.created_at ≤ other.created_at) jobs

pub candidate-IsOldest :
    (locked : List ℕ) (jobs : List IngestJob) (job : IngestJob)
    → candidate locked jobs ≡ some job
    → IsOldest locked jobs job
unfolding candidate
candidate-IsOldest locked jobs job e =
    let (m, low) = first_by-min by_created_at (select_where (claimable locked) jobs) job e in
    let (stored, free) = mem-select_where (claimable locked) job jobs m in
    record {
      stored = stored;
      free = free;
      oldest =
          All-of_select_where (claimable locked) (λ other. job.created_at ≤ other.created_at) jobs
            low;
    }

candidate-none :
    (locked : List ℕ) (jobs : List IngestJob)
    → candidate locked jobs ≡ none
    → count_where (claimable locked) jobs ≡ 0
unfolding candidate
candidate-none locked jobs e =
    sym (length-select_where (claimable locked) jobs)
    ∙ ap length (first_by-none by_created_at (select_where (claimable locked) jobs) e)

not_waiting_claimed : (now : ℕ) (job : IngestJob) → waiting (mark_claimed now job) ≡ false
unfolding claimable mark_claimed
not_waiting_claimed now job = refl

-- A claim gives nothing and changes nothing only when no job waits; otherwise it gives the oldest
-- waiting job, now running with one more attempt, and one job fewer waits.
pub claim_lem :
    (now : ℕ) (jobs : List IngestJob)
    → DistinctIds jobs
    → ((claim now jobs ≡ (none, jobs)) × (count_where waiting jobs ≡ 0))
      ⊎ ((job : IngestJob) × IsOldest [] jobs job
          × ((claim now jobs).0 ≡ some (mark_claimed now job))
          × ((claim now jobs).1 ≡ update_where (has_id job.id) (mark_claimed now) jobs)
          × (count_where waiting (claim now jobs).1 + 1 ≡ count_where waiting jobs))
unfolding claim
claim_lem now jobs d = elim (Option-cases (candidate [] jobs)) [
  | inl e ↦ inl (claim_past-eq_none [] now jobs e, candidate-none [] jobs e)
  | inr (job, e) ↦
      let taken = claim_past-eq_some [] now jobs job e in
      let old = candidate-IsOldest [] jobs job e in
      inr (
        job,
        old,
        rw taken,
        rw taken,
        rw taken (
            count_where-update_one (λ x. x.id) waiting (mark_claimed now) job jobs d old.stored
              old.free (not_waiting_claimed now job)),
      )
]
