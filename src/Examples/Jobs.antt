-- ===== src/Examples/Jobs.antt =====
-- The queue on two jobs, one running and one waiting.
use doc_chat_platform.Queue.Sweeping.{reclaim_stalled_lem, swept-row}
use doc_chat_platform.Queue.Claiming.{waiting, IsOldest, claim_lem}
use doc_chat_platform.Text.{codes}
use doc_chat_platform.Examples.{sample_database, sample_job, waiting_job}
use doc_chat_platform.Sql.{count_where, update_where, first_by, select_where}
use doc_chat_platform.Queue.Racing.{IsFair, Race, commit, pick, Reach, Step, Reach-IsFair}
use doc_chat_platform.Sql.Laws.{DistinctBy}
use doc_chat_platform.Models.{IngestJob, is_pending, JobStatus}
use doc_chat_platform.Queue.Invariant.{IsSoundQueue, Op, run, run-IsSound}
use doc_chat_platform.Queue.{
  has_id, candidate, last_sign, claim, claimable, is_stalled, reclaim_stalled, pending_count,
  mark_claimed,
}
use doc_chat_platform.Base.{[], none, some, refl, arith, List, ℕ, ◌+◌, ◌≡◌, ◌<◌, ◌∷◌, ◌⊎◌, ◌≤◌}

abbrev jobs : List IngestJob
jobs = sample_database.jobs

jobs-DistinctIds : DistinctBy (λ (j : IngestJob). j.id) jobs
jobs-DistinctIds = (((λ e. absurd (omega (arith, e))), tt), (tt, tt))

claim_lem_example :
    ((claim 300 jobs ≡ (none, jobs)) × (count_where waiting jobs ≡ 0))
    ⊎ ((job : IngestJob) × IsOldest [] jobs job
        × ((claim 300 jobs).0 ≡ some (mark_claimed 300 job))
        × ((claim 300 jobs).1 ≡ update_where (has_id job.id) (mark_claimed 300) jobs)
        × (count_where waiting (claim 300 jobs).1 + 1 ≡ count_where waiting jobs))
claim_lem_example = claim_lem 300 jobs jobs-DistinctIds

jobs-IsSoundQueue : IsSoundQueue jobs
jobs-IsSoundQueue = (ground arith, (ground arith, tt))

abbrev past_calls : List (ℕ × Op)
past_calls =
    (300, Op.claims [])
    ∷ (310, Op.beats 8)
    ∷ (320, Op.releases 8 (codes "busy") 3)
    ∷ (900, Op.reclaims 600)
    ∷ (910, Op.claims (7 ∷ []))
    ∷ (920, Op.finishes 8 none)
    ∷ []

run-IsSound_example : IsSoundQueue (run past_calls jobs)
run-IsSound_example = run-IsSound past_calls jobs jobs-IsSoundQueue

reclaim_stalled_lem_example :
    (count_where (is_stalled 900 600) (reclaim_stalled 900 600 jobs).1 ≡ 0)
    × (pending_count (reclaim_stalled 900 600 jobs).1 ≡ pending_count jobs)
    × ((reclaim_stalled 900 600 jobs).0 ≡ count_where (is_stalled 900 600) jobs)
reclaim_stalled_lem_example = reclaim_stalled_lem 900 600 jobs

swept-row_example :
    ((100 + 600 < 900)
      × ((reclaim_stalled 900 600 (sample_job ∷ [])).1
          ≡ record sample_job { status = JobStatus.pending; heartbeat_at = none }
            ∷ (reclaim_stalled 900 600 []).1))
    ⊎ ((900 ≤ 100 + 600)
        × ((reclaim_stalled 900 600 (sample_job ∷ [])).1
            ≡ sample_job ∷ (reclaim_stalled 900 600 []).1))
unfolding last_sign
swept-row_example = swept-row 900 600 100 sample_job [] refl refl

abbrev race : Race
race = record { jobs = jobs; locked = []; won = [] }

race-IsFair : IsFair race
race-IsFair = record {
  open_apart = tt;
  won_apart = tt;
  not_both = tt;
  won_running = ((λ e. cc), ((λ e. cc), tt));
}

-- One claim picks the waiting job and commits.
race_won : Reach race (commit 300 8 (pick waiting_job race))
unfolding candidate claimable is_pending pick first_by select_where
race_won =
    Reach.next (Reach.next Reach.here (Step.picks race waiting_job refl))
      (Step.commits (pick waiting_job race) 300 8 refl)

Reach-IsFair_example : IsFair (commit 300 8 (pick waiting_job race))
Reach-IsFair_example = Reach-IsFair race_won race-IsFair
