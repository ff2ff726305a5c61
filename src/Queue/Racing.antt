-- ===== src/Queue/Racing.antt =====
-- Several workers claim at once (app/workers/queue.py: FOR UPDATE SKIP LOCKED). A claim picks a
-- row and locks it; it commits later, or its transaction is rolled back, while other claims run.
use mathlib.Core.Path.{subst}
use doc_chat_platform.Sql.Laws.{All-delete_where, All_mem}
use mathlib.Core.List.{Memᴰ}
use doc_chat_platform.Base.{
  List, ◌≡◌, ℕ, ◌∷◌, All, ◌==◌, some, true, false, Bool-cases, arith, inl, inr, ==_iff, [], refl,
  Bool, if◌then◌else◌,
}
use doc_chat_platform.Sql.{delete_where, update_where}
use doc_chat_platform.Models.{IngestJob, is_pending}
use doc_chat_platform.Queue.{has_id, among, claimable, candidate, mark_claimed}
use doc_chat_platform.Queue.Claiming.{candidate-IsOldest}

-- The table as committed, the rows that open claims hold locked, and the ids of the jobs that
-- committed claims have handed out, the last one first.
pub record Race : Type 0 where
  pub jobs : List IngestJob
  pub locked : List ℕ
  pub won : List ℕ

abbrev pub unlock : ℕ → List ℕ → List ℕ
unlock i locked = delete_where (λ j. j == i) locked

unfoldable pub pick : IngestJob → Race → Race
pick job s = record s { locked = job.id ∷ s.locked }

unfoldable pub commit : ℕ → ℕ → Race → Race
unfolding mark_claimed
commit now i s = record s {
  jobs = update_where (has_id i) (mark_claimed now) s.jobs;
  locked = unlock i s.locked;
  won = i ∷ s.won;
}

unfoldable pub rollback : ℕ → Race → Race
rollback i s = record s { locked = unlock i s.locked }

pub data Step : Race → Race → Type 0 where
  picks : (s : Race) (job : IngestJob) → candidate s.locked s.jobs ≡ some job → Step s (pick job s)
  commits : (s : Race) (now i : ℕ) → among s.locked i ≡ true → Step s (commit now i s)
  rolls_back : (s : Race) (i : ℕ) → Step s (rollback i s)

pub data Reach (s : Race) : Race → Type 0 where
  here : Reach s s
  next : {t u : Race} → Reach s t → Step t u → Reach s u

abbrev pub Distinct : List ℕ → Type 0
Distinct [] = Unit
Distinct (i ∷ is) = (among is i ≡ false) × Distinct is

pub record IsFair (s : Race) : Type 0 where
  -- no two open claims hold one job, no two committed claims got one, and no open claim holds a
  -- job that a committed claim got
  pub open_apart : Distinct s.locked
  pub won_apart : Distinct s.won
  pub not_both : All (λ i. among s.won i ≡ false) s.locked
  -- a job that was handed out is not pending
  pub won_running : All (λ job. among s.won job.id ≡ true → is_pending job.status ≡ false) s.jobs

among-unlock : (i j : ℕ) (xs : List ℕ) → among xs j ≡ false → among (unlock i xs) j ≡ false
unfolding delete_where
among-unlock i j [] h = refl
among-unlock i j (x ∷ xs) h = ground (arith, among-unlock i j xs)

Distinct-unlock : (i : ℕ) (xs : List ℕ) → Distinct xs → Distinct (unlock i xs)
unfolding delete_where
Distinct-unlock i [] h = tt
Distinct-unlock i (x ∷ xs) h = elim (Bool-cases (x == i)) [
  | inl e ↦ rw e (Distinct-unlock i xs h.1)
  | inr e ↦ rw e (among-unlock i x xs h.0, Distinct-unlock i xs h.1)
]

All-among : (xs : List ℕ) (i : ℕ) (P : ℕ → Type 0) → All P xs → among xs i ≡ true → P i
All-among [] i P h t = cc
All-among (x ∷ xs) i P h t = elim (Bool-cases (x == i)) [
  | inl e ↦ subst P ((==_iff x i).0 e) h.0
  | inr e ↦ All-among xs i P h.1 (rw e at t)
]

not_both-unlock :
    (i : ℕ) (won xs : List ℕ)
    → All (λ j. among won j ≡ false) xs
    → All (λ j. among (i ∷ won) j ≡ false) (unlock i xs)
unfolding delete_where
not_both-unlock i won [] h = tt
not_both-unlock i won (x ∷ xs) h = elim (Bool-cases (x == i)) [
  | inl e ↦ rw e (not_both-unlock i won xs h.1)
  | inr e ↦ rw e (ground arith, not_both-unlock i won xs h.1)
]

won_running-row :
    (b : Bool) (now i : ℕ) (won : List ℕ) (job : IngestJob)
    → has_id i job ≡ b
    → (among won job.id ≡ true → is_pending job.status ≡ false)
    → among (i ∷ won) (if b then mark_claimed now job else job).id ≡ true
    → is_pending (if b then mark_claimed now job else job).status ≡ false
unfolding mark_claimed is_pending
won_running-row true now i won job e h t = refl
won_running-row false now i won job e h t = h (ground arith)

won_running-commit :
    (now i : ℕ) (won : List ℕ) (jobs : List IngestJob)
    → All (λ job. among won job.id ≡ true → is_pending job.status ≡ false) jobs
    → All
        (λ job. among (i ∷ won) job.id ≡ true → is_pending job.status ≡ false)
        (update_where (has_id i) (mark_claimed now) jobs)
unfolding update_where mark_claimed is_pending
won_running-commit now i won [] h = tt
won_running-commit now i won (job ∷ jobs) h =
    (won_running-row (has_id i job) now i won job refl h.0, won_running-commit now i won jobs h.1)

All-mem-won :
    (won : List ℕ) (job : IngestJob) (jobs : List IngestJob)
    → All (λ x. among won x.id ≡ true → is_pending x.status ≡ false) jobs
    → Memᴰ job jobs
    → is_pending job.status ≡ true
    → among won job.id ≡ false
All-mem-won won job jobs h m t = elim (Bool-cases (among won job.id)) [
  | inl e ↦ cc (All_mem (λ x. among won x.id ≡ true → is_pending x.status ≡ false) job jobs h m e)
  | inr e ↦ e
]

claimable_parts :
    (locked : List ℕ) (job : IngestJob)
    → claimable locked job ≡ true
    → (is_pending job.status ≡ true) × (among locked job.id ≡ false)
unfolding claimable
claimable_parts locked job h = ground arith

Step-IsFair : {s t : Race} → Step s t → IsFair s → IsFair t
unfolding pick commit rollback
Step-IsFair (picks s job e) v =
    let old = candidate-IsOldest s.locked s.jobs job e in
    let (pending, unlocked) = claimable_parts s.locked job old.free in
    record {
      open_apart = (unlocked, v.open_apart);
      won_apart = v.won_apart;
      not_both = (All-mem-won s.won job s.jobs v.won_running old.stored pending, v.not_both);
      won_running = v.won_running;
    }
Step-IsFair (commits s now i held) v = record {
  open_apart = Distinct-unlock i s.locked v.open_apart;
  won_apart = (All-among s.locked i (λ j. among s.won j ≡ false) v.not_both held, v.won_apart);
  not_both = not_both-unlock i s.won s.locked v.not_both;
  won_running = won_running-commit now i s.won s.jobs v.won_running;
}
Step-IsFair (rolls_back s i) v = record {
  open_apart = Distinct-unlock i s.locked v.open_apart;
  won_apart = v.won_apart;
  not_both = All-delete_where (λ j. among s.won j ≡ false) _ s.locked v.not_both;
  won_running = v.won_running;
}

-- However any number of claims interleave, with commits and rollbacks in any order, no job is
-- handed out twice, no two open claims hold one job, and no job that was handed out is pending.
pub Reach-IsFair : {s t : Race} → Reach s t → IsFair s → IsFair t
Reach-IsFair here v = v
Reach-IsFair (next r st) v = Step-IsFair st (Reach-IsFair r v)
