-- ===== src/Workspaces/Dashboard.antt =====
-- The counts of a workspace add up.
use doc_chat_platform.Ingest.{in_workspace}
use doc_chat_platform.Chat.{is_processing, is_working, has_ready_status}
use doc_chat_platform.Database.{Database}
use doc_chat_platform.Sql.{count_where, select_where}
use doc_chat_platform.Workspaces.{
  group_by_status, sum_counts, push_group, statuses, has_status, count_for, same_status,
  workspace_counts, not_terminal, counts_from,
}
use doc_chat_platform.Models.{DocumentStatus, Document, is_ready}
use doc_chat_platform.Base.{
  [], zero, suc, refl, arith, List, ℕ, ◌≡◌, length, ◌+◌, ◌∷◌, true, false, Bool, if◌then◌else◌, ◌∙◌,
}

abbrev one_if : Bool → ℕ
one_if true = 1
one_if false = 0

count_where-cons :
    (p : Document → Bool) (d : Document) (ds : List Document)
    → count_where p (d ∷ ds) ≡ one_if (p d) + count_where p ds
unfolding count_where
count_where-cons p d ds = ground arith

-- The five statuses in which a document is worked on.
abbrev ones : DocumentStatus → ℕ
ones s =
    one_if (same_status DocumentStatus.pending s)
    + one_if (same_status DocumentStatus.parsing s)
    + one_if (same_status DocumentStatus.profiling s)
    + one_if (same_status DocumentStatus.chunking s)
    + one_if (same_status DocumentStatus.embedding s)

one_status :
    (s : DocumentStatus)
    → (ones s ≡ one_if (is_working s))
      × (ones s
            + one_if (same_status DocumentStatus.ready s)
            + one_if (same_status DocumentStatus.failed s)
          ≡ 1)
      × (one_if (same_status DocumentStatus.ready s) ≡ one_if (is_ready s))
unfolding same_status is_working is_ready
one_status DocumentStatus.pending = (refl, refl, refl)
one_status DocumentStatus.parsing = (refl, refl, refl)
one_status DocumentStatus.profiling = (refl, refl, refl)
one_status DocumentStatus.chunking = (refl, refl, refl)
one_status DocumentStatus.embedding = (refl, refl, refl)
one_status DocumentStatus.ready = (refl, refl, refl)
one_status DocumentStatus.failed = (refl, refl, refl)

abbrev number : DocumentStatus → List Document → ℕ
number s documents = count_where (has_status s) documents

abbrev working : List Document → ℕ
working ds =
    number DocumentStatus.pending ds
    + number DocumentStatus.parsing ds
    + number DocumentStatus.profiling ds
    + number DocumentStatus.chunking ds
    + number DocumentStatus.embedding ds

numbers_add :
    (ds : List Document)
    → (working ds ≡ count_where is_processing ds)
      × (working ds + number DocumentStatus.ready ds + number DocumentStatus.failed ds ≡ length ds)
      × (number DocumentStatus.ready ds ≡ count_where has_ready_status ds)
numbers_add [] = unfold count_where in (refl, refl, refl)
numbers_add (d ∷ ds) =
    let ih = numbers_add ds in
    let one = one_status d.status in
    rw
      (
        count_where-cons (has_status DocumentStatus.pending) d ds,
        count_where-cons (has_status DocumentStatus.parsing) d ds,
        count_where-cons (has_status DocumentStatus.profiling) d ds,
        count_where-cons (has_status DocumentStatus.chunking) d ds,
        count_where-cons (has_status DocumentStatus.embedding) d ds,
        count_where-cons (has_status DocumentStatus.ready) d ds,
        count_where-cons (has_status DocumentStatus.failed) d ds,
        count_where-cons is_processing d ds,
        count_where-cons has_ready_status d ds,
      )
      (omega (arith, ih, one), omega (arith, ih, one), omega (arith, ih, one))

-- What a group adds to the sums and the look-ups.
sum-push_group :
    (s : DocumentStatus) (n : ℕ) (groups : List (DocumentStatus × ℕ))
    → sum_counts (push_group s n groups) ≡ n + sum_counts groups
unfolding sum_counts
sum-push_group s zero groups = omega arith
sum-push_group s (suc n) groups = refl

sum-select_push :
    (s : DocumentStatus) (n : ℕ) (groups : List (DocumentStatus × ℕ))
    → sum_counts (select_where not_terminal (push_group s n groups))
      ≡ (if is_working s then n else 0) + sum_counts (select_where not_terminal groups)
unfolding sum_counts select_where
sum-select_push s zero groups = ground arith
sum-select_push s (suc n) groups = ground arith

sum-no_groups : sum_counts [] ≡ 0
unfolding sum_counts
sum-no_groups = refl

select-no_groups : sum_counts (select_where not_terminal []) ≡ 0
unfolding sum_counts select_where
select-no_groups = refl

count_for-push_other :
    (s t : DocumentStatus)
    → same_status s t ≡ false
    → (n : ℕ) (groups : List (DocumentStatus × ℕ))
    → count_for s (push_group t n groups) ≡ count_for s groups
unfolding count_for
count_for-push_other s t ne zero groups = refl
count_for-push_other s t ne (suc n) groups = rw ne

count_for-push_same :
    (s : DocumentStatus) (n : ℕ) (groups : List (DocumentStatus × ℕ))
    → same_status s s ≡ true
    → count_for s groups ≡ 0
    → count_for s (push_group s n groups) ≡ n
unfolding count_for
count_for-push_same s zero groups e h = h
count_for-push_same s (suc n) groups e h = rw e

module _ (ds : List Document) where
  sum-groups :
      sum_counts (group_by_status ds statuses)
      ≡ working ds + number DocumentStatus.ready ds + number DocumentStatus.failed ds
  unfolding group_by_status
  sum-groups = omega (arith, sum-push_group, sum-no_groups)

  sum-working : sum_counts (select_where not_terminal (group_by_status ds statuses)) ≡ working ds
  unfolding group_by_status is_working
  sum-working = omega (arith, sum-select_push, select-no_groups)

  count_for-ready :
      count_for DocumentStatus.ready (group_by_status ds statuses) ≡ number DocumentStatus.ready ds
  unfolding group_by_status same_status count_for
  count_for-ready =
      rw
        (
          count_for-push_other DocumentStatus.ready DocumentStatus.pending refl,
          count_for-push_other DocumentStatus.ready DocumentStatus.parsing refl,
          count_for-push_other DocumentStatus.ready DocumentStatus.profiling refl,
          count_for-push_other DocumentStatus.ready DocumentStatus.chunking refl,
          count_for-push_other DocumentStatus.ready DocumentStatus.embedding refl,
        )
        (count_for-push_same DocumentStatus.ready (number DocumentStatus.ready ds) _ refl (
          count_for-push_other DocumentStatus.ready DocumentStatus.failed refl
            (number DocumentStatus.failed ds) []))

  count_for-failed :
      count_for DocumentStatus.failed (group_by_status ds statuses)
      ≡ number DocumentStatus.failed ds
  unfolding group_by_status same_status count_for
  count_for-failed =
      rw
        (
          count_for-push_other DocumentStatus.failed DocumentStatus.pending refl,
          count_for-push_other DocumentStatus.failed DocumentStatus.parsing refl,
          count_for-push_other DocumentStatus.failed DocumentStatus.profiling refl,
          count_for-push_other DocumentStatus.failed DocumentStatus.chunking refl,
          count_for-push_other DocumentStatus.failed DocumentStatus.embedding refl,
          count_for-push_other DocumentStatus.failed DocumentStatus.ready refl,
        )
        (count_for-push_same DocumentStatus.failed (number DocumentStatus.failed ds) [] refl refl)

module _ (i : ℕ) (db : Database) where
  -- The counts of a workspace add up: the total is the number of its documents, and is what is ready,
  -- what failed and what is in progress together; `ready` counts its documents that are ready,
  -- `failed` those that failed, and `in_progress` those in any other status.
  pub workspace_counts_lem :
      let counts = workspace_counts i db in
      let documents = select_where (in_workspace i) db.documents in
      (counts.total ≡ length documents)
      × (counts.total ≡ counts.ready + counts.failed + counts.in_progress)
      × (counts.ready ≡ count_where has_ready_status documents)
      × (counts.failed ≡ count_where (has_status DocumentStatus.failed) documents)
      × (counts.in_progress ≡ count_where is_processing documents)
  unfolding workspace_counts counts_from
  workspace_counts_lem =
      let documents = select_where (in_workspace i) db.documents in
      let n = numbers_add documents in
      let total = sum-groups documents in
      let progress = sum-working documents in
      let good = count_for-ready documents in
      let bad = count_for-failed documents in
      (
        omega (arith, n, total),
        omega (arith, n, total, progress, good, bad),
        good ∙ n.2,
        bad,
        progress ∙ n.0,
      )
