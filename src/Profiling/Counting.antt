-- ===== src/Profiling/Counting.antt =====
-- The counts of a workspace's vocabulary say how many documents' profiles list a word.
use doc_chat_platform.Sql.{select_where}
use doc_chat_platform.Base.{
  [], true, false, inl, inr, arith, List, ◌≡◌, ℕ, ◌∷◌, ap, ◌+◌, length, if◌then◌else◌, Bool-cases,
  ◌⊎◌, sym, ◌∙◌, zero, suc, refl, Bool, ◌≤◌, any, All, is_empty, not, ◌&&◌,
}
use doc_chat_platform.Text.{Text, text_eq, strip, lower}
use doc_chat_platform.Text.Laws.{text_eq→eq, text_eq_refl}
use doc_chat_platform.Models.{DocumentProfile}
use doc_chat_platform.Database.{WorkspaceProfile, empty_profile}
use doc_chat_platform.Profiling.{
  Counts, count_of, bump_one, bump, merge_workspace_profile, read_profile, rebuild_from,
  rebuild_workspace_profile, string_list_from, is_member, string_list, type_list,
}

-- How often a list names a word.
abbrev pub occurrences : Text → List Text → ℕ
occurrences value [] = 0
occurrences value (t ∷ ts) = (if text_eq t value then 1 else 0) + occurrences value ts

text_eq-false : (t u w : Text) → text_eq t u ≡ true → text_eq t w ≡ text_eq u w
text_eq-false t u w h = ap (λ x. text_eq x w) (text_eq→eq t u h)

not_both :
    (t v value : Text) → text_eq v t ≡ false → (text_eq v value ≡ false) ⊎ (text_eq t value ≡ false)
not_both t v value e = elim (Bool-cases (text_eq t value)) [
  | inl h ↦ inl (ap (text_eq v) (sym (text_eq→eq t value h)) ∙ e)
  | inr h ↦ inr h
]

count_of-bump_one :
    (value t : Text) (counts : Counts)
    → count_of value (bump_one t counts)
      ≡ count_of value counts + (if text_eq t value then 1 else 0)
unfolding count_of bump_one
count_of-bump_one value t [] = ground arith
count_of-bump_one value t ((v, n) ∷ counts) = elim (Bool-cases (text_eq v t)) [
  | inl e ↦ rw (e, text_eq-false v t value e) (ground (arith, text_eq-false v t value e))
  | inr e ↦ ground (arith, e, count_of-bump_one value t counts, not_both t v value e)
]

count_of-bump :
    (value : Text) (ts : List Text) (counts : Counts)
    → count_of value (bump counts ts) ≡ count_of value counts + occurrences value ts
unfolding bump
count_of-bump value [] counts = omega arith
count_of-bump value (t ∷ ts) counts =
    omega (arith, count_of-bump value ts (bump_one t counts), count_of-bump_one value t counts)

-- A list of words as the profile of a document holds it: at most 12, each stripped and not empty,
-- no two alike but for case.
abbrev pub Distinct : List Text → Type 0
Distinct [] = Unit
Distinct (t ∷ ts) =
    (strip t ≡ t)
    × (is_empty t ≡ false)
    × All (λ u. text_eq (lower t) (lower u) ≡ false) ts
    × Distinct ts

abbrev pub Tidy : List Text → Type 0
Tidy ts = (length ts ≤ 12) × Distinct ts

abbrev pub TidyProfile : DocumentProfile → Type 0
TidyProfile p = Tidy p.topics × Tidy p.entities

-- The list names the word.
abbrev pub names : Text → List Text → Bool
names value ts = any (λ t. text_eq t value) ts

unseen :
    (t : Text) (seen ts : List Text)
    → All (λ u. is_member (lower u) seen ≡ false) ts
    → All (λ u. text_eq (lower t) (lower u) ≡ false) ts
    → All (λ u. is_member (lower u) (lower t ∷ seen) ≡ false) ts
unfolding is_member
unseen t seen [] h k = tt
unseen t seen (u ∷ us) h k = (ground (arith, h.0, k.0), unseen t seen us h.1 k.1)

-- Nothing of a tidy list is dropped.
string_list_from-Distinct :
    (room : ℕ) (seen ts : List Text)
    → length ts ≤ room
    → All (λ u. is_member (lower u) seen ≡ false) ts
    → Distinct ts
    → string_list_from room seen ts ≡ ts
unfolding string_list_from
string_list_from-Distinct room seen [] n u h = refl
string_list_from-Distinct zero seen (t ∷ ts) n u h = absurd (omega (arith, n))
string_list_from-Distinct (suc room) seen (t ∷ ts) n u h =
    rw (string_list_from, h.0, h.1, u.0, h.0)
      (ap (◌∷◌ t) (
        string_list_from-Distinct room (lower t ∷ seen) ts (omega (arith, n))
          (unseen t seen ts u.1 h.2) h.3))

string_list-Tidy : (ts : List Text) → Tidy ts → string_list ts ≡ ts
unfolding string_list is_member
string_list-Tidy ts h = string_list_from-Distinct 12 [] ts h.0 (none_seen ts) h.1
  where
    none_seen : (us : List Text) → All (λ u. is_member (lower u) [] ≡ false) us
    none_seen [] = tt
    none_seen (u ∷ us) = (refl, none_seen us)

occurrences-absent :
    (value : Text) (ts : List Text)
    → All (λ u. text_eq (lower value) (lower u) ≡ false) ts
    → occurrences value ts ≡ 0
occurrences-absent value [] h = refl
occurrences-absent value (t ∷ ts) h = elim (Bool-cases (text_eq t value)) [
  | inl e ↦ absurd (
      cc (
        ap (text_eq (lower value)) (ap lower (text_eq→eq t value e)),
        text_eq_refl (lower value),
        h.0,
      ))
  | inr e ↦ omega (
    arith,
    ap (λ b. (if b then 1 else 0) + occurrences value ts) e,
    occurrences-absent value ts h.1,
  )
]

occurrences-Distinct :
    (value : Text) (ts : List Text)
    → Distinct ts
    → occurrences value ts ≡ (if names value ts then 1 else 0)
occurrences-Distinct value [] h = refl
occurrences-Distinct value (t ∷ ts) h = elim (Bool-cases (text_eq t value)) [
  | inl e ↦
      let later : occurrences value ts ≡ 0 =
        occurrences-absent value ts (rw (sym (text_eq→eq t value e)) h.2) in
      ground (arith, e, later)
  | inr e ↦ ground (arith, e, occurrences-Distinct value ts h.3)
]

-- How many documents have a profile that passes.
abbrev pub profiles_with : (DocumentProfile → Bool) → List DocumentProfile → ℕ
profiles_with p profiles = length (select_where p profiles)

-- What one profile adds to the three vocabularies.
once :
    (b : Bool) (p : DocumentProfile) (ps : List DocumentProfile) (test : DocumentProfile → Bool)
    → test p ≡ b
    → profiles_with test (p ∷ ps) ≡ (if b then 1 else 0) + profiles_with test ps
unfolding select_where
once b p ps test e = ground (arith, e)

typed :
    (value t : Text)
    → occurrences value (type_list t) ≡ (if not (is_empty t) && text_eq t value then 1 else 0)
typed value [] = refl
typed value (c ∷ cs) = ground arith

-- The counts of a vocabulary, for one word.
abbrev pub Counted : Text → List DocumentProfile → WorkspaceProfile → WorkspaceProfile → Type 0
Counted value ps before after =
    (count_of value after.topics
      ≡ count_of value before.topics + profiles_with (λ p. names value p.topics) ps)
    × (count_of value after.entities
        ≡ count_of value before.entities + profiles_with (λ p. names value p.entities) ps)
    × (count_of value after.document_types
        ≡ count_of value before.document_types
          + profiles_with (λ p. not (is_empty p.document_type) && text_eq p.document_type value) ps)
    × (after.document_count ≡ before.document_count + length ps)

bump-Tidy :
    (value : Text) (ts : List Text) (counts : Counts)
    → Tidy ts
    → count_of value (bump counts (string_list ts))
      ≡ count_of value counts + (if names value ts then 1 else 0)
bump-Tidy value ts counts h =
    ap (λ l. count_of value (bump counts l)) (string_list-Tidy ts h)
    ∙ count_of-bump value ts counts
    ∙ ap (◌+◌ (count_of value counts)) (occurrences-Distinct value ts h.1)

rebuild_from-Counted :
    (now : ℕ) (value : Text) (ps : List DocumentProfile) (before : WorkspaceProfile)
    → All TidyProfile ps
    → Counted value ps before (rebuild_from now before ps)
unfolding rebuild_from merge_workspace_profile read_profile select_where
rebuild_from-Counted now value [] before h = (omega arith, omega arith, omega arith, omega arith)
rebuild_from-Counted now value (p ∷ ps) before h =
    let ih =
      rebuild_from-Counted now value ps (merge_workspace_profile now before (read_profile p)) h.1 in
    (
      omega (
        arith,
        ih.0,
        bump-Tidy value p.topics before.topics h.0.0,
        once (names value p.topics) p ps (λ q. names value q.topics) refl,
      ),
      omega (
        arith,
        ih.1,
        bump-Tidy value p.entities before.entities h.0.1,
        once (names value p.entities) p ps (λ q. names value q.entities) refl,
      ),
      omega (
        arith,
        ih.2,
        count_of-bump value (type_list p.document_type) before.document_types,
        typed value p.document_type,
        once (not (is_empty p.document_type) && text_eq p.document_type value) p ps
            (λ q. not (is_empty q.document_type) && text_eq q.document_type value) refl,
      ),
      omega (arith, ih.3),
    )

-- A workspace profile that is rebuilt from the profiles of its documents, each with lists of topics
-- and entities as a profile is stored with (at most 12, stripped, none empty, no two alike but for
-- case), counts for every word the documents whose topics name it, the documents whose entities
-- name it, and the documents of that type, and it counts the documents.
pub rebuild_workspace_profile_lem :
    (now : ℕ) (value : Text) (ps : List DocumentProfile)
    → All TidyProfile ps
    → let result = rebuild_workspace_profile now ps in
      (count_of value result.topics ≡ profiles_with (λ p. names value p.topics) ps)
      × (count_of value result.entities ≡ profiles_with (λ p. names value p.entities) ps)
      × (count_of value result.document_types
          ≡ profiles_with (λ p. not (is_empty p.document_type) && text_eq p.document_type value) ps)
      × (result.document_count ≡ length ps)
unfolding rebuild_workspace_profile count_of
rebuild_workspace_profile_lem now value ps h =
    let r = rebuild_from-Counted now value ps empty_profile h in
    (omega (arith, r.0), omega (arith, r.1), omega (arith, r.2), omega (arith, r.3))
