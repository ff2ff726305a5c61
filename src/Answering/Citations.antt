-- ===== src/Answering/Citations.antt =====
-- The citations of an answer: which markers of its text they stand for.
use doc_chat_platform.Text.{Text, strip}
use doc_chat_platform.Sql.Counting.{DistinctBy-append_one}
use doc_chat_platform.Retrieval.{SearchResult}
use doc_chat_platform.Sql.Laws.{DistinctBy}
use doc_chat_platform.Answering.{
  collect_used, cite_all, Citation, cite, collect_citations, markers, answer_from, answer_question,
  Answer, nothing_found, prompt_for, answer_with, declines, not_covered,
}
use doc_chat_platform.Base.{
  [], arith, Bool, List, ℕ, ◌≡◌, any, ◌++◌, leb, ◌∷◌, ◌||◌, ◌==◌, ◌&&◌, if_ind, not, ◌∙◌, some,
  true, false, zero, suc, inl, inr, refl, All, Bool-cases, ◌<◌, All-append, length, ==_iff, ◌≢◌,
  map, ap, ◌≤◌, get_elem?, ◌-◌, ok, err, Result,
}

abbrev pub has : List ℕ → ℕ → Bool
has ns m = any (λ k. k == m) ns

abbrev pub in_range : ℕ → ℕ → Bool
in_range n m = leb 1 m && leb m n

has-append : (ns : List ℕ) (x m : ℕ) → has (ns ++ (x ∷ [])) m ≡ (has ns m || (x == m))
has-append [] x m = ground arith
has-append (k ∷ ns) x m = ground (arith, has-append ns x m)

skipped :
    (n k m : ℕ) (used ms : List ℕ)
    → (leb 1 k && (leb k n && not (has used k))) ≡ false
    → (has used m || (in_range n m && has ms m)) ≡ (has used m || (in_range n m && has (k ∷ ms) m))
skipped n k m used ms e = elim (Bool-cases (k == m)) [
  | inr ne ↦ rw ne
  | inl same ↦
      let eq : k ≡ m = (==_iff k m).0 same in
      let again : has used k ≡ has used m = ap (has used) eq in ground (arith, again)
]

-- A number is used exactly when it is in range and was met.
has-collect_used :
    (n : ℕ) (used ms : List ℕ) (m : ℕ)
    → has (collect_used n used ms) m ≡ (has used m || (in_range n m && has ms m))
unfolding collect_used
has-collect_used n used [] m = ground arith
has-collect_used n used (k ∷ ms) m =
    if_ind (λ u. has (collect_used n u ms) m ≡ (has used m || (in_range n m && has (k ∷ ms) m)))
      (leb 1 k && (leb k n && not (has used k)))
      (λ e. has-collect_used n (used ++ (k ∷ [])) ms m ∙ ground (arith, has-append used k m))
      (λ e. has-collect_used n used ms m ∙ skipped n k m used ms e)

absent-ne : (ns : List ℕ) (k : ℕ) → has ns k ≡ false → All (λ x. x ≢ k) ns
absent-ne [] k h = tt
absent-ne (x ∷ ns) k h = (λ e. ground (arith, e, h), absent-ne ns k (ground arith))

collect_used-Distinct :
    (n : ℕ) (used ms : List ℕ)
    → DistinctBy (λ k. k) used
    → DistinctBy (λ k. k) (collect_used n used ms)
unfolding collect_used
collect_used-Distinct n used [] d = d
collect_used-Distinct n used (k ∷ ms) d =
    if_ind (λ u. DistinctBy (λ k. k) (collect_used n u ms))
      (leb 1 k && (leb k n && not (has used k)))
      (λ e.
        collect_used-Distinct n (used ++ (k ∷ [])) ms
          (DistinctBy-append_one (λ k. k) k used (absent-ne used k (ground arith)) d))
      (λ e. collect_used-Distinct n used ms d)

collect_used-InRange :
    (n : ℕ) (used ms : List ℕ)
    → All (λ m. in_range n m ≡ true) used
    → All (λ m. in_range n m ≡ true) (collect_used n used ms)
unfolding collect_used
collect_used-InRange n used [] h = h
collect_used-InRange n used (k ∷ ms) h =
    if_ind (λ u. All (λ m. in_range n m ≡ true) (collect_used n u ms))
      (leb 1 k && (leb k n && not (has used k)))
      (λ e.
        collect_used-InRange n (used ++ (k ∷ [])) ms
          (All-append (λ m. in_range n m ≡ true) used (k ∷ []) h (ground arith, tt)))
      (λ e. collect_used-InRange n used ms h)

get_elem?-below {ℓ} :
    {A : Type ℓ} (xs : List A) (i : ℕ) → i < length xs → (x : A) × (get_elem? xs i ≡ some x)
get_elem?-below [] i h = absurd (omega arith)
get_elem?-below (x ∷ xs) zero h = (x, refl)
get_elem?-below (x ∷ xs) (suc i) h = get_elem?-below xs i (omega arith)

module _ (results : List SearchResult) where
  -- A citation stands for the source of its number.
  pub data IsSource (c : Citation) : Type 0 where
    is_source :
        (r : SearchResult)
        → 1 ≤ c.number
        → c.number ≤ length results
        → get_elem? results (c.number - 1) ≡ some r
        → c ≡ cite c.number r
        → IsSource c

  source_at :
      (m : ℕ)
      → in_range (length results) m ≡ true
      → (r : SearchResult) × (get_elem? results (m - 1) ≡ some r)
  source_at m h = get_elem?-below results (m - 1) (ground arith)

  cite_all-numbers :
      (ms : List ℕ)
      → All (λ m. in_range (length results) m ≡ true) ms
      → (map (λ c. c.number) (cite_all results ms) ≡ ms) × All IsSource (cite_all results ms)
  unfolding cite_all
  cite_all-numbers [] h = (refl, tt)
  cite_all-numbers (m ∷ ms) h =
      let r = source_at m h.0 in
      let ih = cite_all-numbers ms h.1 in
      rw r.1 (
        ap (◌∷◌ m) ih.0,
        (is_source r.0 (ground (arith, h.0)) (ground (arith, h.0)) r.1 refl, ih.1),
      )

any-map :
    (m : ℕ) (cs : List Citation) → any (λ c. c.number == m) cs ≡ has (map (λ c. c.number) cs) m
any-map m [] = refl
any-map m (c ∷ cs) = ground (arith, any-map m cs)

All-of_map :
    (n : ℕ) (cs : List Citation)
    → All (λ k. k ≢ n) (map (λ c. c.number) cs)
    → All (λ c. c.number ≢ n) cs
All-of_map n [] h = tt
All-of_map n (c ∷ cs) h = (h.0, All-of_map n cs h.1)

DistinctBy-of_map :
    (cs : List Citation)
    → DistinctBy (λ k. k) (map (λ c. c.number) cs)
    → DistinctBy (λ c. c.number) cs
DistinctBy-of_map [] d = tt
DistinctBy-of_map (c ∷ cs) d = (All-of_map c.number cs d.0, DistinctBy-of_map cs d.1)

-- The citations of a text: each stands for its source, no number comes twice, and of the markers of
-- the text exactly those within the sources are cited.
pub record Grounded (t : Text) (results : List SearchResult) (cs : List Citation) : Type 0 where
  pub sources : All (IsSource results) cs
  pub distinct : DistinctBy (λ c. c.number) cs
  pub cited :
      (m : ℕ) → any (λ c. c.number == m) cs ≡ (in_range (length results) m && has (markers t) m)

collect_citations-Grounded :
    (t : Text) (results : List SearchResult) → Grounded t results (collect_citations t results)
unfolding collect_citations
collect_citations-Grounded t results =
    let n = length results in
    let used = collect_used n [] (markers t) in
    let c = cite_all-numbers results used (collect_used-InRange n [] (markers t) tt) in
    record {
      sources = c.1;
      distinct =
          DistinctBy-of_map (cite_all results used)
            (rw c.0 (collect_used-Distinct n [] (markers t) tt));
      cited = λ m.
          any-map m (cite_all results used)
          ∙ (ap (λ ns. has ns m) c.0 ∙ has-collect_used n [] (markers t) m);
    }

module _ {E : Type 0} (complete : Text → Result E Text) (question : Text)
    (results : List SearchResult) where
  -- How the stage ends for the answer of the LLM.
  pub data Answered : Result E Answer → Type 0 where
    no_sources : (a : Answer) → results ≡ [] → a.refused ≡ true → a.citations ≡ [] → Answered (ok a)
    failed : (e : E) → complete (prompt_for question results) ≡ err e → Answered (err e)
    declined :
        (raw : Text) (a : Answer)
        → complete (prompt_for question results) ≡ ok raw
        → declines (strip raw) ≡ true
        → a.refused ≡ true
        → a.citations ≡ []
        → a.considered ≡ length results
        → Answered (ok a)
    answered :
        (raw : Text) (a : Answer)
        → complete (prompt_for question results) ≡ ok raw
        → declines (strip raw) ≡ false
        → a.refused ≡ false
        → a.text ≡ strip raw
        → a.considered ≡ length results
        → Grounded (strip raw) results a.citations
        → Answered (ok a)

  answer_with-Answered :
      (raw : Result E Text)
      → complete (prompt_for question results) ≡ raw
      → Answered (answer_with results raw)
  unfolding answer_from
  answer_with-Answered (err e) c = failed e c
  answer_with-Answered (ok raw) c = elim (Bool-cases (declines (strip raw))) [
    | inl d ↦ rw d (declined raw (not_covered (length results)) c d refl refl refl)
    | inr d ↦
        rw d (answered raw _ c d refl refl refl (collect_citations-Grounded (strip raw) results))
  ]

module _ {E : Type 0} (complete : Text → Result E Text) (question : Text) where
  pub answer_question-Answered :
      (results : List SearchResult)
      → Answered complete question results (answer_question complete question results)
  unfolding answer_question
  answer_question-Answered [] = no_sources nothing_found refl refl refl
  answer_question-Answered (r ∷ rs) =
      answer_with-Answered complete question (r ∷ rs) (complete (prompt_for question (r ∷ rs))) refl
