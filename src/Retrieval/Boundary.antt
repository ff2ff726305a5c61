-- ===== src/Retrieval/Boundary.antt =====
-- What a search may return: the tenant boundary, readiness, the filters and the order.
use mathlib.Core.Path.{subst}
use doc_chat_platform.Persist.{document_has_id}
use doc_chat_platform.Sql.Finding.{find_where-key}
use doc_chat_platform.VectorStore.{has_id}
use doc_chat_platform.Sql.Sorting.{
  All-take, All-sort_with, InOrder, sort_with, take-InOrder, sort_with-InOrder,
}
use doc_chat_platform.Sql.{select_where, find_where}
use doc_chat_platform.Text.{Text}
use mathlib.Core.List.{Memᴰ}
use doc_chat_platform.Sql.Laws.{DistinctBy, mem-select_where, All-mem, All-select_where}
use doc_chat_platform.Database.{Database}
use doc_chat_platform.Retrieval.{
  Engine, Ranked, Fused, number_from, fts, full_outer_join, SearchResult, vec, joined_rows,
  searchable, with_chunk, from_text, from_vector, better_text, nearer, unpaired, in_fts, in_vec,
  is_ready_document, ranks_before, hybrid_search, higher, query_rows, Score, row_of,
}
use doc_chat_platform.Models.{Document, Chunk, is_ready}
use doc_chat_platform.Base.{
  [], true, suc, inl, inr, refl, arith, Bool, List, ℕ, any, ◌≡◌, ◌∷◌, is_some, All, map, All-append,
  ◌||◌, Bool-cases, All-imp, sym, some, false, ok, length, ◌≤◌, max, ◌*◌, length-take,
}

-- A row of the answer shows a chunk of the workspace with its document.
pub record Shows (engine : Engine) (workspace_id : ℕ) (db : Database) (r : SearchResult) (c : Chunk)
    (d : Document) : Type 0 where
  pub chunk_in_table : Memᴰ c db.chunks
  pub its_chunk : r.chunk_id ≡ c.id
  pub its_content : r.content ≡ c.content
  pub of_workspace : c.workspace_id ≡ workspace_id
  pub passes_filters : engine.tagged c ≡ true
  pub document_in_table : Memᴰ d db.documents
  pub belongs_to : c.document_id ≡ d.id
  pub its_document : r.document_id ≡ d.id
  pub its_filename : r.filename ≡ d.filename
  pub document_ready : is_ready d.status ≡ true

pub data Allowed (engine : Engine) (workspace_id : ℕ) (db : Database) (r : SearchResult)
    : Type 0 where
  allowed :
      (c : Chunk) (d : Document)
      → Shows engine workspace_id db r c d
      → (is_some r.vector_rank || is_some r.text_rank) ≡ true
      → Allowed engine workspace_id db r

any-some :
    (p : Document → Bool) (ds : List Document)
    → any p ds ≡ true
    → (d : Document) × Memᴰ d ds × (p d ≡ true)
any-some p [] h = cc
any-some p (d ∷ ds) h = elim (Bool-cases (p d)) [
  | inl e ↦ (d, Memᴰ.head refl, e)
  | inr e ↦ let r = any-some p ds (ground arith) in (r.0, Memᴰ.tail r.1, r.2)
]

-- The row that the join finds for a chunk whose document is ready.
ready_document :
    (i : ℕ) (ds : List Document)
    → DistinctBy (λ d. d.id) ds
    → any (is_ready_document i) ds ≡ true
    → (d : Document) × Memᴰ d ds
      × (i ≡ d.id)
      × (is_ready d.status ≡ true)
      × (find_where (document_has_id i) ds ≡ some d)
ready_document i ds keys h =
    let r = any-some (is_ready_document i) ds h in
    let same : r.0.id ≡ i = ground (arith, r.2) in
    let is_good : is_ready r.0.status ≡ true = ground (arith, r.2) in
    (
      r.0,
      r.1,
      sym same,
      is_good,
      subst (λ k. find_where (document_has_id k) ds ≡ some r.0) same
          (find_where-key (λ d. d.id) r.0 ds keys r.1),
    )

module _ (engine : Engine) (workspace_id : ℕ) (db : Database) where
  abbrev Found : Chunk → Type 0
  Found c = Memᴰ c db.chunks × (searchable engine workspace_id db c ≡ true)

  data FoundId (i : ℕ) : Type 0 where
    found_id : (c : Chunk) → i ≡ c.id → Found c → FoundId i

  selected-Found :
      (p : Chunk → Bool)
      → ((c : Chunk) → p c ≡ true → searchable engine workspace_id db c ≡ true)
      → All Found (select_where p db.chunks)
  selected-Found p sub =
      All-imp (λ c. Memᴰ c (select_where p db.chunks)) Found (select_where p db.chunks)
        (λ c m. let r = mem-select_where p c db.chunks m in (r.0, sub c r.1))
        (All-mem (select_where p db.chunks))

  number_from-FoundId :
      (n : ℕ) (cs : List Chunk) → All Found cs → All (λ r. FoundId r.id) (number_from n cs)
  unfolding number_from
  number_from-FoundId n [] h = tt
  number_from-FoundId n (c ∷ cs) h = (found_id c refl h.0, number_from-FoundId (suc n) cs h.1)

  abbrev IsFused : Fused → Type 0
  IsFused f = FoundId f.id × ((is_some f.vector_rank || is_some f.text_rank) ≡ true)

  vec-FoundId :
      (v : List ℕ) (pool : ℕ) → All (λ r. FoundId r.id) (vec engine workspace_id db v pool)
  unfolding vec
  vec-FoundId v pool = number_from-FoundId 1 _ (
      All-take Found pool _ (
        All-sort_with (nearer engine v) Found _
          (selected-Found (in_vec engine workspace_id db) (λ c h. ground arith))))

  fts-FoundId : (q : Text) (pool : ℕ) → All (λ r. FoundId r.id) (fts engine workspace_id db q pool)
  unfolding fts
  fts-FoundId q pool = number_from-FoundId 1 _ (
      All-take Found pool _ (
        All-sort_with (better_text engine q) Found _
          (selected-Found (in_fts engine workspace_id db q) (λ c h. ground arith))))

  from_vector-IsFused :
      (fs rs : List Ranked) → All (λ r. FoundId r.id) rs → All IsFused (map (from_vector fs) rs)
  from_vector-IsFused fs [] h = tt
  from_vector-IsFused fs (r ∷ rs) h = ((h.0, refl), from_vector-IsFused fs rs h.1)

  from_text-IsFused :
      (rs : List Ranked) → All (λ r. FoundId r.id) rs → All IsFused (map from_text rs)
  from_text-IsFused [] h = tt
  from_text-IsFused (r ∷ rs) h = ((h.0, refl), from_text-IsFused rs h.1)

  full_outer_join-IsFused :
      (vs ts : List Ranked)
      → All (λ r. FoundId r.id) vs
      → All (λ r. FoundId r.id) ts
      → All IsFused (full_outer_join vs ts)
  unfolding full_outer_join
  full_outer_join-IsFused vs ts h k =
      All-append IsFused (map (from_vector ts) vs) _ (from_vector-IsFused ts vs h) (
        from_text-IsFused (select_where (unpaired vs) ts)
          (All-select_where (λ r. FoundId r.id) (unpaired vs) ts k))

  module _ (chunk_keys : DistinctBy (λ c. c.id) db.chunks)
      (document_keys : DistinctBy (λ d. d.id) db.documents) where
    row-Allowed :
        (f : Fused) (rest : List SearchResult)
        → IsFused f
        → All (Allowed engine workspace_id db) rest
        → All
            (Allowed engine workspace_id db)
            (with_chunk engine workspace_id db f (find_where (has_id f.id) db.chunks) rest)
    unfolding searchable
    row-Allowed f rest (found_id c i (m, s), some_rank) h =
        let d = ready_document c.document_id db.documents document_keys (ground arith) in
        let e : find_where (has_id f.id) db.chunks ≡ some c =
          subst (λ k. find_where (has_id k) db.chunks ≡ some c) (sym i)
            (find_where-key (λ x. x.id) c db.chunks chunk_keys m) in
        let shows : Shows engine workspace_id db (row_of engine workspace_id db f c d.0) c d.0 =
          record {
            chunk_in_table = m;
            its_chunk = refl;
            its_content = refl;
            of_workspace = ground arith;
            passes_filters = ground arith;
            document_in_table = d.1;
            belongs_to = d.2;
            its_document = d.2;
            its_filename = refl;
            document_ready = d.3;
          } in
        rw e (rw d.4 (allowed c d.0 shows some_rank, h))

    joined_rows-Allowed :
        (fs : List Fused)
        → All IsFused fs
        → All (Allowed engine workspace_id db) (joined_rows engine workspace_id db fs)
    unfolding joined_rows
    joined_rows-Allowed [] h = tt
    joined_rows-Allowed (f ∷ fs) h =
        row-Allowed f (joined_rows engine workspace_id db fs) h.0 (joined_rows-Allowed fs h.1)

    higher-asym : (a b : Score) → higher a b ≡ true → higher b a ≡ false
    unfolding higher
    higher-asym a b h = ground arith

    ranks_before-asym :
        (x y : SearchResult)
        → ranks_before engine workspace_id db x y ≡ true
        → ranks_before engine workspace_id db y x ≡ false
    unfolding ranks_before
    ranks_before-asym x y h =
        ground (arith, higher-asym x.score y.score, higher-asym y.score x.score)

    query_rows-Allowed :
        (query : Text) (v : List ℕ) (limit : ℕ)
        → let rows = query_rows engine workspace_id db query v limit in
          (length rows ≤ limit)
          × All (Allowed engine workspace_id db) rows
          × InOrder (ranks_before engine workspace_id db) rows
    unfolding query_rows
    query_rows-Allowed query v limit =
        let pool = max (limit * 4) 20 in
        let fused =
          full_outer_join (vec engine workspace_id db v pool)
            (fts engine workspace_id db query pool) in
        let rows = joined_rows engine workspace_id db fused in
        let before = ranks_before engine workspace_id db in
        let good =
          joined_rows-Allowed fused
            (full_outer_join-IsFused _ _ (vec-FoundId v pool) (fts-FoundId query pool)) in
        (
          omega (arith, length-take limit (sort_with before rows)),
          All-take (Allowed engine workspace_id db) limit _
              (All-sort_with before (Allowed engine workspace_id db) rows good),
          take-InOrder before limit _ (sort_with-InOrder before ranks_before-asym rows),
        )

    -- A search in a workspace, in tables whose ids are keys, answers with at most `limit` rows. Each
    -- is a chunk of that workspace with its own document, which is ready, passes every filter, and was
    -- ranked by the vectors or by the text; none has a higher score than the row before it, or the
    -- same score and a smaller ordinal.
    pub hybrid_search-Allowed :
        (query : Text) (v : List ℕ) (limit : ℕ) {rows : List SearchResult}
        → hybrid_search engine workspace_id db query (some v) limit ≡ ok rows
        → (length rows ≤ limit)
          × All (Allowed engine workspace_id db) rows
          × InOrder (ranks_before engine workspace_id db) rows
    unfolding hybrid_search
    hybrid_search-Allowed query v limit {rows} e =
        let same : rows ≡ query_rows engine workspace_id db query v limit = cc in
        rw same (query_rows-Allowed query v limit)
