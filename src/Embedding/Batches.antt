-- ===== src/Embedding/Batches.antt =====
-- One batch: which chunks it takes, and what writing its vectors does to the table.
use mathlib.Core.List.{Memᴰ}
use doc_chat_platform.Sql.Order.{
  DistinctBy-update_where, DistinctBy-take, DistinctBy-order_by, mem-update_where,
  DistinctBy-select_where, All-take, All-order_by, length-order_by,
}
use doc_chat_platform.Sql.{select_where, update_where}
use doc_chat_platform.Sql.Laws.{
  DistinctBy, count_where-update_one, length-select_where, All-select_where, All-mem,
  select_where-All,
}
use doc_chat_platform.Base.{
  [], true, false, refl, arith, Bool, List, ℕ, ◌≡◌, length, ◌∷◌, All, min, ◌+◌, length-take, ◌≢◌,
  ◌∙◌, ap,
}
use doc_chat_platform.Models.{Chunk}
use doc_chat_platform.VectorStore.{has_id}
use doc_chat_platform.Embedding.{
  Vector, is_outstanding, count_pending, by_ordinal, next_batch, set_vector, write_vectors,
}

abbrev pub DistinctIds : List Chunk → Type 0
DistinctIds = DistinctBy (λ chunk. chunk.id)

module _ (workspace_id document_id : ℕ) where
  abbrev pub outstanding : Chunk → Bool
  outstanding = is_outstanding workspace_id document_id

  -- A batch that was read from the table: its rows are stored there, distinct and outstanding.
  pub record IsBatch (chunks batch : List Chunk) : Type 0 where
    pub apart : DistinctIds batch
    pub stored : All (λ row. Memᴰ row chunks) batch
    pub open_rows : All (λ row. outstanding row ≡ true) batch

  pub next_batch-IsBatch :
      (size : ℕ) (chunks : List Chunk)
      → DistinctIds chunks
      → IsBatch chunks (next_batch workspace_id document_id size chunks)
  unfolding next_batch
  next_batch-IsBatch size chunks d =
      let rows = select_where outstanding chunks in
      record {
        apart =
            DistinctBy-take (λ c. c.id) size _
              (DistinctBy-order_by by_ordinal (λ c. c.id) rows
                (DistinctBy-select_where (λ c. c.id) outstanding chunks d));
        stored =
            All-take (λ r. Memᴰ r chunks) by_ordinal size _
              (All-order_by (λ r. Memᴰ r chunks) by_ordinal rows
                (All-select_where (λ r. Memᴰ r chunks) outstanding chunks (All-mem chunks)));
        open_rows =
            All-take (λ r. outstanding r ≡ true) by_ordinal size _
              (All-order_by (λ r. outstanding r ≡ true) by_ordinal rows
                (select_where-All outstanding chunks));
      }

  pub length-next_batch :
      (size : ℕ) (chunks : List Chunk)
      → length (next_batch workspace_id document_id size chunks)
        ≡ min size (count_pending workspace_id document_id chunks)
  unfolding next_batch count_pending
  length-next_batch size chunks =
      length-take size _
      ∙ ap (min size) (
          length-order_by by_ordinal by_ordinal (select_where outstanding chunks)
          ∙ length-select_where outstanding chunks)

  closed_by_vector : (v : Vector) (row : Chunk) → outstanding (set_vector v row) ≡ false
  unfolding is_outstanding
  closed_by_vector v row = ground arith

  -- The rows of the rest of a batch are still there after one of its rows is written.
  pub IsBatch-rest :
      (v : Vector) (row : Chunk) (chunks batch : List Chunk)
      → IsBatch chunks (row ∷ batch)
      → IsBatch (update_where (has_id row.id) (set_vector v) chunks) batch
  IsBatch-rest v row chunks batch b = record {
    apart = b.apart.1;
    stored = go batch b.apart.0 b.stored.1;
    open_rows = b.open_rows.1;
  }
    where
      go :
          (rows : List Chunk)
          → All (λ r. r.id ≢ row.id) rows
          → All (λ r. Memᴰ r chunks) rows
          → All (λ r. Memᴰ r (update_where (has_id row.id) (set_vector v) chunks)) rows
      go [] ne m = tt
      go (r ∷ rows) ne m = (
        mem-update_where (λ c. c.id) (has_id row.id) (set_vector v) r chunks (ground (arith, ne.0))
            m.0,
        go rows ne.1 m.1,
      )

  pub count-write_vectors :
      (batch : List Chunk) (vectors : List Vector) (chunks : List Chunk)
      → length vectors ≡ length batch
      → DistinctIds chunks
      → IsBatch chunks batch
      → count_pending workspace_id document_id (write_vectors batch vectors chunks) + length batch
        ≡ count_pending workspace_id document_id chunks
  unfolding write_vectors count_pending
  count-write_vectors [] vectors chunks e d b = omega arith
  count-write_vectors (row ∷ batch) [] chunks e d b = absurd (omega arith)
  count-write_vectors (row ∷ batch) (v ∷ vectors) chunks e d b =
      let chunks' = update_where (has_id row.id) (set_vector v) chunks in
      omega (
        arith,
        count-write_vectors batch vectors chunks' (omega arith)
            (DistinctBy-update_where (λ c. c.id) (has_id row.id) (set_vector v) chunks (λ c. refl)
              d)
            (IsBatch-rest v row chunks batch b),
        count_where-update_one (λ c. c.id) outstanding (set_vector v) row chunks d b.stored.0
            b.open_rows.0 (closed_by_vector v row),
      )

  pub DistinctIds-write_vectors :
      (batch : List Chunk) (vectors : List Vector) (chunks : List Chunk)
      → DistinctIds chunks
      → DistinctIds (write_vectors batch vectors chunks)
  unfolding write_vectors
  DistinctIds-write_vectors [] vectors chunks d = d
  DistinctIds-write_vectors (row ∷ batch) [] chunks d = d
  DistinctIds-write_vectors (row ∷ batch) (v ∷ vectors) chunks d =
      DistinctIds-write_vectors batch vectors _
        (DistinctBy-update_where (λ c. c.id) (has_id row.id) (set_vector v) chunks (λ c. refl) d)
