-- ===== src/Embedding/Growth.antt =====
-- What a run of the embedding stage may do to the table: fill vectors that were missing.
use doc_chat_platform.Sql.Laws.{update_where_absent, All_mem}
use mathlib.Core.Path.{subst}
use doc_chat_platform.Sql.Order.{DistinctBy-update_where}
use mathlib.Core.List.{Memᴰ}
use doc_chat_platform.Sql.{update_where}
use doc_chat_platform.Base.{
  [], true, false, refl, arith, List, ℕ, ◌∙◌, All, ◌≡◌, ◌∷◌, ◌≢◌, ap, sym, if_ind, ◌==◌,
}
use doc_chat_platform.Models.{Chunk}
use doc_chat_platform.VectorStore.{has_id}
use doc_chat_platform.Embedding.{Vector, is_outstanding, set_vector, write_vectors}
use doc_chat_platform.Embedding.Batches.{DistinctIds, IsBatch, IsBatch-rest}

module _ (workspace_id document_id : ℕ) where
  -- A row keeps everything but its vector, and a row that was not outstanding keeps that too.
  pub record GrownRow (old new : Chunk) : Type 0 where
    pub same_text : new ≡ record old { embedding = new.embedding }
    pub settled : is_outstanding workspace_id document_id old ≡ false → new ≡ old

  abbrev pub Grown : List Chunk → List Chunk → Type 0
  Grown [] [] = Unit
  Grown [] (d ∷ ds) = ⊥
  Grown (c ∷ cs) [] = ⊥
  Grown (c ∷ cs) (d ∷ ds) = GrownRow c d × Grown cs ds

  pub Grown-refl : (cs : List Chunk) → Grown cs cs
  Grown-refl [] = tt
  Grown-refl (c ∷ cs) = (record { same_text = refl; settled = λ h. refl }, Grown-refl cs)

  GrownRow-trans : (a b c : Chunk) → GrownRow a b → GrownRow b c → GrownRow a c
  GrownRow-trans a b c h k = record {
    same_text = k.same_text ∙ ap (λ (r : Chunk). record r { embedding = c.embedding }) h.same_text;
    settled = λ e.
        let b_is_a = h.settled e in
        k.settled (ap (is_outstanding workspace_id document_id) b_is_a ∙ e) ∙ b_is_a;
  }

  pub Grown-trans : (rs bs cs : List Chunk) → Grown rs bs → Grown bs cs → Grown rs cs
  Grown-trans [] [] [] h k = tt
  Grown-trans [] [] (c ∷ cs) h k = k
  Grown-trans [] (b ∷ bs) cs h k = absurd h
  Grown-trans (a ∷ rs) [] cs h k = absurd h
  Grown-trans (a ∷ rs) (b ∷ bs) [] h k = absurd k
  Grown-trans (a ∷ rs) (b ∷ bs) (c ∷ cs) h k =
      (GrownRow-trans a b c h.0 k.0, Grown-trans rs bs cs h.1 k.1)

  GrownRow-set_vector :
      (v : Vector) (c : Chunk)
      → is_outstanding workspace_id document_id c ≡ true
      → GrownRow c (set_vector v c)
  GrownRow-set_vector v c h = record { same_text = refl; settled = λ e. cc }

  Grown-absent :
      (i : ℕ) (v : Vector) (xs : List Chunk)
      → All (λ x. x.id ≢ i) xs
      → Grown xs (update_where (has_id i) (set_vector v) xs)
  Grown-absent i v xs h = rw (update_where_absent (λ x. x.id) i (set_vector v) xs h) (Grown-refl xs)

  Grown-update_one :
      (v : Vector) (m : Chunk) (xs : List Chunk)
      → DistinctIds xs
      → Memᴰ m xs
      → is_outstanding workspace_id document_id m ≡ true
      → Grown xs (update_where (has_id m.id) (set_vector v) xs)
  unfolding update_where
  Grown-update_one v m [] d r t = elim r [ ]
  Grown-update_one v m (x ∷ xs) d (Memᴰ.head e) t =
      let absent = subst (λ i. All (λ y. y.id ≢ i) xs) (ap (λ (c : Chunk). c.id) (sym e)) d.0 in
      (
        if_ind (GrownRow x) (x.id == m.id)
            (λ _.
              GrownRow-set_vector v x (ap (is_outstanding workspace_id document_id) (sym e) ∙ t))
            (λ _. record { same_text = refl; settled = λ h. refl }),
        Grown-absent m.id v xs absent,
      )
  Grown-update_one v m (x ∷ xs) d (Memᴰ.tail r) t =
      let ne = All_mem (λ y. y.id ≢ x.id) m xs d.0 r in
      let miss : (x.id == m.id) ≡ false = ground (arith, ne) in
      (rw miss (record { same_text = refl; settled = λ h. refl }), Grown-update_one v m xs d.1 r t)

  -- Writing the vectors of a batch fills rows that were outstanding, and changes nothing else.
  pub Grown-write_vectors :
      (batch : List Chunk) (vectors : List Vector) (chunks : List Chunk)
      → DistinctIds chunks
      → IsBatch workspace_id document_id chunks batch
      → Grown chunks (write_vectors batch vectors chunks)
  unfolding write_vectors
  Grown-write_vectors [] vectors chunks d b = Grown-refl chunks
  Grown-write_vectors (row ∷ batch) [] chunks d b = Grown-refl chunks
  Grown-write_vectors (row ∷ batch) (v ∷ vectors) chunks d b =
      let chunks' = update_where (has_id row.id) (set_vector v) chunks in
      Grown-trans chunks chunks' (write_vectors batch vectors chunks')
        (Grown-update_one v row chunks d b.stored.0 b.open_rows.0)
        (Grown-write_vectors batch vectors chunks'
          (DistinctBy-update_where (λ c. c.id) (has_id row.id) (set_vector v) chunks (λ c. refl) d)
          (IsBatch-rest workspace_id document_id v row chunks batch b))
