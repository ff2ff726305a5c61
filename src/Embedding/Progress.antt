-- ===== src/Embedding/Progress.antt =====
-- The embedding stage as a whole: it ends, it resumes, and it embeds every chunk of the document.
use mathlib.Core.Path.{subst}
use doc_chat_platform.Text.{Text}
use doc_chat_platform.Base.{
  zero, suc, arith, ok, err, ℕ, ◌≡◌, ◌<◌, Result, ◌+◌, ◌≢◌, inl, inr, List, Exec, if_ind, ◌≤◌,
  is_empty, length-empty, length, length-nonempty, ◌>>◌, modify, Bool-cases, ◌==◌, ==_iff, ap, sym,
  refl, length-map, ◌∙◌,
}
use doc_chat_platform.Models.{Chunk}
use doc_chat_platform.Database.{Database, Error}
use doc_chat_platform.Embedding.{
  Vector, Embedder, count_pending, next_batch, batch_texts, write_vectors, store_vectors,
  embed_rounds, embed_document,
}
use doc_chat_platform.Embedding.Batches.{
  DistinctIds, IsBatch, next_batch-IsBatch, length-next_batch, count-write_vectors,
  DistinctIds-write_vectors,
}
use doc_chat_platform.Embedding.Growth.{Grown, Grown-refl, Grown-trans, Grown-write_vectors}

module _ (embedder : Embedder) (on_progress : ℕ → ℕ → Database → Database)
    (workspace_id document_id batch_size : ℕ)
    (keeps_chunks : (n t : ℕ) (db : Database) → (on_progress n t db).chunks ≡ db.chunks)
    (some_size : 0 < batch_size) where
  abbrev pending : Database → ℕ
  pending db = count_pending workspace_id document_id db.chunks

  -- An error of the stage that an answer of the provider accounts for.
  pub data FromProvider : Error → Type 0 where
    refused :
        (round : ℕ) (texts : List Text) (x : Text)
        → embedder round texts ≡ err x
        → FromProvider (Error.provider_error x)
    miscounted :
        (round : ℕ) (texts : List Text) (vectors : List Vector) (got wanted : ℕ)
        → embedder round texts ≡ ok vectors
        → got ≡ length vectors
        → wanted ≡ length texts
        → got ≢ wanted
        → FromProvider (Error.wrong_vector_count got wanted)

  -- How a run that has written `written` vectors before `db` may end.
  abbrev pub Ends : ℕ → Database → Result Error ℕ → Database → Type 0
  Ends written db (ok n) db' = (n ≡ written + pending db) × (pending db' ≡ 0)
  Ends written db (err e) db' = FromProvider e

  pub record IsRun (written : ℕ) (db : Database) (r : Result Error ℕ × Database) : Type 0 where
    pub ends : Ends written db r.0 r.1
    pub grown : Grown workspace_id document_id db.chunks r.1.chunks
    pub apart : DistinctIds r.1.chunks

  Ends-step :
      (written n : ℕ) (db db' db'' : Database) (r : Result Error ℕ)
      → pending db' + n ≡ pending db
      → Ends (written + n) db' r db''
      → Ends written db r db''
  Ends-step written n db db' db'' (ok k) e h = (omega arith, h.1)
  Ends-step written n db db' db'' (err x) e h = h

  abbrev rounds : ℕ → ℕ → ℕ → ℕ → Exec Error Database ℕ
  rounds = embed_rounds embedder on_progress workspace_id document_id batch_size

  -- What the loop does with the provider's answer, given the claim for the rounds that follow.
  answered-IsRun :
      (fuel round written total : ℕ) (db : Database) (batch : List Chunk)
      (answer : Result Text (List Vector))
      → embedder round (batch_texts batch) ≡ answer
      → pending db < suc fuel
      → DistinctIds db.chunks
      → IsBatch workspace_id document_id db.chunks batch
      → 1 ≤ length batch
      → ((written' : ℕ) (db' : Database)
          → pending db' < fuel
          → DistinctIds db'.chunks
          → IsRun written' db' (rounds fuel (round + 1) written' total db'))
      → IsRun written db (
          (store_vectors batch answer
              >> (modify (on_progress (written + length batch) total)
                  >> rounds fuel (round + 1) (written + length batch) total))
            db)
  unfolding store_vectors batch_texts
  answered-IsRun fuel round written total db batch (err e) asked f d b some_row ih = record {
    ends = FromProvider.refused round (batch_texts batch) e asked;
    grown = Grown-refl workspace_id document_id db.chunks;
    apart = d;
  }
  answered-IsRun fuel round written total db batch (ok vectors) asked f d b some_row ih =
      elim (Bool-cases (length vectors == length batch)) [
        | inl e ↦
            let written_db = record db { chunks = write_vectors batch vectors db.chunks } in
            let next_db = on_progress (written + length batch) total written_db in
            let keep = keeps_chunks (written + length batch) total written_db in
            let count =
              count-write_vectors workspace_id document_id batch vectors db.chunks
                ((==_iff _ _).0 e) d b in
            let fewer : pending next_db + length batch ≡ pending db = omega (
              arith,
              count,
              ap (λ (cs : List Chunk). count_pending workspace_id document_id cs) keep,
            ) in
            let rest = ih (written + length batch) next_db (omega (arith, fewer, f, some_row)) (
              subst DistinctIds (sym keep)
                (DistinctIds-write_vectors workspace_id document_id batch vectors db.chunks d)) in
            let last = (rounds fuel (round + 1) (written + length batch) total next_db).1 in
            rw e (record {
              ends = Ends-step written (length batch) db next_db _ _ fewer rest.ends;
              grown =
                  Grown-trans workspace_id document_id db.chunks written_db.chunks last.chunks
                    (Grown-write_vectors workspace_id document_id batch vectors db.chunks d b)
                    (subst (λ (cs : List Chunk). Grown workspace_id document_id cs last.chunks) keep
                      rest.grown);
              apart = rest.apart;
            })
        | inr e ↦ rw e (record {
          ends =
              FromProvider.miscounted round (batch_texts batch) vectors _ _ asked refl
                (sym (length-map _ batch)) (λ same. cc (e, (==_iff _ _).1 same));
          grown = Grown-refl workspace_id document_id db.chunks;
          apart = d;
        })
      ]

  embed_rounds-IsRun :
      (fuel round written total : ℕ) (db : Database)
      → pending db < fuel
      → DistinctIds db.chunks
      → IsRun written db (rounds fuel round written total db)
  unfolding embed_rounds
  embed_rounds-IsRun zero round written total db f d = absurd (omega arith)
  embed_rounds-IsRun (suc fuel) round written total db f d =
      let batch = next_batch workspace_id document_id batch_size db.chunks in
      let size = length-next_batch workspace_id document_id batch_size db.chunks in
      if_ind (λ (m : Exec Error Database ℕ). IsRun written db (m db)) (is_empty batch)
        (λ e.
          let none_left : pending db ≡ 0 = omega (arith, size, length-empty batch e) in
          record {
            ends = (omega (arith, none_left), none_left);
            grown = Grown-refl workspace_id document_id db.chunks;
            apart = d;
          })
        (λ e.
          answered-IsRun fuel round written total db batch (embedder round (batch_texts batch)) refl
            f d (next_batch-IsBatch workspace_id document_id batch_size db.chunks d)
            (length-nonempty batch e)
            (λ written' db' f' d'. embed_rounds-IsRun fuel (round + 1) written' total db' f' d'))

  -- A run of the embedding stage, for a positive batch size, a progress callback that leaves the
  -- chunks alone and chunks with distinct ids. When it ends without an error, no chunk of the
  -- document is left without a vector, and the number that it returns is that of the chunks which
  -- had none. When it ends with an error, an answer of the provider accounts for it: an error of
  -- its own, or a number of vectors other than that of the texts; the loop itself always ends. On
  -- both ends every chunk keeps its text, one that had a vector or belongs to another document is
  -- unchanged, and the ids stay distinct.
  pub embed_document_lem :
      (db : Database)
      → DistinctIds db.chunks
      → IsRun 0 db (embed_document embedder on_progress workspace_id document_id batch_size db)
  unfolding embed_document
  embed_document_lem db d =
      if_ind (λ (m : Exec Error Database ℕ). IsRun 0 db (m db)) (pending db == 0)
        (λ e.
          let none_left = (==_iff _ _).0 e in
          record {
            ends = (omega (arith, none_left), none_left);
            grown = Grown-refl workspace_id document_id db.chunks;
            apart = d;
          })
        (λ e. embed_rounds-IsRun (pending db + 1) 0 0 (pending db) db (omega arith) d)

  abbrev vector_count : Result Text (List Vector) → ℕ
  vector_count (ok vectors) = length vectors
  vector_count (err e) = 0

  clash :
      {a : Result Text (List Vector)} {e : Text} {vectors : List Vector}
      → a ≡ err e
      → a ≡ ok vectors
      → ⊥
  clash p q = cc

  ok_of_run :
      ((round : ℕ) (texts : List Text)
        → (vectors : List Vector) × (embedder round texts ≡ ok vectors)
          × (length vectors ≡ length texts))
      → (db db' : Database) (r : Result Error ℕ) → Ends 0 db r db'
      → (r ≡ ok (pending db)) × (pending db' ≡ 0)
  ok_of_run answers db db' (ok n) h = (ap ok (omega (arith, h.0)), h.1)
  ok_of_run answers db db' (err e) (FromProvider.refused round texts x asked) =
      absurd (clash asked (answers round texts).1)
  ok_of_run answers db db' (err e)
        (FromProvider.miscounted round texts vectors got wanted asked g w ne) =
      absurd (
        ne (
          g
          ∙ ap (λ (r : Result Text (List Vector)). vector_count r)
              (sym asked ∙ (answers round texts).1)
          ∙ (answers round texts).2
          ∙ sym w))

  -- When the provider answers every call with one vector for each text, the stage succeeds in
  -- every database whose chunks have distinct ids, for a positive batch size and a progress
  -- callback that leaves the chunks alone: it returns the number of chunks without a vector, and
  -- leaves none.
  pub embed_document-answered :
      ((round : ℕ) (texts : List Text)
        → (vectors : List Vector) × (embedder round texts ≡ ok vectors)
          × (length vectors ≡ length texts))
      → (db : Database) → DistinctIds db.chunks
      → let r = embed_document embedder on_progress workspace_id document_id batch_size db in
        (r.0 ≡ ok (pending db)) × (pending r.1 ≡ 0)
  embed_document-answered answers db d = ok_of_run answers db _ _ (embed_document_lem db d).ends
