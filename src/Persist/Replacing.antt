-- ===== src/Persist/Replacing.antt =====
-- Replacing the chunks of a document: the old ones go, the new ones have no vector yet.
use doc_chat_platform.Profiling.{chunk_tags}
use doc_chat_platform.Database.{Database}
use doc_chat_platform.Sql.Counting.{
  count_where-absent, count_where-append, DistinctBy-append, DistinctBy-delete_where,
}
use doc_chat_platform.Sql.{count_where, delete_where}
use doc_chat_platform.Embedding.{count_pending, is_outstanding}
use doc_chat_platform.Sql.Laws.{All-delete_where, delete_where_gone}
use doc_chat_platform.Persist.{chunks_of_drafts, chunk_of_draft, replace_chunks}
use doc_chat_platform.Embedding.Batches.{DistinctIds}
use doc_chat_platform.Models.{Chunk, Tags, ChunkDraft, DocumentProfile}
use mathlib.Core.Path.{subst}
use doc_chat_platform.VectorStore.{has_id, upsert, upsert_one, delete_by_document, belongs}
use doc_chat_platform.Base.{
  [], false, suc, refl, arith, List, ℕ, ◌≢◌, All, ◌∷◌, any, length, ◌<◌, ◌≡◌, ◌++◌, ◌+◌, ap, sym,
  append-nil, All-append, ◌∙◌, append_assoc, ok, All-imp, none,
}

-- The ids that uuid4() returns: no two are the same, and none is in the table.
pub record NewIds (new_id : ℕ → ℕ) (chunks : List Chunk) : Type 0 where
  pub distinct : (m n : ℕ) → m ≢ n → new_id m ≢ new_id n
  pub fresh : (n : ℕ) → All (λ c. c.id ≢ new_id n) chunks

-- The row of a draft, column by column; the tags are those of the document's profile.
pub record IsRow (id workspace_id document_id : ℕ) (profile : DocumentProfile) (draft : ChunkDraft)
    (c : Chunk) : Type 0 where
  pub has_id : c.id ≡ id
  pub of_document : c.document_id ≡ document_id
  pub of_workspace : c.workspace_id ≡ workspace_id
  pub ordinal : c.ordinal ≡ draft.ordinal
  pub content : c.content ≡ draft.content
  pub contextual_header : c.contextual_header ≡ draft.contextual_header
  pub section_path : c.section_path ≡ draft.section_path
  pub document_type : c.tags.document_type ≡ profile.document_type
  pub topics : c.tags.topics ≡ profile.topics
  pub entities : c.tags.entities ≡ profile.entities
  pub token_count : c.token_count ≡ draft.token_count
  pub embedding : c.embedding ≡ none

-- A row for each draft, in their order, with the new ids from the nth on.
abbrev pub AreRows : (ℕ → ℕ) → ℕ → ℕ → DocumentProfile → ℕ → List ChunkDraft → List Chunk → Type 0
AreRows new_id workspace_id document_id profile n [] [] = Unit
AreRows new_id workspace_id document_id profile n [] (c ∷ cs) = ⊥
AreRows new_id workspace_id document_id profile n (draft ∷ drafts) [] = ⊥
AreRows new_id workspace_id document_id profile n (draft ∷ drafts) (c ∷ cs) =
    IsRow (new_id n) workspace_id document_id profile draft c
    × AreRows new_id workspace_id document_id profile (n + 1) drafts cs

AreRows-chunks_of_drafts :
    (new_id : ℕ → ℕ) (workspace_id document_id : ℕ) (profile : DocumentProfile) (n : ℕ)
    (drafts : List ChunkDraft)
    → AreRows new_id workspace_id document_id profile n drafts
        (chunks_of_drafts new_id n workspace_id document_id (chunk_tags profile) drafts)
unfolding chunks_of_drafts chunk_of_draft chunk_tags
AreRows-chunks_of_drafts new_id workspace_id document_id profile n [] = tt
AreRows-chunks_of_drafts new_id workspace_id document_id profile n (draft ∷ drafts) = (
  record {
    has_id = refl;
    of_document = refl;
    of_workspace = refl;
    ordinal = refl;
    content = refl;
    contextual_header = refl;
    section_path = refl;
    document_type = refl;
    topics = refl;
    entities = refl;
    token_count = refl;
    embedding = refl;
  },
  AreRows-chunks_of_drafts new_id workspace_id document_id profile (n + 1) drafts,
)

any-absent :
    (i : ℕ) (chunks : List Chunk) → All (λ c. c.id ≢ i) chunks → any (has_id i) chunks ≡ false
any-absent i [] h = refl
any-absent i (c ∷ chunks) h = ground (arith, h.0, any-absent i chunks h.1)

upsert_one-absent :
    (r : Chunk) (chunks : List Chunk)
    → All (λ c. c.id ≢ r.id) chunks
    → upsert_one r chunks ≡ chunks ++ r ∷ []
unfolding upsert_one
upsert_one-absent r chunks h = rw (any-absent r.id chunks h) refl

-- Rows whose ids are new are appended.
upsert-absent :
    (rows chunks : List Chunk)
    → DistinctIds rows
    → All (λ r. All (λ c. c.id ≢ r.id) chunks) rows
    → upsert rows chunks ≡ chunks ++ rows
unfolding upsert
upsert-absent [] chunks d h = sym (append-nil chunks)
upsert-absent (r ∷ rows) chunks d h =
    let step = upsert_one-absent r chunks h.0 in
    rw step (
      upsert-absent rows (chunks ++ r ∷ []) d.1 (widen rows d.0 h.1)
      ∙ append_assoc chunks (r ∷ []) rows)
  where
    widen :
        (rest : List Chunk)
        → All (λ y. y.id ≢ r.id) rest
        → All (λ y. All (λ c. c.id ≢ y.id) chunks) rest
        → All (λ y. All (λ c. c.id ≢ y.id) (chunks ++ r ∷ [])) rest
    widen [] ne k = tt
    widen (y ∷ rest) ne k = (
      All-append (λ c. c.id ≢ y.id) chunks (r ∷ []) k.0 ((λ e. ne.0 (sym e)), tt),
      widen rest ne.1 k.1,
    )

module _ (new_id : ℕ → ℕ) (workspace_id document_id : ℕ) (tags : Tags) where
  abbrev rows_of : ℕ → List ChunkDraft → List Chunk
  rows_of n drafts = chunks_of_drafts new_id n workspace_id document_id tags drafts

  length-rows_of : (n : ℕ) (drafts : List ChunkDraft) → length (rows_of n drafts) ≡ length drafts
  unfolding chunks_of_drafts
  length-rows_of n [] = refl
  length-rows_of n (draft ∷ drafts) = ap suc (length-rows_of (n + 1) drafts)

  count-rows_of :
      (n : ℕ) (drafts : List ChunkDraft)
      → count_pending workspace_id document_id (rows_of n drafts) ≡ length drafts
  unfolding chunks_of_drafts chunk_of_draft count_pending is_outstanding count_where
  count-rows_of n [] = refl
  count-rows_of n (draft ∷ drafts) = ground (arith, count-rows_of (n + 1) drafts)

  module _ (chunks : List Chunk) (ids : NewIds new_id chunks) where
    later :
        (m n : ℕ) (drafts : List ChunkDraft) → m < n → All (λ c. c.id ≢ new_id m) (rows_of n drafts)
    unfolding chunks_of_drafts
    later m n [] h = tt
    later m n (draft ∷ drafts) h =
        (ids.distinct n m (λ e. absurd (omega arith)), later m (n + 1) drafts (omega arith))

    DistinctIds-rows_of : (n : ℕ) (drafts : List ChunkDraft) → DistinctIds (rows_of n drafts)
    unfolding chunks_of_drafts
    DistinctIds-rows_of n [] = tt
    DistinctIds-rows_of n (draft ∷ drafts) =
        (later n (n + 1) drafts (omega arith), DistinctIds-rows_of (n + 1) drafts)

    fresh-rows_of :
        (n : ℕ) (drafts : List ChunkDraft)
        → All
            (λ r. All (λ c. c.id ≢ r.id) (delete_by_document workspace_id document_id chunks))
            (rows_of n drafts)
    unfolding chunks_of_drafts delete_by_document
    fresh-rows_of n [] = tt
    fresh-rows_of n (draft ∷ drafts) = (
      All-delete_where (λ c. c.id ≢ new_id n) (belongs workspace_id document_id) chunks
          (ids.fresh n),
      fresh-rows_of (n + 1) drafts,
    )

  none_left :
      (chunks : List Chunk)
      → count_pending workspace_id document_id (delete_by_document workspace_id document_id chunks)
        ≡ 0
  unfolding count_pending delete_by_document belongs is_outstanding
  none_left chunks = count_where-absent (is_outstanding workspace_id document_id) _ (
      All-imp (λ c. belongs workspace_id document_id c ≡ false) _ _ closed
        (delete_where_gone (belongs workspace_id document_id) chunks))
    where
      closed :
          (c : Chunk)
          → belongs workspace_id document_id c ≡ false
          → is_outstanding workspace_id document_id c ≡ false
      closed c h = ground (arith, h)

module _ (new_id : ℕ → ℕ) (workspace_id document_id : ℕ) where
  -- Replacing the chunks of a document, with new ids that are distinct and not in the table, puts
  -- a row for each draft, in their order, after what the table held of other documents: the row has
  -- the text, the header, the path, the ordinal and the token count of the draft, the tags of the
  -- profile, and no vector. It returns the number of the drafts, as many chunks of the document have no vector, and the ids stay distinct.
  pub replace_chunks_lem :
      (drafts : List ChunkDraft) (profile : DocumentProfile) (db : Database)
      → NewIds new_id db.chunks
      → DistinctIds db.chunks
      → let r = replace_chunks new_id workspace_id document_id drafts profile db in
        (r.0 ≡ ok (length drafts))
        × ((rows : List Chunk) × (r.1.chunks
              ≡ delete_where (belongs workspace_id document_id) db.chunks ++ rows)
            × AreRows new_id workspace_id document_id profile 0 drafts rows)
        × (count_pending workspace_id document_id r.1.chunks ≡ length drafts)
        × DistinctIds r.1.chunks
  unfolding replace_chunks delete_by_document count_pending
  replace_chunks_lem drafts profile db ids d =
      let tags = chunk_tags profile in
      let rows = rows_of new_id workspace_id document_id tags 0 drafts in
      let old = delete_where (belongs workspace_id document_id) db.chunks in
      let apart = DistinctIds-rows_of new_id workspace_id document_id tags db.chunks ids 0 drafts in
      let fresh = fresh-rows_of new_id workspace_id document_id tags db.chunks ids 0 drafts in
      let there = upsert-absent rows old apart fresh in
      (
        ap ok (length-rows_of new_id workspace_id document_id tags 0 drafts),
        (rows, there, AreRows-chunks_of_drafts new_id workspace_id document_id profile 0 drafts),
        ap (λ (cs : List Chunk). count_pending workspace_id document_id cs) there
            ∙ counted rows old (none_left new_id workspace_id document_id tags db.chunks)
            ∙ count-rows_of new_id workspace_id document_id tags 0 drafts,
        subst DistinctIds (sym there) (
            DistinctBy-append (λ c. c.id) old rows fresh
              (DistinctBy-delete_where (λ c. c.id) (belongs workspace_id document_id) db.chunks d)
              apart),
      )
    where
      counted :
          (rows old : List Chunk)
          → count_pending workspace_id document_id old ≡ 0
          → count_pending workspace_id document_id (old ++ rows)
            ≡ count_pending workspace_id document_id rows
      counted rows old h =
          omega (arith, h, count_where-append (is_outstanding workspace_id document_id) old rows)
