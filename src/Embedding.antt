-- ===== src/Embedding.antt =====
-- app/pipeline/embedding.py: a document's chunks are embedded in batches, each committed at once.
pub mod Progress
pub mod Growth
pub mod Batches
use doc_chat_platform.Sql.{update_where, count_where, order_by, select_where}
use doc_chat_platform.Base.{
  [], none, some, zero, suc, ok, err, Bool, List, Option, map, ◌∷◌, ℕ, Exec, ◌++◌, ◌==◌, take,
  Result, if◌then◌else◌, ◌&&◌, raise, is_none, length, ◌>>=◌, gets, pure, is_empty, ◌+◌, ◌>>◌,
  modify,
}
use doc_chat_platform.Text.{Text}
use doc_chat_platform.Models.{Chunk}
use doc_chat_platform.Database.{Database, Error}
use doc_chat_platform.VectorStore.{has_id}

abbrev pub Vector : Type 0
Vector = List ℕ

-- The embedding provider, at its nth call of this run: a vector for each text, or an error. It is
-- not under the repository's control.
abbrev pub Embedder : Type 0
Embedder = ℕ → List Text → Result Text (List Vector)

-- WHERE workspace_id = … AND document_id = … AND embedding IS NULL
unfoldable pub is_outstanding : ℕ → ℕ → Chunk → Bool
is_outstanding workspace_id document_id chunk =
    chunk.workspace_id == workspace_id
    && (chunk.document_id == document_id && is_none chunk.embedding)

unfoldable pub count_pending : ℕ → ℕ → List Chunk → ℕ
unfolding is_outstanding
count_pending workspace_id document_id chunks =
    count_where (is_outstanding workspace_id document_id) chunks

abbrev pub by_ordinal : Chunk → ℕ
by_ordinal chunk = chunk.ordinal

unfoldable pub next_batch : ℕ → ℕ → ℕ → List Chunk → List Chunk
unfolding is_outstanding
next_batch workspace_id document_id size chunks =
    take size (order_by by_ordinal (select_where (is_outstanding workspace_id document_id) chunks))

abbrev pub blank_line : Text
blank_line = 10 ∷ 10 ∷ []

-- `f"{header}\n\n{content}" if header else content`
unfoldable pub embedding_text : Text → Option Text → Text
embedding_text content none = content
embedding_text content (some []) = content
embedding_text content (some (c ∷ cs)) = (c ∷ cs) ++ (blank_line ++ content)

unfoldable pub batch_texts : List Chunk → List Text
unfolding embedding_text
batch_texts batch = map (λ chunk. embedding_text chunk.content chunk.contextual_header) batch

abbrev pub set_vector : Vector → Chunk → Chunk
set_vector vector chunk = record chunk { embedding = some vector }

-- UPDATE … SET embedding = vector WHERE id = chunk_id, for each pair of `zip(batch, vectors)`
unfoldable pub write_vectors : List Chunk → List Vector → List Chunk → List Chunk
write_vectors [] vectors chunks = chunks
write_vectors (row ∷ batch) [] chunks = chunks
write_vectors (row ∷ batch) (v ∷ vectors) chunks =
    write_vectors batch vectors (update_where (has_id row.id) (set_vector v) chunks)

-- What the provider's answer for a batch leads to: the length check, and the commit.
unfoldable pub store_vectors : List Chunk → Result Text (List Vector) → Exec Error Database Unit
unfolding write_vectors
store_vectors batch (err e) db = (err (Error.provider_error e), db)
store_vectors batch (ok vectors) db =
    if length vectors == length batch
    then (ok tt, record db { chunks = write_vectors batch vectors db.chunks })
    else (err (Error.wrong_vector_count (length vectors) (length batch)), db)

module _ (embedder : Embedder) (on_progress : ℕ → ℕ → Database → Database)
    (workspace_id document_id batch_size : ℕ) where
  -- The loop; `round` counts the calls of the provider. Each round that is completed leaves fewer
  -- chunks outstanding, so that one more round than there are chunks is enough fuel.
  unfoldable pub embed_rounds : ℕ → ℕ → ℕ → ℕ → Exec Error Database ℕ
  unfolding next_batch batch_texts store_vectors
  embed_rounds zero round written total = raise Error.no_fuel
  embed_rounds (suc fuel) round written total = do
    batch ← gets (λ db. next_batch workspace_id document_id batch_size db.chunks)
    if is_empty batch then pure written else do
      store_vectors batch (embedder round (batch_texts batch))
      modify (on_progress (written + length batch) total)
      embed_rounds fuel (round + 1) (written + length batch) total

  unfoldable pub embed_document : Exec Error Database ℕ
  unfolding count_pending embed_rounds
  embed_document = do
    total ← gets (λ db. count_pending workspace_id document_id db.chunks)
    if total == 0 then pure 0 else embed_rounds (total + 1) 0 0 total
