-- ===== src/VectorStore.antt =====
-- app/implementations/pgvector_store.py, the writes: `upsert` and `delete_by_document` over the
-- rows of `chunks`.
use doc_chat_platform.Sql.{delete_where, update_where}
use doc_chat_platform.Base.{[], Bool, List, if◌then◌else◌, ◌∷◌, ℕ, any, ◌==◌, ◌&&◌, ◌++◌}
use doc_chat_platform.Models.{Chunk}

abbrev pub has_id : ℕ → Chunk → Bool
has_id i chunk = chunk.id == i

-- The SET clause of ON CONFLICT (id) DO UPDATE: the keys and the ordinal of the old row stay.
unfoldable pub overwrite : Chunk → Chunk → Chunk
overwrite new old = record old {
  content = new.content;
  contextual_header = new.contextual_header;
  section_path = new.section_path;
  tags = new.tags;
  token_count = new.token_count;
  embedding = new.embedding;
}

unfoldable pub upsert_one : Chunk → List Chunk → List Chunk
unfolding overwrite
upsert_one new chunks =
    if any (has_id new.id) chunks
    then update_where (has_id new.id) (overwrite new) chunks
    else chunks ++ new ∷ []

unfoldable pub upsert : List Chunk → List Chunk → List Chunk
unfolding upsert_one
upsert [] chunks = chunks
upsert (new ∷ news) chunks = upsert news (upsert_one new chunks)

-- A chunk of this document in this workspace; every caller passes the workspace.
unfoldable pub belongs : ℕ → ℕ → Chunk → Bool
belongs workspace_id document_id chunk =
    chunk.document_id == document_id && chunk.workspace_id == workspace_id

unfoldable pub delete_by_document : ℕ → ℕ → List Chunk → List Chunk
unfolding belongs
delete_by_document workspace_id document_id chunks =
    delete_where (belongs workspace_id document_id) chunks
