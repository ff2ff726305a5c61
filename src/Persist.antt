-- ===== src/Persist.antt =====
-- app/pipeline/persist.py: the writes that the stages of ingestion share. Each function opens its
-- own session: it is committed as a whole, or rolled back when it raises.
pub mod Replacing
use doc_chat_platform.Text.{Text}
use doc_chat_platform.Database.{Database, Workspace, Error}
use doc_chat_platform.Models.{
  Tags, DocumentProfile, DocumentStatus, Document, text, ChunkDraft, Chunk,
}
use doc_chat_platform.Profiling.{merge_workspace_profile, chunk_tags}
use doc_chat_platform.Sql.{scalar_one_or_none, TooMany, count_where, update_where, select_where}
use doc_chat_platform.VectorStore.{belongs, delete_by_document, upsert}
use doc_chat_platform.Base.{
  [], none, some, ok, err, Bool, List, Option, Result, ℕ, Exec, ◌==◌, if◌then◌else◌, length, ◌∷◌,
  ◌+◌,
}

abbrev pub document_has_id : ℕ → Document → Bool
document_has_id i document = document.id == i

-- The `values` of the UPDATE; `now` is the application's clock.
unfoldable pub with_status :
    ℕ → DocumentStatus → Option Text → Option ℕ → Bool → Document → Document
with_status now status error_message page_count mark_indexed document = record document {
  status = status;
  error_message = error_message;
  page_count = elim page_count [ none ↦ document.page_count | some n ↦ some n ];
  indexed_at = if mark_indexed then some now else document.indexed_at;
}

unfoldable pub set_document_status :
    ℕ → DocumentStatus → Option Text → Option ℕ → Bool → Database → Database
unfolding with_status
set_document_status document_id status error_message page_count mark_indexed db = record db {
  documents =
      update_where (document_has_id document_id)
        (with_status db.clock status error_message page_count mark_indexed) db.documents;
}

abbrev pub workspace_has_id : ℕ → Workspace → Bool
workspace_has_id i workspace = workspace.id == i

abbrev pub with_profile : ℕ → DocumentProfile → Workspace → Workspace
with_profile now profile workspace = record workspace {
  profile = merge_workspace_profile now workspace.profile profile;
}

-- The document's profile and the workspace's vocabulary, in one transaction: `scalar_one` raises
-- when there is no such workspace, and neither is written.
unfoldable pub fold_profile :
    ℕ → DocumentProfile → Result TooMany (Option Workspace) → Exec Error Database Unit
unfolding merge_workspace_profile
fold_profile document_id profile (err e) db = (err Error.multiple_results_found, db)
fold_profile document_id profile (ok none) db = (err Error.no_result_found, db)
fold_profile document_id profile (ok (some workspace)) db = (
  ok tt,
  record db {
    documents =
        update_where (document_has_id document_id) (λ d. record d { profile = some profile })
          db.documents;
    workspaces =
        update_where (workspace_has_id workspace.id) (with_profile db.clock profile) db.workspaces;
  },
)

unfoldable pub store_document_profile : ℕ → ℕ → DocumentProfile → Exec Error Database Unit
unfolding fold_profile scalar_one_or_none
store_document_profile workspace_id document_id profile db =
    fold_profile document_id profile
      (scalar_one_or_none (select_where (workspace_has_id workspace_id) db.workspaces)) db

-- A row for a draft; its id is uuid4().
unfoldable pub chunk_of_draft : ℕ → ℕ → ℕ → Tags → ChunkDraft → Chunk
chunk_of_draft id workspace_id document_id tags draft = record {
  id = id;
  document_id = document_id;
  workspace_id = workspace_id;
  ordinal = draft.ordinal;
  content = draft.content;
  contextual_header = draft.contextual_header;
  section_path = draft.section_path;
  tags = tags;
  token_count = draft.token_count;
  embedding = none;
}

-- The rows of the drafts, the nth of which has the nth of the new ids.
unfoldable pub chunks_of_drafts : (ℕ → ℕ) → ℕ → ℕ → ℕ → Tags → List ChunkDraft → List Chunk
unfolding chunk_of_draft
chunks_of_drafts new_id n workspace_id document_id tags [] = []
chunks_of_drafts new_id n workspace_id document_id tags (draft ∷ drafts) =
    chunk_of_draft (new_id n) workspace_id document_id tags draft
    ∷ chunks_of_drafts new_id (n + 1) workspace_id document_id tags drafts

unfoldable pub replace_chunks :
    (ℕ → ℕ) → ℕ → ℕ → List ChunkDraft → DocumentProfile → Exec Error Database ℕ
unfolding chunk_tags chunks_of_drafts delete_by_document upsert
replace_chunks new_id workspace_id document_id drafts profile db =
    let chunks = chunks_of_drafts new_id 0 workspace_id document_id (chunk_tags profile) drafts in
    (
      ok (length chunks),
      record db { chunks = upsert chunks (delete_by_document workspace_id document_id db.chunks) },
    )

unfoldable pub count_chunks : ℕ → ℕ → Database → ℕ
unfolding belongs
count_chunks workspace_id document_id db = count_where (belongs workspace_id document_id) db.chunks

abbrev pub row_result : Result TooMany (Option Document) → Result Error (Option Document)
row_result (err e) = err Error.multiple_results_found
row_result (ok found) = ok found

unfoldable pub load_document : ℕ → Exec Error Database (Option Document)
unfolding scalar_one_or_none
load_document document_id db =
    (row_result (scalar_one_or_none (select_where (document_has_id document_id) db.documents)), db)
