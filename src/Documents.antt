-- ===== src/Documents.antt =====
-- app/api/documents.py: deletion of a document with all that hangs on it. The route's session is
-- committed at its end; a route that raises leaves the database as it was.
pub mod Deletion
use doc_chat_platform.FileStore.{of_document, delete_file}
use doc_chat_platform.Persist.{document_has_id, workspace_has_id}
use doc_chat_platform.Ingest.{key_of, in_workspace}
use doc_chat_platform.Profiling.{rebuild_workspace_profile}
use doc_chat_platform.VectorStore.{delete_by_document, belongs}
use doc_chat_platform.Models.{Document, DocumentProfile, IngestJob, Chunk}
use doc_chat_platform.Database.{WorkspaceProfile, Database, Workspace}
use doc_chat_platform.Sql.{
  scalar_one_or_none, delete_where, select_where, TooMany, count_where, update_where,
}
use doc_chat_platform.Base.{[], none, some, ok, err, Bool, List, Option, ℕ, Result, Exec, ◌∷◌, ◌==◌}

pub data DeleteError : Type 0 where
  not_found : ℕ → DeleteError
  several_documents : DeleteError
  no_workspace : DeleteError

abbrev pub job_for_document : ℕ → IngestJob → Bool
job_for_document i job = job.document_id == i

abbrev pub chunk_of_document : ℕ → Chunk → Bool
chunk_of_document i chunk = chunk.document_id == i

-- `session.delete(document)`: the rows that refer to the document go with it (ON DELETE CASCADE).
unfoldable pub delete_row : ℕ → Database → Database
delete_row i db = record db {
  documents = delete_where (document_has_id i) db.documents;
  files = delete_where (of_document i) db.files;
  chunks = delete_where (chunk_of_document i) db.chunks;
  jobs = delete_where (job_for_document i) db.jobs;
}

-- `[p for p in remaining if p]`
unfoldable pub stored_profiles : List Document → List DocumentProfile
stored_profiles [] = []
stored_profiles (d ∷ documents) = elim d.profile [
  | none ↦ stored_profiles documents
  | some profile ↦ profile ∷ stored_profiles documents
]

abbrev pub set_profile : WorkspaceProfile → Workspace → Workspace
set_profile profile workspace = record workspace { profile = profile }

-- The workspace's vocabulary is recomputed from the documents that remain.
unfoldable pub rebuild_vocabulary :
    ℕ → ℕ → Result TooMany (Option Workspace) → Exec DeleteError Database Unit
unfolding stored_profiles rebuild_workspace_profile
rebuild_vocabulary workspace_id now (err e) db = (err no_workspace, db)
rebuild_vocabulary workspace_id now (ok none) db = (err no_workspace, db)
rebuild_vocabulary workspace_id now (ok (some workspace)) db =
    let remaining = select_where (in_workspace workspace_id) db.documents in
    (
      ok tt,
      record db {
        workspaces =
            update_where (workspace_has_id workspace.id)
              (set_profile (rebuild_workspace_profile now (stored_profiles remaining)))
              db.workspaces;
      },
    )

-- The rows of the document, its chunks by the store and its file by its key, then the row itself.
unfoldable pub remove_document : Document → Database → Database
unfolding delete_by_document delete_file delete_row
remove_document document db = delete_row document.id (record db {
  chunks = delete_by_document document.workspace_id document.id db.chunks;
  files = delete_file document.workspace_id (key_of document) db.files;
})

-- What is committed, or what stood before when the route raises.
abbrev pub commit_or_roll_back :
    Database → ℕ → Result DeleteError Unit × Database → Result DeleteError ℕ × Database
commit_or_roll_back before n (ok tt, db) = (ok n, db)
commit_or_roll_back before n (err e, db) = (err e, before)

unfoldable pub delete_found : ℕ → Result TooMany (Option Document) → Exec DeleteError Database ℕ
unfolding remove_document rebuild_vocabulary scalar_one_or_none
delete_found document_id (err e) db = (err several_documents, db)
delete_found document_id (ok none) db = (err (not_found document_id), db)
delete_found document_id (ok (some document)) db =
    let removed = remove_document document db in
    commit_or_roll_back db (count_where (belongs document.workspace_id document.id) db.chunks) (
      rebuild_vocabulary document.workspace_id db.clock
        (scalar_one_or_none
          (select_where (workspace_has_id document.workspace_id) removed.workspaces))
        removed)

unfoldable pub delete_document : ℕ → Exec DeleteError Database ℕ
unfolding delete_found
delete_document document_id db =
    delete_found document_id
      (scalar_one_or_none (select_where (document_has_id document_id) db.documents)) db
