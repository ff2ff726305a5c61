-- ===== src/Documents/Deletion.antt =====
-- What is left after a document was deleted.
use doc_chat_platform.FileStore.{of_document}
use doc_chat_platform.Ingest.{in_workspace}
use doc_chat_platform.Profiling.{rebuild_workspace_profile}
use doc_chat_platform.VectorStore.{belongs}
use doc_chat_platform.Persist.{document_has_id, workspace_has_id}
use doc_chat_platform.Sql.{count_where, select_where, delete_where}
use doc_chat_platform.Models.{Document}
use doc_chat_platform.Database.{Database}
use doc_chat_platform.Documents.{
  DeleteError, chunk_of_document, stored_profiles, job_for_document, several_documents, not_found,
  no_workspace,
}
use mathlib.Core.List.{Memᴰ}
use doc_chat_platform.Base.{ok, err, ℕ, Result, All, ◌≡◌, List, ◌<◌, ◌≢◌}

-- Nothing refers to the document, and the documents of other ids are all still there.
pub record Gone (i : ℕ) (before db : Database) : Type 0 where
  pub no_row : count_where (document_has_id i) db.documents ≡ 0
  pub no_files : count_where (of_document i) db.files ≡ 0
  pub chunks_gone : count_where (chunk_of_document i) db.chunks ≡ 0
  pub no_jobs : count_where (job_for_document i) db.jobs ≡ 0
  pub others : db.documents ≡ delete_where (document_has_id i) before.documents

-- The vocabulary of a workspace is what the profiles of its documents add up to.
pub record Counted (workspace_id : ℕ) (db : Database) : Type 0 where
  pub each :
      All
        (λ w.
          w.id ≡ workspace_id
          → w.profile
            ≡ rebuild_workspace_profile db.clock
                (stored_profiles (select_where (in_workspace workspace_id) db.documents)))
        db.workspaces

-- How a deletion ends.
pub data Deleted (document_id : ℕ) (db : Database) : Result DeleteError ℕ × Database → Type 0 where
  missing :
      count_where (document_has_id document_id) db.documents ≡ 0
      → Deleted document_id db (err (not_found document_id), db)
  two_rows :
      1 < count_where (document_has_id document_id) db.documents
      → Deleted document_id db (err several_documents, db)
  no_one_workspace :
      (document : Document)
      → Memᴰ document db.documents
      → count_where (workspace_has_id document.workspace_id) db.workspaces ≢ 1
      → Deleted document_id db (err no_workspace, db)
  deleted :
      (document : Document) (db' : Database)
      → Memᴰ document db.documents
      → document.id ≡ document_id
      → Gone document_id db db'
      → Counted document.workspace_id db'
      → Deleted document_id db
          (ok (count_where (belongs document.workspace_id document_id) db.chunks), db')
