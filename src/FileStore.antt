-- ===== src/FileStore.antt =====
-- app/implementations/postgres_file_store.py: the stored bytes, over the rows of `document_files`.
use doc_chat_platform.Sql.{delete_where, find_where, update_where}
use doc_chat_platform.Models.{DocumentFile}
use doc_chat_platform.Base.{
  [], none, some, Bool, List, Option, ℕ, ◌==◌, if◌then◌else◌, ◌&&◌, any, ◌++◌, ◌∷◌,
}

-- `PostgresFileStore.put`: INSERT … ON CONFLICT (document_id) DO UPDATE
abbrev pub of_document : ℕ → DocumentFile → Bool
of_document document_id file = file.document_id == document_id

unfoldable pub put_file : DocumentFile → List DocumentFile → List DocumentFile
put_file new files =
    if any (of_document new.document_id) files
    then update_where (of_document new.document_id) (λ _. new) files
    else files ++ new ∷ []

abbrev pub content_of : Option DocumentFile → Option (List ℕ)
content_of none = none
content_of (some file) = some file.content

-- `PostgresFileStore.get`: the content of this document in this workspace, if there is one
unfoldable pub get_file : ℕ → ℕ → List DocumentFile → Option (List ℕ)
get_file workspace_id document_id files =
    content_of
      (find_where (λ f. f.document_id == document_id && f.workspace_id == workspace_id) files)

-- `PostgresFileStore.delete`
unfoldable pub delete_file : ℕ → ℕ → List DocumentFile → List DocumentFile
delete_file workspace_id document_id files =
    delete_where (λ f. f.document_id == document_id && f.workspace_id == workspace_id) files
