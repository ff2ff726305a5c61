-- ===== src/Database.antt =====
-- The tables that ingestion works on, and the database's clock. A `session_scope` that raises is
-- rolled back; one that ends is committed, and so is what stands in the next state.
use doc_chat_platform.Base.{[], none, List, Option, ℕ}
use doc_chat_platform.Text.{Text}
use doc_chat_platform.Models.{Document, DocumentFile, Chunk, IngestJob}

-- `workspaces.profile`: counted vocabularies in the order in which the words were first met. The
-- empty object has no word, no document and no time.
pub record WorkspaceProfile : Type 0 where
  pub topics : List (Text × ℕ)
  pub entities : List (Text × ℕ)
  pub document_types : List (Text × ℕ)
  pub document_count : ℕ
  pub updated_at : Option ℕ

abbrev pub empty_profile : WorkspaceProfile
empty_profile = record {
  topics = [];
  entities = [];
  document_types = [];
  document_count = 0;
  updated_at = none;
}

pub record Workspace : Type 0 where
  pub id : ℕ
  pub name : Text
  pub slug : Text
  pub profile : WorkspaceProfile
  pub created_at : ℕ

pub record Database : Type 0 where
  pub clock : ℕ
  pub workspaces : List Workspace
  pub documents : List Document
  pub files : List DocumentFile
  pub chunks : List Chunk
  pub jobs : List IngestJob

-- What the pipeline raises: its own errors, those of the parser, the embedder and the file store,
-- and those of the database. `no_fuel` is no error of the program: a loop of the model ends by it
-- when its fuel is gone, and the theorems on the loops exclude it.
pub data Error : Type 0 where
  ingest_error : Text → Error
  file_not_found : Error
  provider_error : Text → Error
  wrong_vector_count : ℕ → ℕ → Error
  multiple_results_found no_result_found : Error
  no_fuel : Error
