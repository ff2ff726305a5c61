-- ===== src/Examples.antt =====
-- Concrete inputs on which the theorems are applied, and runs of the definitions on them.
pub mod Chunks
pub mod Files
pub mod Jobs
pub mod Offices
pub mod Uploads
pub mod Runs
pub mod Calls
pub mod People
pub mod Rooms
use doc_chat_platform.Text.{codes}
use doc_chat_platform.Database.{Database, empty_profile, Workspace}
use doc_chat_platform.Models.{
  Document, IngestJob, Tags, code, Chunk, JobStatus, DocumentStatus, empty_checkpoint,
}
use doc_chat_platform.Base.{[], none, some, List, Option, ℕ, ◌∷◌}

-- Rows that the examples share.
abbrev pub sample_job : IngestJob
sample_job = record {
  id = 7;
  workspace_id = 1;
  document_id = 3;
  status = JobStatus.running;
  stage = DocumentStatus.embedding;
  progress_pct = 50;
  error_message = none;
  checkpoint = record { chunks_written = some 2; embedded = none; embed_total = none };
  attempts = 1;
  heartbeat_at = some 100;
  started_at = some 90;
  finished_at = none;
  created_at = 80;
}

abbrev pub waiting_job : IngestJob
waiting_job = record sample_job {
  id = 8;
  status = JobStatus.pending;
  checkpoint = empty_checkpoint;
  attempts = 0;
  heartbeat_at = none;
  started_at = none;
  created_at = 85;
}

abbrev pub sample_document : Document
sample_document = record {
  id = 3;
  workspace_id = 1;
  filename = codes "guide.txt";
  mime_type = codes "text/plain";
  file_hash = codes "h1";
  size_bytes = 5;
  version_label = codes "v1";
  status = DocumentStatus.embedding;
  error_message = none;
  page_count = none;
  profile = none;
  storage_key = some 3;
  indexed_at = none;
  created_at = 70;
}

abbrev pub no_tags : Tags
no_tags = record { document_type = []; topics = []; entities = [] }

abbrev pub sample_chunk : ℕ → Option (List ℕ) → Chunk
sample_chunk n embedding = record {
  id = n;
  document_id = 3;
  workspace_id = 1;
  ordinal = n;
  content = codes "text";
  contextual_header = some (codes "guide.txt");
  section_path = [];
  tags = no_tags;
  token_count = 1;
  embedding = embedding;
}

abbrev pub sample_workspace : Workspace
sample_workspace = record {
  id = 1;
  name = codes "Docs";
  slug = codes "docs";
  profile = empty_profile;
  created_at = 10;
}

abbrev pub sample_database : Database
sample_database = record {
  clock = 200;
  workspaces = sample_workspace ∷ [];
  documents = sample_document ∷ [];
  files =
      record {
        document_id = 3;
        workspace_id = 1;
        filename = codes "guide.txt";
        content = 104 ∷ 101 ∷ 108 ∷ 108 ∷ 111 ∷ [];
      }
      ∷ [];
  chunks = sample_chunk 0 (some (1 ∷ [])) ∷ sample_chunk 1 none ∷ [];
  jobs = sample_job ∷ waiting_job ∷ [];
}
