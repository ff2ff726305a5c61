-- ===== src/Examples/Runs.antt =====
-- The embedding stage, a run of a job and the worker, on a document with two chunks.
use doc_chat_platform.FileStore.{get_file}
use doc_chat_platform.Procedures.{step_number}
use doc_chat_platform.Ingest.Success.{run_job-Done}
use doc_chat_platform.Chunking.{chunk_blocks}
use doc_chat_platform.Ingest.Completing.{Done, Runnable}
use doc_chat_platform.Worker.{process}
use doc_chat_platform.VectorStore.{belongs}
use doc_chat_platform.Ingest.Resuming.{run_job-resumed}
use doc_chat_platform.Worker.Recording.{Recorded, process-Recorded}
use doc_chat_platform.Embedding.Growth.{Grown}
use doc_chat_platform.Examples.{
  sample_database, sample_job, sample_document, waiting_job, sample_workspace,
}
use doc_chat_platform.Ingest.Readiness.{ReadyAfter, run_job-Ready, Ready}
use doc_chat_platform.Text.{codes, Text, is_line_break, is_space}
use doc_chat_platform.Tokens.{default_tools, estimate_tokens}
use doc_chat_platform.Database.{Error, Database}
use doc_chat_platform.Persist.Replacing.{NewIds, replace_chunks_lem, AreRows}
use doc_chat_platform.Embedding.Progress.{IsRun, embed_document_lem, embed_document-answered}
use doc_chat_platform.Ingest.Stages.{Ends}
use doc_chat_platform.Persist.{replace_chunks}
use doc_chat_platform.Embedding.Batches.{DistinctIds}
use doc_chat_platform.Models.{ChunkDraft, DocumentProfile, Block, BlockKind, Chunk}
use doc_chat_platform.Embedding.{Embedder, count_pending, is_outstanding, Vector, embed_document}
use doc_chat_platform.Sql.{find_where, scalar_one_or_none, select_where, count_where, delete_where}
use doc_chat_platform.Ingest.{Settings, Services, run_job}
use doc_chat_platform.Base.{
  [], none, some, true, false, refl, arith, ok, List, ℕ, map, ◌∷◌, length, ◌+◌, ◌≡◌, length-map,
  ◌++◌,
}

-- A provider that answers each text with the vector of its length.
abbrev embedder : Embedder
embedder round ts = ok (map (λ (t : Text). length t ∷ []) ts)

embedder-answers :
    (round : ℕ) (ts : List Text)
    → (vectors : List Vector) × (embedder round ts ≡ ok vectors) × (length vectors ≡ length ts)
embedder-answers round ts = (map (λ (t : Text). length t ∷ []) ts, refl, length-map _ ts)

abbrev ignore_progress : ℕ → ℕ → Database → Database
ignore_progress done total db = db

chunks-DistinctIds : DistinctIds sample_database.chunks
chunks-DistinctIds = (((λ e. absurd (omega (arith, e))), tt), (tt, tt))

keeps : (n t : ℕ) (db : Database) → (ignore_progress n t db).chunks ≡ db.chunks
keeps n t db = refl

embed_document_lem_example :
    IsRun embedder ignore_progress 1 3 10 keeps
      (omega arith)
      0
      sample_database
      (embed_document embedder ignore_progress 1 3 10 sample_database)
embed_document_lem_example =
    embed_document_lem embedder ignore_progress 1 3 10 keeps (omega arith) sample_database
      chunks-DistinctIds

embed_document-answered_example :
    ((embed_document embedder ignore_progress 1 3 10 sample_database).0 ≡ ok 1)
    × (count_pending 1 3 (embed_document embedder ignore_progress 1 3 10 sample_database).1.chunks
        ≡ 0)
unfolding count_pending is_outstanding count_where
embed_document-answered_example =
    embed_document-answered embedder ignore_progress 1 3 10 keeps (omega arith) embedder-answers
      sample_database chunks-DistinctIds

abbrev no_profile : DocumentProfile
no_profile = record { document_type = []; summary = []; topics = []; entities = [] }

-- A document as one block of text.
abbrev whole_text : Text → Block
whole_text bytes = record {
  kind = BlockKind.text;
  text = bytes;
  section_path = [];
  level = none;
  page = none;
  slide_index = none;
  table_header = none;
  atomic = false;
}

abbrev services : Services
services = record {
  tools = default_tools;
  parse = λ document bytes.
      ok (record { markdown = bytes; blocks = whole_text bytes ∷ []; page_count = some 1 });
  profile = λ document blocks. no_profile;
  described = λ document profile drafts key. [];
  described_chunks = λ document drafts ordinal. [];
  embedder = embedder;
  new_id = λ n. n + 100;
}

abbrev settings : Settings
settings = record {
  config = record { target_tokens = 4; overlap_tokens = 1; max_tokens = 6 };
  per_chunk = false;
  embed_batch_size = 10;
}

ids-NewIds : NewIds services.new_id sample_database.chunks
ids-NewIds = record {
  distinct = λ m n ne e. ne (omega (arith, e));
  fresh = λ n. ((λ e. absurd (omega (arith, e))), ((λ e. absurd (omega (arith, e))), tt));
}

run_job-Ready_example :
    Ends
      (ReadyAfter services settings (omega arith) waiting_job sample_database)
      (run_job services settings true waiting_job sample_database)
run_job-Ready_example =
    run_job-Ready services settings (omega arith) waiting_job sample_database ids-NewIds
      chunks-DistinctIds

run_job-resumed_example :
    Grown 1 3 sample_database.chunks
      (run_job services settings true sample_job sample_database).1.chunks
unfolding scalar_one_or_none select_where
run_job-resumed_example =
    run_job-resumed services settings (omega arith) sample_job sample_document true sample_database
      refl (λ e. absurd (omega (arith, e))) chunks-DistinctIds

abbrev constant_message : Error → Text
constant_message e = codes "error"

process-Recorded_example :
    let r = run_job services settings true sample_job sample_database in
    Recorded constant_message 3 sample_job services settings 1 r.1
      (process constant_message 3 sample_job services settings sample_database)
      r.0
unfolding find_where
process-Recorded_example =
    process-Recorded constant_message 3 sample_job services settings 1 sample_database refl

abbrev draft : ChunkDraft
draft = record {
  ordinal = 0;
  content = codes "new text";
  section_path = [];
  contextual_header = none;
  token_count = 2;
  page = none;
  slide_index = none;
}

replace_chunks_lem_example :
    let r = replace_chunks services.new_id 1 3 (draft ∷ []) no_profile sample_database in
    (r.0 ≡ ok 1)
    × ((rows : List Chunk) × (r.1.chunks
          ≡ delete_where (belongs 1 3) sample_database.chunks ++ rows)
        × AreRows services.new_id 1 3 no_profile 0 (draft ∷ []) rows)
    × (count_pending 1 3 r.1.chunks ≡ 1)
    × DistinctIds r.1.chunks
replace_chunks_lem_example =
    replace_chunks_lem services.new_id 1 3 (draft ∷ []) no_profile sample_database ids-NewIds
      chunks-DistinctIds

sample-Runnable : Runnable services settings sample_document sample_database
unfolding get_file find_where chunk_blocks scalar_one_or_none select_where step_number is_line_break
    estimate_tokens is_space
sample-Runnable = record {
  content = codes "hello";
  stored = refl;
  parsed = record {
    markdown = codes "hello";
    blocks = whole_text (codes "hello") ∷ [];
    page_count = some 1;
  };
  parses = refl;
  some_block = refl;
  some_chunk = refl;
  workspace = sample_workspace;
  in_place = refl;
}

run_job-Done_example :
    Done
      (λ _ db. Ready sample_document db)
      (run_job services settings true waiting_job sample_database)
unfolding scalar_one_or_none select_where
run_job-Done_example =
    run_job-Done services settings (omega arith) waiting_job sample_document embedder-answers
      sample_database refl sample-Runnable ids-NewIds chunks-DistinctIds
