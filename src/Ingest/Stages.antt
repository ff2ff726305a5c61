-- ===== src/Ingest/Stages.antt =====
-- How a chain of stages ends: what holds after each stage holds for the next one to start from.
use doc_chat_platform.FileStore.{get_file}
use doc_chat_platform.Chunking.{chunk_blocks}
use mathlib.Core.Path.{subst}
use doc_chat_platform.Persist.Replacing.{NewIds, replace_chunks_lem}
use doc_chat_platform.Embedding.Batches.{DistinctIds}
use doc_chat_platform.Sql.{TooMany}
use doc_chat_platform.Ingest.{
  advance, parse_document, stored_content, Services, parse_result, no_text, Settings, record_pages,
  key_of, profile_stage, chunk_and_store, rebuild, write_stage, no_chunks, with_headers,
}
use doc_chat_platform.Persist.{store_document_profile, fold_profile, set_document_status}
use doc_chat_platform.Text.{Text}
use doc_chat_platform.Models.{
  Chunk, Document, ParsedDocument, DocumentProfile, IngestJob, DocumentStatus, Checkpoint, Block,
}
use doc_chat_platform.Database.{Database, Error, Workspace}
use doc_chat_platform.Base.{
  none, some, ok, err, List, Option, Result, Exec, ℕ, ◌≡◌, ◌≢◌, continue, ◌>>=◌, if_ind, is_empty,
  lift, refl, ◌>>◌, sym,
}

-- On success `P` holds of the value and the tables; an error is one of the program's own, not the
-- exhausted fuel of a loop.
pub data Ends {A : Type 0} (P : A → Database → Type 0) : Result Error A × Database → Type 0 where
  ended : (a : A) (db : Database) → P a db → Ends P (ok a, db)
  raised : (e : Error) (db : Database) → e ≢ Error.no_fuel → Ends P (err e, db)

Ends-continue :
    {A B : Type 0} (Q : A → Database → Type 0) {P : B → Database → Type 0} (r : Result Error A)
    (db : Database) (f : A → Exec Error Database B)
    → Ends Q (r, db)
    → ((a : A) (db' : Database) → Q a db' → Ends P (f a db'))
    → Ends P (continue r f db)
Ends-continue Q r db f (Ends.ended a db' h) k = k a db' h
Ends-continue Q r db f (Ends.raised e db' h) k = Ends.raised e db' h

-- A stage and what follows it.
pub Ends-bind :
    {A B : Type 0} (Q : A → Database → Type 0) {P : B → Database → Type 0}
    (m : Exec Error Database A) (f : A → Exec Error Database B) (db : Database)
    → Ends Q (m db)
    → ((a : A) (db' : Database) → Q a db' → Ends P (f a db'))
    → Ends P ((m >>= f) db)
Ends-bind Q m f db h k = Ends-continue Q (m db).0 (m db).1 f h k

pub no_fuel-ne : (t : Text) → Error.ingest_error t ≢ Error.no_fuel
no_fuel-ne t h = cc

-- The chunks that a stage is started with, and still has when it writes none.
abbrev pub Has : {A : Type 0} → List Chunk → A → Database → Type 0
Has chunks a db = db.chunks ≡ chunks

module _ (chunks : List Chunk) where
  pub advance-Has :
      (job : IngestJob) (stage : DocumentStatus) (checkpoint : Checkpoint) (db : Database)
      → db.chunks ≡ chunks
      → Ends (Has chunks) (advance job stage checkpoint db)
  unfolding advance set_document_status
  advance-Has job stage checkpoint db h = Ends.ended tt _ h

  stored_content-Ends :
      (found : Option (List ℕ)) (db : Database)
      → db.chunks ≡ chunks
      → Ends (Has chunks) (stored_content found, db)
  stored_content-Ends none db h = Ends.raised Error.file_not_found db (λ e. cc)
  stored_content-Ends (some content) db h = Ends.ended content db h

  parse_result-Ends :
      (filename : Text) (r : Result Text ParsedDocument) (db : Database)
      → db.chunks ≡ chunks
      → Ends (Has chunks) (parse_result filename r, db)
  parse_result-Ends filename (err e) db h = Ends.raised (Error.ingest_error e) db (no_fuel-ne e)
  parse_result-Ends filename (ok parsed) db h =
      if_ind (λ (r : Result Error ParsedDocument). Ends (Has chunks) (r, db))
        (is_empty parsed.blocks) (λ _. Ends.raised _ db (no_fuel-ne (no_text filename)))
        (λ _. Ends.ended parsed db h)

  pub parse_document-Has :
      (services : Services) (document : Document) (db : Database)
      → db.chunks ≡ chunks
      → Ends (Has chunks) (parse_document services document db)
  unfolding parse_document
  parse_document-Has services document db h =
      Ends-bind (Has chunks)
        (λ d. (stored_content (get_file document.workspace_id (key_of document) d.files), d))
        (λ content. lift (parse_result document.filename (services.parse document content))) db
        (stored_content-Ends _ db h)
        (λ content db' h'.
          parse_result-Ends document.filename (services.parse document content) db' h')

  fold_profile-Has :
      (document_id : ℕ) (profile : DocumentProfile) (found : Result TooMany (Option Workspace))
      (db : Database)
      → db.chunks ≡ chunks
      → Ends (Has chunks) (fold_profile document_id profile found db)
  unfolding fold_profile
  fold_profile-Has document_id profile (err e) db h =
      Ends.raised Error.multiple_results_found db (λ x. cc)
  fold_profile-Has document_id profile (ok none) db h =
      Ends.raised Error.no_result_found db (λ x. cc)
  fold_profile-Has document_id profile (ok (some workspace)) db h = Ends.ended tt _ h

  pub store_document_profile-Has :
      (workspace_id document_id : ℕ) (profile : DocumentProfile) (db : Database)
      → db.chunks ≡ chunks
      → Ends (Has chunks) (store_document_profile workspace_id document_id profile db)
  unfolding store_document_profile
  store_document_profile-Has workspace_id document_id profile db h =
      fold_profile-Has document_id profile _ db h

  record_pages-Has :
      (services : Services) (settings : Settings) (document : Document) (pages : Option ℕ)
      (db : Database)
      → db.chunks ≡ chunks
      → (record_pages services settings document pages db).chunks ≡ chunks
  unfolding set_document_status
  record_pages-Has services settings document none db h = h
  record_pages-Has services settings document (some n) db h = h

module _ (services : Services) (settings : Settings) (job : IngestJob) (document : Document) where
  -- After the chunks are written: their ids are distinct.
  abbrev pub Apart : {A : Type 0} → A → Database → Type 0
  Apart a db = DistinctIds db.chunks

  chunk_and_store-Apart :
      (blocks : List Block) (profile : DocumentProfile) (db : Database)
      → NewIds services.new_id db.chunks
      → DistinctIds db.chunks
      → Ends Apart (chunk_and_store services settings document blocks profile db)
  unfolding chunk_and_store
  chunk_and_store-Apart blocks profile db ids d =
      if_ind (λ (m : Exec Error Database ℕ). Ends Apart (m db))
        (is_empty (chunk_blocks services.tools settings.config blocks))
        (λ _. Ends.raised _ db (no_fuel-ne (no_chunks document.filename)))
        (λ _.
          let drafts = chunk_blocks services.tools settings.config blocks in
          let headed = with_headers services settings document profile drafts in
          replaced_ends _
            (replace_chunks_lem services.new_id document.workspace_id document.id headed profile db
              ids d).0
            (replace_chunks_lem services.new_id document.workspace_id document.id headed profile db
              ids d).3)
    where
      replaced_ends :
          {n : ℕ} (r : Result Error ℕ × Database)
          → r.0 ≡ ok n
          → DistinctIds r.1.chunks
          → Ends Apart r
      replaced_ends {n} (ok k, db') e a = Ends.ended k db' a
      replaced_ends {n} (err x, db') e a = absurd (cc e)

  write_stage-Apart :
      (blocks : List Block) (profile : DocumentProfile) (db : Database)
      → NewIds services.new_id db.chunks
      → DistinctIds db.chunks
      → Ends Apart (write_stage services settings job document blocks profile db)
  unfolding write_stage
  write_stage-Apart blocks profile db ids d =
      Ends-bind (Has db.chunks) (advance job DocumentStatus.chunking job.checkpoint)
        (λ _. chunk_and_store services settings document blocks profile) db
        (advance-Has db.chunks job DocumentStatus.chunking job.checkpoint db refl)
        (λ _ db' same.
          chunk_and_store-Apart blocks profile db' (subst (NewIds services.new_id) (sym same) ids)
            (subst DistinctIds (sym same) d))

  profile_stage-Apart :
      (parsed : ParsedDocument) (db : Database)
      → NewIds services.new_id db.chunks
      → DistinctIds db.chunks
      → Ends Apart (profile_stage services settings job document parsed db)
  unfolding profile_stage
  profile_stage-Apart parsed db ids d =
      let profile = services.profile document parsed.blocks in
      let paged = record_pages services settings document parsed.page_count db in
      let kept = record_pages-Has db.chunks services settings document parsed.page_count db refl in
      Ends-bind (Has db.chunks) (advance job DocumentStatus.profiling job.checkpoint)
        (λ _.
          store_document_profile document.workspace_id document.id profile
          >> write_stage services settings job document parsed.blocks profile)
        paged (advance-Has db.chunks job DocumentStatus.profiling job.checkpoint paged kept)
        (λ _ db1 same1.
          Ends-bind (Has db.chunks)
            (store_document_profile document.workspace_id document.id profile)
            (λ _. write_stage services settings job document parsed.blocks profile) db1
            (store_document_profile-Has db.chunks document.workspace_id document.id profile db1
              same1)
            (λ _ db2 same2.
              write_stage-Apart parsed.blocks profile db2
                (subst (NewIds services.new_id) (sym same2) ids) (subst DistinctIds (sym same2) d)))

  pub rebuild-Apart :
      (db : Database)
      → NewIds services.new_id db.chunks
      → DistinctIds db.chunks
      → Ends Apart (rebuild services settings job document db)
  unfolding rebuild
  rebuild-Apart db ids d =
      Ends-bind (Has db.chunks) (advance job DocumentStatus.parsing job.checkpoint)
        (λ _. parse_document services document >>= profile_stage services settings job document) db
        (advance-Has db.chunks job DocumentStatus.parsing job.checkpoint db refl)
        (λ _ db1 same1.
          Ends-bind (Has db.chunks) (parse_document services document)
            (profile_stage services settings job document) db1
            (parse_document-Has db.chunks services document db1 same1)
            (λ parsed db2 same2.
              profile_stage-Apart parsed db2 (subst (NewIds services.new_id) (sym same2) ids)
                (subst DistinctIds (sym same2) d)))
