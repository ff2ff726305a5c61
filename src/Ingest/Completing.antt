-- ===== src/Ingest/Completing.antt =====
-- When nothing outside fails, a run succeeds: the file is stored, it parses into blocks that give
-- chunks, its workspace is there, and the embedding provider answers each call.
use doc_chat_platform.FileStore.{get_file}
use doc_chat_platform.Sql.{scalar_one_or_none, select_where, TooMany}
use doc_chat_platform.Chunking.{chunk_blocks}
use doc_chat_platform.Text.{Text}
use doc_chat_platform.Embedding.Batches.{DistinctIds}
use doc_chat_platform.Persist.Replacing.{NewIds, replace_chunks_lem}
use doc_chat_platform.Models.{
  Document, IngestJob, DocumentStatus, Checkpoint, ParsedDocument, DocumentProfile,
}
use doc_chat_platform.Persist.{
  set_document_status, workspace_has_id, store_document_profile, fold_profile,
}
use doc_chat_platform.Database.{Database, Error, Workspace}
use doc_chat_platform.Ingest.{
  Services, advance, Settings, stored_content, key_of, parse_result, profile_stage, record_pages,
  rebuild, chunk_and_store, write_stage, parse_document, with_headers,
}
use mathlib.Core.Path.{subst}
use doc_chat_platform.Base.{
  [], none, some, false, refl, ok, err, List, Option, Exec, Result, ◌≡◌, ◌>>=◌, continue, ℕ,
  is_empty, ap, sym, get_or_else, lift, ◌>>◌, ◌∙◌, if_ind, length,
}

-- The run ends without an error, and `P` holds of its value and the tables.
pub data Done {A : Type 0} (P : A → Database → Type 0) : Result Error A × Database → Type 0 where
  done : (a : A) (db : Database) → P a db → Done P (ok a, db)

Done-continue :
    {A B : Type 0} (Q : A → Database → Type 0) {P : B → Database → Type 0} (r : Result Error A)
    (db : Database) (f : A → Exec Error Database B)
    → Done Q (r, db)
    → ((a : A) (db' : Database) → Q a db' → Done P (f a db'))
    → Done P (continue r f db)
Done-continue Q r db f (Done.done a db' h) k = k a db' h

pub Done-bind :
    {A B : Type 0} (Q : A → Database → Type 0) {P : B → Database → Type 0}
    (m : Exec Error Database A) (f : A → Exec Error Database B) (db : Database)
    → Done Q (m db)
    → ((a : A) (db' : Database) → Q a db' → Done P (f a db'))
    → Done P ((m >>= f) db)
Done-bind Q m f db h k = Done-continue Q (m db).0 (m db).1 f h k

-- The tables that the first stages leave alone.
record Same (before db : Database) : Type 0 where
  files : db.files ≡ before.files
  workspaces : db.workspaces ≡ before.workspaces
  chunks : db.chunks ≡ before.chunks

abbrev Leaves : Database → {A : Type 0} → A → Database → Type 0
Leaves before a db = Same before db

advance-Done :
    (before : Database) (job : IngestJob) (stage : DocumentStatus) (checkpoint : Checkpoint)
    (db : Database)
    → Same before db
    → Done (Leaves before) (advance job stage checkpoint db)
unfolding advance set_document_status
advance-Done before job stage checkpoint db h =
    Done.done tt _ (record { files = h.files; workspaces = h.workspaces; chunks = h.chunks })

-- What a run that starts from the first stage needs of the world.
pub record Runnable (services : Services) (settings : Settings) (document : Document)
    (db : Database) : Type 0 where
  pub content : List ℕ
  pub stored : get_file document.workspace_id (key_of document) db.files ≡ some content
  pub parsed : ParsedDocument
  pub parses : services.parse document content ≡ ok parsed
  pub some_block : is_empty parsed.blocks ≡ false
  pub some_chunk : is_empty (chunk_blocks services.tools settings.config parsed.blocks) ≡ false
  pub workspace : Workspace
  pub in_place :
      scalar_one_or_none (select_where (workspace_has_id document.workspace_id) db.workspaces)
      ≡ ok (some workspace)

module _ (services : Services) (settings : Settings) (job : IngestJob) (document : Document)
    (before : Database) (able : Runnable services settings document before)
    (ids : NewIds services.new_id before.chunks) (apart : DistinctIds before.chunks) where
  abbrev Parsed : ParsedDocument → Database → Type 0
  Parsed p db = (p ≡ able.parsed) × Same before db

  stored_content-Done :
      (found : Option (List ℕ)) (db : Database)
      → found ≡ some able.content
      → Same before db
      → Done (λ content db'. (content ≡ able.content) × Same before db') (stored_content found, db)
  stored_content-Done none db e h = absurd (cc e)
  stored_content-Done (some content) db e h = Done.done content db (ap (λ o. get_or_else o []) e, h)

  parse_result-Done :
      (r : Result Text ParsedDocument) (db : Database)
      → r ≡ ok able.parsed
      → Same before db
      → Done Parsed (parse_result document.filename r, db)
  parse_result-Done (err x) db e h = absurd (cc e)
  parse_result-Done (ok p) db e h =
      let same : p ≡ able.parsed = cc in
      subst (λ (q : ParsedDocument). Done Parsed (parse_result document.filename (ok q), db))
        (sym same) (rw able.some_block (Done.done able.parsed db (refl, h)))

  parse_document-Done :
      (db : Database) → Same before db → Done Parsed (parse_document services document db)
  unfolding parse_document
  parse_document-Done db h =
      Done-bind (λ content db'. (content ≡ able.content) × Same before db')
        (λ d. (stored_content (get_file document.workspace_id (key_of document) d.files), d))
        (λ content. lift (parse_result document.filename (services.parse document content))) db
        (stored_content-Done _ db
          (ap (λ fs. get_file document.workspace_id (key_of document) fs) h.files ∙ able.stored) h)
        (λ content db' k.
          parse_result-Done (services.parse document content) db'
            (ap (λ c. services.parse document c) k.0 ∙ able.parses) k.1)

  -- The chunks that the run found are still the table's.
  abbrev Has : {A : Type 0} → A → Database → Type 0
  Has a db = db.chunks ≡ before.chunks

  fold_profile-Done :
      (profile : DocumentProfile) (found : Result TooMany (Option Workspace)) (db : Database)
      → found ≡ ok (some able.workspace)
      → Same before db
      → Done Has (fold_profile document.id profile found db)
  unfolding fold_profile
  fold_profile-Done profile (err e) db f h = absurd (cc f)
  fold_profile-Done profile (ok none) db f h = absurd (cc f)
  fold_profile-Done profile (ok (some w)) db f h = Done.done tt _ h.chunks

  store_document_profile-Done :
      (profile : DocumentProfile) (db : Database)
      → Same before db
      → Done Has (store_document_profile document.workspace_id document.id profile db)
  unfolding store_document_profile
  store_document_profile-Done profile db h =
      fold_profile-Done profile _ db
        (ap (λ ws. scalar_one_or_none (select_where (workspace_has_id document.workspace_id) ws))
            h.workspaces
          ∙ able.in_place)
        h

  abbrev Apart : {A : Type 0} → A → Database → Type 0
  Apart a db = DistinctIds db.chunks

  replaced-Done :
      (n : ℕ) (r : Result Error ℕ × Database) → r.0 ≡ ok n → DistinctIds r.1.chunks → Done Apart r
  replaced-Done n (ok k, db) e d = Done.done k db d
  replaced-Done n (err x, db) e d = absurd (cc e)

  chunk_and_store-Done :
      (profile : DocumentProfile) (db : Database)
      → db.chunks ≡ before.chunks
      → Done Apart (chunk_and_store services settings document able.parsed.blocks profile db)
  unfolding chunk_and_store
  chunk_and_store-Done profile db h =
      let drafts = chunk_blocks services.tools settings.config able.parsed.blocks in
      let headed = with_headers services settings document profile drafts in
      let r =
        replace_chunks_lem services.new_id document.workspace_id document.id headed profile db
          (subst (NewIds services.new_id) (sym h) ids) (subst DistinctIds (sym h) apart) in
      if_ind (λ (m : Exec Error Database ℕ). Done Apart (m db)) (is_empty drafts)
        (λ e. absurd (cc (e, able.some_chunk))) (λ _. replaced-Done (length headed) _ r.0 r.3)

  advance-Has :
      (stage : DocumentStatus) (checkpoint : Checkpoint) (db : Database)
      → db.chunks ≡ before.chunks
      → Done Has (advance job stage checkpoint db)
  unfolding advance set_document_status
  advance-Has stage checkpoint db h = Done.done tt _ h

  write_stage-Done :
      (profile : DocumentProfile) (db : Database)
      → db.chunks ≡ before.chunks
      → Done Apart (write_stage services settings job document able.parsed.blocks profile db)
  unfolding write_stage
  write_stage-Done profile db h =
      Done-bind Has (advance job DocumentStatus.chunking job.checkpoint)
        (λ _. chunk_and_store services settings document able.parsed.blocks profile) db
        (advance-Has DocumentStatus.chunking job.checkpoint db h)
        (λ _ db' h'. chunk_and_store-Done profile db' h')

  record_pages-Same :
      (pages : Option ℕ) (db : Database)
      → Same before db
      → Same before (record_pages services settings document pages db)
  unfolding set_document_status
  record_pages-Same none db h = h
  record_pages-Same (some n) db h = record {
    files = h.files;
    workspaces = h.workspaces;
    chunks = h.chunks;
  }

  profile_stage-Done :
      (db : Database)
      → Same before db
      → Done Apart (profile_stage services settings job document able.parsed db)
  unfolding profile_stage
  profile_stage-Done db h =
      let profile = services.profile document able.parsed.blocks in
      let write = write_stage services settings job document able.parsed.blocks profile in
      let store = store_document_profile document.workspace_id document.id profile in
      let paged = record_pages services settings document able.parsed.page_count db in
      Done-bind (Leaves before) (advance job DocumentStatus.profiling job.checkpoint)
        (λ _. store >> write) paged
        (advance-Done before job DocumentStatus.profiling job.checkpoint paged
          (record_pages-Same able.parsed.page_count db h))
        (λ _ db1 h1.
          Done-bind Has store (λ _. write) db1 (store_document_profile-Done profile db1 h1)
            (λ _ db2 h2. write_stage-Done profile db2 h2))

  pub rebuild-Done : Done Apart (rebuild services settings job document before)
  unfolding rebuild
  rebuild-Done =
      Done-bind (Leaves before) (advance job DocumentStatus.parsing job.checkpoint)
        (λ _. parse_document services document >>= profile_stage services settings job document)
        before
        (advance-Done before job DocumentStatus.parsing job.checkpoint before
          (record { files = refl; workspaces = refl; chunks = refl }))
        (λ _ db1 h1.
          Done-bind Parsed (parse_document services document)
            (profile_stage services settings job document) db1 (parse_document-Done db1 h1)
            (λ p db2 h2.
              subst
                (λ (q : ParsedDocument).
                  Done Apart (profile_stage services settings job document q db2))
                (sym h2.0) (profile_stage-Done db2 h2.1)))
