-- ===== src/Intake/Hashes.antt =====
-- A workspace never holds the same bytes twice: intake keeps one document per hash.
use doc_chat_platform.Mime.Registry.{Parsers}
use doc_chat_platform.Mime.{MimeTools}
use doc_chat_platform.Database.{Database}
use doc_chat_platform.Text.Laws.{text_eq→eq}
use doc_chat_platform.Sql.Counting.{
  count_where-update_le, one_row, count_where-update_bound, count_where-one_key,
  DistinctBy-append_one, count_where-append, scalar-some, scalar-none,
}
use doc_chat_platform.Sql.Order.{DistinctBy-update_where}
use doc_chat_platform.Sql.{update_where, count_where, TooMany, scalar_one_or_none, select_where}
use doc_chat_platform.Text.{Text, text_eq}
use doc_chat_platform.Intake.{
  Upload, same_hash, has_document_id, renew, set_key, resubmit, by_filename, new_document,
  store_and_enqueue, insert_new, by_hash, same_filename, intake_upload, admit, validate,
  IntakeError, IntakeResult,
}
use doc_chat_platform.Sql.Laws.{DistinctBy}
use doc_chat_platform.Models.{Document, is_ready}
use mathlib.Core.List.{Memᴰ}
use mathlib.Core.Path.{subst}
use doc_chat_platform.Base.{
  [], true, refl, arith, List, All, ℕ, ◌≡◌, ◌∷◌, ◌≤◌, false, inl, inr, Bool, ◌==◌, ◌&&◌, All-imp,
  Bool-cases, ==_iff, ◌≢◌, ap, ◌++◌, ◌∙◌, sym, none, some, ok, err, Option, Result, continue,
  if_ind,
}

-- Ids are distinct, and no two documents of a workspace share a hash.
pub record OnePerHash (documents : List Document) : Type 0 where
  pub apart : DistinctBy (λ d. d.id) documents
  pub single : (workspace_id : ℕ) (h : Text) → count_where (same_hash workspace_id h) documents ≤ 1

abbrev document_id_of : Document → ℕ
document_id_of d = d.id

-- An assignment that keeps the id and the hash keeps one document per hash.
OnePerHash-update :
    (i : ℕ) (f : Document → Document) (documents : List Document)
    → ((d : Document) → (f d).id ≡ d.id)
    → ((workspace_id : ℕ) (h : Text)
        → All
            (λ d.
              has_document_id i d ≡ true
              → same_hash workspace_id h (f d) ≡ true
              → same_hash workspace_id h d ≡ true)
            documents)
    → OnePerHash documents
    → OnePerHash (update_where (has_document_id i) f documents)
OnePerHash-update i f documents keep same o = record {
  apart = DistinctBy-update_where document_id_of (has_document_id i) f documents keep o.apart;
  single = λ workspace_id h. omega (
    arith,
    count_where-update_le (same_hash workspace_id h) (has_document_id i) f documents
        (same workspace_id h),
    o.single workspace_id h,
  );
}

count_where-single : (p : Document → Bool) (d : Document) → count_where p (d ∷ []) ≤ 1
unfolding count_where
count_where-single p d = ground arith

count_where-single_miss :
    (p : Document → Bool) (d : Document) → p d ≡ false → count_where p (d ∷ []) ≡ 0
unfolding count_where
count_where-single_miss p d e = ground (arith, e)

All-every : {A : Type 0} (P : A → Type 0) (xs : List A) → ((x : A) → P x) → All P xs
All-every P [] h = tt
All-every P (x ∷ xs) h = (h x, All-every P xs h)

OnePerHash-set_key :
    (i : ℕ) (documents : List Document)
    → OnePerHash documents
    → OnePerHash (update_where (has_document_id i) set_key documents)
unfolding same_hash
OnePerHash-set_key i documents o =
    OnePerHash-update i set_key documents (λ d. refl)
      (λ workspace_id h. All-every _ documents (λ d t u. u)) o

pub both : (a b : Bool) → (a && b) ≡ true → (a ≡ true) × (b ≡ true)
both true b h = (refl, h)
both false b h = cc

differ : true ≢ false
differ h = cc

pub same_hash_iff :
    (workspace_id : ℕ) (h : Text) (d : Document)
    → same_hash workspace_id h d ≡ true
    → (d.workspace_id ≡ workspace_id) × (d.file_hash ≡ h)
unfolding same_hash
same_hash_iff workspace_id h d t =
    let (a, b) = both (d.workspace_id == workspace_id) (text_eq d.file_hash h) t in
    ((==_iff _ _).0 a, text_eq→eq d.file_hash h b)

module _ (upload : Upload) where
  -- Renewing the document that has the bytes already.
  OnePerHash-renew_same :
      (m : Document) (documents : List Document)
      → Memᴰ m documents
      → m.file_hash ≡ upload.file_hash
      → OnePerHash documents
      → OnePerHash (update_where (has_document_id m.id) (renew upload) documents)
  unfolding same_hash renew
  OnePerHash-renew_same m documents r e o =
      OnePerHash-update m.id (renew upload) documents (λ d. refl)
        (λ workspace_id h.
          All-imp _ _ documents
            (λ d only t u.
              let same : d.file_hash ≡ upload.file_hash =
                ap (λ (x : Document). x.file_hash) (only t) ∙ e in
              subst (λ x. (d.workspace_id == workspace_id && text_eq x h) ≡ true) (sym same) u)
            (one_row document_id_of m documents o.apart r))
        o

  -- Renewing another document, when none of the workspace has the bytes.
  OnePerHash-renew_other :
      (m : Document) (documents : List Document)
      → Memᴰ m documents
      → count_where (same_hash m.workspace_id upload.file_hash) documents ≡ 0
      → OnePerHash documents
      → OnePerHash (update_where (has_document_id m.id) (renew upload) documents)
  unfolding renew
  OnePerHash-renew_other m documents r none_has o = record {
    apart =
        DistinctBy-update_where document_id_of (has_document_id m.id) (renew upload) documents
          (λ d. refl) o.apart;
    single = λ workspace_id h. elim (Bool-cases (same_hash workspace_id h (renew upload m))) [
      | inl t ↦
          let (a, b) = same_hash_iff workspace_id h (renew upload m) t in
          let none_has' : count_where (same_hash workspace_id h) documents ≡ 0 =
            subst (λ w. count_where (same_hash w h) documents ≡ 0) a
              (subst (λ x. count_where (same_hash m.workspace_id x) documents ≡ 0) b none_has) in
          omega (
            arith,
            none_has',
            count_where-update_bound (same_hash workspace_id h) (has_document_id m.id)
                (renew upload) documents,
            count_where-one_key document_id_of m.id documents o.apart,
          )
      | inr t ↦ omega (
        arith,
        count_where-update_le (same_hash workspace_id h) (has_document_id m.id) (renew upload)
            documents
            (All-imp _ _ documents
              (λ d only e u. absurd (
                differ (
                  sym u
                  ∙ ap (λ (x : Document). same_hash workspace_id h (renew upload x)) (only e)
                  ∙ t)))
              (one_row document_id_of m documents o.apart r)),
        o.single workspace_id h,
      )
    ];
  }

  -- A new document, when none of the workspace has the bytes.
  OnePerHash-insert :
      (document_id now : ℕ) (documents : List Document)
      → All (λ d. d.id ≢ document_id) documents
      → count_where (same_hash upload.workspace_id upload.file_hash) documents ≡ 0
      → OnePerHash documents
      → OnePerHash (documents ++ new_document upload document_id now ∷ [])
  unfolding new_document
  OnePerHash-insert document_id now documents fresh none_has o =
      let new = new_document upload document_id now in
      record {
        apart = DistinctBy-append_one document_id_of new documents fresh o.apart;
        single = λ workspace_id h. elim (Bool-cases (same_hash workspace_id h new)) [
          | inl t ↦
              let (a, b) = same_hash_iff workspace_id h new t in
              let none_has' : count_where (same_hash workspace_id h) documents ≡ 0 =
                subst (λ w. count_where (same_hash w h) documents ≡ 0) a
                  (subst (λ x. count_where (same_hash upload.workspace_id x) documents ≡ 0) b
                    none_has) in
              omega (
                arith,
                none_has',
                count_where-append (same_hash workspace_id h) documents (new ∷ []),
                count_where-single (same_hash workspace_id h) new,
              )
          | inr t ↦ omega (
            arith,
            o.single workspace_id h,
            count_where-append (same_hash workspace_id h) documents (new ∷ []),
            count_where-single_miss (same_hash workspace_id h) new t,
          )
        ];
      }

module _ (document_id job_id : ℕ) (upload : Upload) where
  resubmit-OnePerHash :
      (m : Document) (superseded : Database)
      → OnePerHash (update_where (has_document_id m.id) (renew upload) superseded.documents)
      → OnePerHash (resubmit document_id job_id upload m superseded).1.documents
  unfolding resubmit store_and_enqueue
  resubmit-OnePerHash m db o = OnePerHash-set_key (renew upload m).id _ o

  by_filename-OnePerHash :
      (found : Result TooMany (Option Document)) (db : Database)
      → scalar_one_or_none
          (select_where (same_filename upload.workspace_id upload.filename) db.documents)
        ≡ found
      → All (λ d. d.id ≢ document_id) db.documents
      → count_where (same_hash upload.workspace_id upload.file_hash) db.documents ≡ 0
      → OnePerHash db.documents
      → OnePerHash (by_filename document_id job_id upload found db).1.documents
  unfolding by_filename insert_new store_and_enqueue same_filename
  by_filename-OnePerHash (err x) db e fresh none_has o = o
  by_filename-OnePerHash (ok (some m)) db e fresh none_has o =
      let (r, t) =
        scalar-some (same_filename upload.workspace_id upload.filename) m db.documents e in
      let here : m.workspace_id ≡ upload.workspace_id =
        (==_iff _ _).0 (both (m.workspace_id == upload.workspace_id) _ t).0 in
      resubmit-OnePerHash m db (
        OnePerHash-renew_other upload m db.documents r
          (subst (λ w. count_where (same_hash w upload.file_hash) db.documents ≡ 0) (sym here)
            none_has)
          o)
  by_filename-OnePerHash (ok none) db e fresh none_has o =
      OnePerHash-set_key document_id _
        (OnePerHash-insert upload document_id db.clock db.documents fresh none_has o)

  by_hash-OnePerHash :
      (found : Result TooMany (Option Document)) (db : Database)
      → scalar_one_or_none
          (select_where (same_hash upload.workspace_id upload.file_hash) db.documents)
        ≡ found
      → All (λ d. d.id ≢ document_id) db.documents
      → OnePerHash db.documents
      → OnePerHash (by_hash document_id job_id upload found db).1.documents
  unfolding by_hash
  by_hash-OnePerHash (err x) db e fresh o = o
  by_hash-OnePerHash (ok (some m)) db e fresh o =
      let (r, t) = scalar-some (same_hash upload.workspace_id upload.file_hash) m db.documents e in
      if_ind (λ (q : Result IntakeError IntakeResult × Database). OnePerHash q.1.documents)
        (is_ready m.status) (λ _. o)
        (λ _. resubmit-OnePerHash m db (
          OnePerHash-renew_same upload m db.documents r
            (same_hash_iff upload.workspace_id upload.file_hash m t).1 o))
  by_hash-OnePerHash (ok none) db e fresh o =
      by_filename-OnePerHash _ db refl fresh
        (scalar-none (same_hash upload.workspace_id upload.file_hash) db.documents e) o

module _ (sha256 : List ℕ → Text) (tools : MimeTools) (parsers : Parsers) where
  admitted-OnePerHash :
      (document_id job_id : ℕ) (checked : Result IntakeError Upload) (db : Database)
      → All (λ d. d.id ≢ document_id) db.documents
      → OnePerHash db.documents
      → OnePerHash (continue checked (admit document_id job_id) db).1.documents
  unfolding admit
  admitted-OnePerHash document_id job_id (err x) db fresh o = o
  admitted-OnePerHash document_id job_id (ok upload) db fresh o =
      by_hash-OnePerHash document_id job_id upload _ db refl fresh o

  -- An upload keeps one document per hash: when the documents have distinct ids and no two of a
  -- workspace share the hash of their bytes, the same holds after it, whatever the outcome of the
  -- upload, for a document id that no document has yet.
  pub intake_upload-OnePerHash :
      (document_id job_id workspace_id : ℕ) (filename : Text) (bytes : List ℕ)
      (declared : Option Text) (max_upload_bytes : ℕ) (db : Database)
      → All (λ d. d.id ≢ document_id) db.documents
      → OnePerHash db.documents
      → OnePerHash
          (intake_upload sha256 tools parsers document_id job_id workspace_id filename bytes
            declared max_upload_bytes db).1.documents
  unfolding intake_upload
  intake_upload-OnePerHash document_id job_id workspace_id filename bytes declared limit db fresh
        o =
      admitted-OnePerHash document_id job_id
        (validate sha256 tools parsers workspace_id filename bytes declared limit) db fresh o
