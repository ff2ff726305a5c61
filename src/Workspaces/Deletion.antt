-- ===== src/Workspaces/Deletion.antt =====
-- What a deleted workspace leaves.
use doc_chat_platform.Sql.Laws.{length-select_where}
use doc_chat_platform.Workspaces.Dashboard.{workspace_counts_lem}
use doc_chat_platform.Ingest.{in_workspace}
use doc_chat_platform.Persist.{workspace_has_id}
use doc_chat_platform.Workspaces.{
  delete_workspace, message_in_workspace, cascade_workspace, chunk_in_workspace, workspace_counts,
  counts_from,
}
use doc_chat_platform.Chat.{Platform}
use doc_chat_platform.Database.{Workspace}
use doc_chat_platform.Sql.{count_where, select_where, delete_where}
use doc_chat_platform.Base.{
  [], true, false, inl, inr, refl, arith, Bool, List, ℕ, ◌≡◌, ◌∷◌, ◌==◌, Bool-cases, ap, ◌≢◌, ◌∙◌,
}

both : {b : Bool} → b ≡ true → b ≡ false → ⊥
both t e = cc

module _ {A : Type 0} where
  -- A DELETE with a wider test leaves no row that passes a narrower one.
  delete_where-none :
      (q p : A → Bool) (xs : List A)
      → ((x : A) → q x ≡ true → p x ≡ true)
      → count_where q (delete_where p xs) ≡ 0
  unfolding count_where delete_where
  delete_where-none q p [] sub = refl
  delete_where-none q p (x ∷ xs) sub = elim (Bool-cases (p x)) [
    | inl e ↦ rw e (delete_where-none q p xs sub)
    | inr e ↦ elim (Bool-cases (q x)) [
      | inl t ↦ absurd (both (sub x t) e)
      | inr t ↦ rw (e, t) (delete_where-none q p xs sub)
    ]
  ]

  -- A DELETE leaves what another test selects, when no row passes both.
  select_where-delete_apart :
      (q p : A → Bool) (xs : List A)
      → ((x : A) → q x ≡ true → p x ≡ false)
      → select_where q (delete_where p xs) ≡ select_where q xs
  unfolding select_where delete_where
  select_where-delete_apart q p [] ne = refl
  select_where-delete_apart q p (x ∷ xs) ne = elim (Bool-cases (q x)) [
    | inl t ↦ rw (ne x t, t) (ap (◌∷◌ x) (select_where-delete_apart q p xs ne))
    | inr t ↦ elim (Bool-cases (p x)) [
      | inl e ↦ rw (e, t) (select_where-delete_apart q p xs ne)
      | inr e ↦ rw (e, t) (select_where-delete_apart q p xs ne)
    ]
  ]

-- Nothing of the workspace is left in any table.
pub record Emptied (i : ℕ) (p : Platform) : Type 0 where
  pub no_workspace : count_where (workspace_has_id i) p.db.workspaces ≡ 0
  pub no_documents : count_where (in_workspace i) p.db.documents ≡ 0
  pub no_files : count_where (λ f. f.workspace_id == i) p.db.files ≡ 0
  pub no_chunk_rows : count_where (chunk_in_workspace i) p.db.chunks ≡ 0
  pub no_jobs : count_where (λ j. j.workspace_id == i) p.db.jobs ≡ 0
  pub no_messages : count_where (message_in_workspace i) p.messages ≡ 0

-- What another workspace has is still there.
pub record Spared (other : ℕ) (before after : Platform) : Type 0 where
  pub same_documents :
      select_where (in_workspace other) after.db.documents
      ≡ select_where (in_workspace other) before.db.documents
  pub same_messages :
      select_where (message_in_workspace other) after.messages
      ≡ select_where (message_in_workspace other) before.messages

module _ (w : Workspace) (p : Platform) where
  -- Deleting a workspace leaves nothing of it: not its row, and none of its documents, files, chunks,
  -- jobs and messages. The counts that it reports are those of the documents, chunks and messages
  -- that the workspace had. The documents and messages of every other workspace stay.
  pub delete_workspace_lem :
      (other : ℕ)
      → other ≢ w.id
      → let (report, p') = delete_workspace w p in
        Emptied w.id p'
        × (report.documents_deleted ≡ count_where (in_workspace w.id) p.db.documents)
        × (report.chunks_deleted ≡ count_where (chunk_in_workspace w.id) p.db.chunks)
        × (report.messages_deleted ≡ count_where (message_in_workspace w.id) p.messages)
        × Spared other p p'
  unfolding delete_workspace cascade_workspace
  delete_workspace_lem other ne = (
    emptied,
    (workspace_counts_lem w.id p.db).0 ∙ length-select_where (in_workspace w.id) p.db.documents,
    (unfold workspace_counts counts_from in refl),
    refl,
    spared,
  )
    where
      emptied : Emptied w.id (cascade_workspace w.id p)
      emptied = record {
        no_workspace = delete_where-none _ _ p.db.workspaces (λ x t. t);
        no_documents = delete_where-none _ _ p.db.documents (λ x t. t);
        no_files = delete_where-none _ _ p.db.files (λ x t. rw t);
        no_chunk_rows = delete_where-none _ _ p.db.chunks (λ x t. rw t);
        no_jobs = delete_where-none _ _ p.db.jobs (λ x t. rw t);
        no_messages = delete_where-none _ _ p.messages (λ x t. t);
      }

      spared : Spared other p (cascade_workspace w.id p)
      spared = record {
        same_documents =
            select_where-delete_apart (in_workspace other) (in_workspace w.id) p.db.documents
              (λ d t. ground (arith, ne, t));
        same_messages =
            select_where-delete_apart (message_in_workspace other) (message_in_workspace w.id)
              p.messages (λ m t. ground (arith, ne, t));
      }
