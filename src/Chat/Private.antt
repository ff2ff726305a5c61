-- ===== src/Chat/Private.antt =====
-- A conversation belongs to one user in one workspace.
use doc_chat_platform.Sql.Laws.{length-select_where}
use doc_chat_platform.Sql.{select_where, delete_where, order_by, insert_by}
use doc_chat_platform.Answering.{Answer}
use doc_chat_platform.Conversation.{Kind, classify}
use doc_chat_platform.Database.{Workspace}
use doc_chat_platform.Text.{Text, strip}
use doc_chat_platform.Chat.{
  Stamp, Providers, chat, Platform, save_turns, ProviderError, reply_or_retrieve, ChatError,
  ChatResponse, answer_or_raise, status_of, bad_request, response_of, ChatMessage,
  retrieve_and_answer, question_turn, answer_turn, history, corpus_state, in_conversation, limit_or,
  clear_history, message_created_at, Role,
}
use doc_chat_platform.Tokens.{Tools}
use doc_chat_platform.Base.{
  [], none, some, refl, ok, err, List, Option, ℕ, Result, if_ind, is_empty, ◌≡◌, ◌∷◌, ◌++◌, true,
  false, inl, inr, arith, ◌≢◌, ◌⊎◌, suc, length, ◌==◌, ap, ◌∙◌, sym, Bool-cases, ◌&&◌, ltb, ==_iff,
  if◌then◌else◌,
}

-- The row of a question that a user asked, column by column.
pub record IsQuestion (stamp : Stamp) (workspace_id u : ℕ) (question : Text) (m : ChatMessage)
    : Type 0 where
  pub id : m.id ≡ stamp.question_id
  pub in_workspace : m.workspace_id ≡ workspace_id
  pub of_user : m.user_id ≡ u
  pub role : m.role ≡ Role.user
  pub content : m.content ≡ question
  pub citations : m.citations ≡ []
  pub refused : m.refused ≡ false
  pub created_at : m.created_at ≡ stamp.now

-- The row of the answer that a response shows, column by column.
pub record IsAnswer (stamp : Stamp) (workspace_id u : ℕ) (r : ChatResponse) (m : ChatMessage)
    : Type 0 where
  pub id : m.id ≡ stamp.answer_id
  pub in_workspace : m.workspace_id ≡ workspace_id
  pub of_user : m.user_id ≡ u
  pub role : m.role ≡ Role.assistant
  pub content : m.content ≡ r.answer
  pub citations : m.citations ≡ r.citations
  pub refused : m.refused ≡ r.refused
  pub created_at : m.created_at ≡ stamp.now

-- How `chat` leaves the tables: as they were, or with the two turns of the caller at the end.
pub data Kept (workspace_id : ℕ) (user_id : Option ℕ) (stamp : Stamp) (payload : Text)
    (p : Platform) : Result ChatError ChatResponse × Platform → Type 0 where
  refused_request : (e : ChatError) → Kept workspace_id user_id stamp payload p (err e, p)
  unsaved :
      (r : ChatResponse)
      → user_id ≡ none
      → r.question ≡ strip payload
      → Kept workspace_id user_id stamp payload p (ok r, p)
  saved :
      (r : ChatResponse) (u : ℕ) (p' : Platform) (q a : ChatMessage)
      → user_id ≡ some u
      → r.question ≡ strip payload
      → IsQuestion stamp workspace_id u (strip payload) q
      → IsAnswer stamp workspace_id u r a
      → p' ≡ record p { messages = p.messages ++ (q ∷ a ∷ []) }
      → Kept workspace_id user_id stamp payload p (ok r, p')

module _ (tools : Tools) (providers : Providers) (default_top_k : ℕ) (workspace : Workspace)
    (user_id : Option ℕ) (stamp : Stamp) (payload : Text) where
  saved-Kept :
      (answer : Answer) (u : Option ℕ) (p : Platform)
      → user_id ≡ u
      → Kept workspace.id user_id stamp payload p (
        ok (response_of (strip payload) answer),
        save_turns stamp workspace.id u (strip payload) answer answer.citations p,
      )
  unfolding save_turns
  saved-Kept answer none p e = unsaved _ e refl
  saved-Kept answer (some u) p e =
      saved _ u _ (question_turn stamp workspace.id u (strip payload))
        (answer_turn stamp workspace.id u answer answer.citations) e refl
        (record {
          id = refl;
          in_workspace = refl;
          of_user = refl;
          role = refl;
          content = refl;
          citations = refl;
          refused = refl;
          created_at = refl;
        })
        (record {
          id = refl;
          in_workspace = refl;
          of_user = refl;
          role = refl;
          content = refl;
          citations = refl;
          refused = refl;
          created_at = refl;
        })
        refl

  answered-Kept :
      (r : Result ProviderError Answer) (p : Platform)
      → Kept workspace.id user_id stamp payload p (
          answer_or_raise tools providers default_top_k workspace user_id stamp (strip payload) r p)
  answered-Kept (err e) p = refused_request (status_of e)
  answered-Kept (ok a) p = saved-Kept a user_id p refl

  replied-Kept :
      (kind : Option Kind) (names : List Text) (processing limit : ℕ) (p : Platform)
      → Kept workspace.id user_id stamp payload p (
          reply_or_retrieve tools providers default_top_k workspace user_id stamp
            (strip payload)
            limit
            kind
            names
            processing
            p)
  replied-Kept (some kind) names processing limit p = saved-Kept _ user_id p refl
  replied-Kept none [] processing limit p = saved-Kept _ user_id p refl
  replied-Kept none (f ∷ fs) processing limit p =
      answered-Kept (retrieve_and_answer providers workspace.id p.db (strip payload) limit) p

  -- `chat` saves what was said and nothing else. A request that is refused leaves the tables as they
  -- were, and so does one of a caller who is no person. For a user it puts two messages of that user
  -- in that workspace behind the others: the question without the white space around it, and the
  -- answer with the citations and the refusal that the response shows.
  pub chat-Kept :
      (top_k : Option ℕ) (p : Platform)
      → Kept workspace.id user_id stamp payload p
          (chat tools providers default_top_k workspace user_id stamp payload top_k p)
  unfolding chat
  chat-Kept top_k p =
      let state = corpus_state workspace.id p.db in
      if_ind (Kept workspace.id user_id stamp payload p) (is_empty (strip payload))
        (λ e. refused_request bad_request)
        (λ e.
          replied-Kept (classify tools (strip payload)) state.0 state.1
            (limit_or default_top_k top_k) p)

module _ (workspace_id user_id : ℕ) where
  select-append_other :
      (ms : List ChatMessage) (q a : ChatMessage)
      → in_conversation workspace_id user_id q ≡ false
      → in_conversation workspace_id user_id a ≡ false
      → select_where (in_conversation workspace_id user_id) (ms ++ (q ∷ a ∷ []))
        ≡ select_where (in_conversation workspace_id user_id) ms
  unfolding select_where
  select-append_other [] q a hq ha = rw (hq, ha)
  select-append_other (m ∷ ms) q a hq ha = ground (arith, select-append_other ms q a hq ha)

elsewhere :
    (workspace_id w u v : ℕ) (user_id : Option ℕ)
    → user_id ≡ some v
    → (user_id ≢ some u) ⊎ (workspace_id ≢ w)
    → ((workspace_id == w) && (v == u)) ≡ false
elsewhere workspace_id w u v user_id e (inr h) = ground (arith, h)
elsewhere workspace_id w u v user_id e (inl h) = elim (Bool-cases (v == u)) [
  | inl t ↦ absurd (h (e ∙ ap some ((==_iff v u).0 t)))
  | inr t ↦ ground (arith, t)
]

other_history :
    {workspace_id : ℕ} {user_id : Option ℕ} {stamp : Stamp} {payload : Text} {p : Platform}
    {r : Result ChatError ChatResponse × Platform} (w u : ℕ)
    → (user_id ≢ some u) ⊎ (workspace_id ≢ w)
    → Kept workspace_id user_id stamp payload p r
    → history w (some u) r.1 ≡ history w (some u) p
unfolding history
other_history w u ne (refused_request e) = refl
other_history w u ne (unsaved r none_here same) = refl
other_history {workspace_id} {user_id} {p = p} w u ne (saved r v p' q a is_user same hq ha hp) =
    let out = elsewhere workspace_id w u v user_id is_user ne in
    rw hp (
      ap (order_by message_created_at) (
        select-append_other w u p.messages q a (rw (hq.in_workspace, hq.of_user) out)
          (rw (ha.in_workspace, ha.of_user) out)))

select-delete_self :
    (w u : ℕ) (ms : List ChatMessage)
    → select_where (in_conversation w u) (delete_where (in_conversation w u) ms) ≡ []
unfolding select_where delete_where
select-delete_self w u [] = refl
select-delete_self w u (m ∷ ms) = elim (Bool-cases (in_conversation w u m)) [
  | inl e ↦ rw e (select-delete_self w u ms)
  | inr e ↦ rw (e, e) (select-delete_self w u ms)
]

apart :
    (w u w' u' : ℕ) (m : ChatMessage)
    → (w ≢ w') ⊎ (u ≢ u')
    → in_conversation w u m ≡ true
    → in_conversation w' u' m ≡ false
apart w u w' u' m (inl h) e = ground (arith, h)
apart w u w' u' m (inr h) e = ground (arith, h)

select-delete_other :
    (w u w' u' : ℕ) (ms : List ChatMessage)
    → (w ≢ w') ⊎ (u ≢ u')
    → select_where (in_conversation w' u') (delete_where (in_conversation w u) ms)
      ≡ select_where (in_conversation w' u') ms
unfolding select_where delete_where
select-delete_other w u w' u' [] ne = refl
select-delete_other w u w' u' (m ∷ ms) ne = elim (Bool-cases (in_conversation w u m)) [
  | inl e ↦ rw (e, apart w u w' u' m ne e) (select-delete_other w u w' u' ms ne)
  | inr e ↦ rw e (
      ap (λ rest. if in_conversation w' u' m then m ∷ rest else rest)
        (select-delete_other w u w' u' ms ne))
]

length-insert_by :
    {A : Type 0} (key : A → ℕ) (x : A) (xs : List A) → length (insert_by key x xs) ≡ suc (length xs)
length-insert_by key x [] = refl
length-insert_by key x (y ∷ ys) =
    if_ind (λ l. length l ≡ suc (suc (length ys))) (ltb (key y) (key x))
      {x = y ∷ insert_by key x ys} {y = x ∷ y ∷ ys} (λ _. ap suc (length-insert_by key x ys))
      (λ _. refl)

length-order_by : {A : Type 0} (key : A → ℕ) (xs : List A) → length (order_by key xs) ≡ length xs
unfolding order_by
length-order_by key [] = refl
length-order_by key (x ∷ xs) =
    length-insert_by key x (order_by key xs) ∙ ap suc (length-order_by key xs)

module _ (workspace_id user_id : ℕ) (p : Platform) where
  -- Clearing a conversation empties the history of that user in that workspace, reports how many
  -- messages it held, and leaves every other history and all tables of documents as they were.
  pub clear_history_lem :
      (w u : ℕ)
      → (workspace_id ≢ w) ⊎ (user_id ≢ u)
      → let (n, p') = clear_history workspace_id (some user_id) p in
        (history workspace_id (some user_id) p' ≡ [])
        × (n ≡ length (history workspace_id (some user_id) p))
        × (history w (some u) p' ≡ history w (some u) p)
        × (p'.db ≡ p.db)
  unfolding clear_history history
  clear_history_lem w u ne = (
    rw (select-delete_self workspace_id user_id p.messages) (unfold order_by in refl),
    sym (
        length-order_by message_created_at _
        ∙ length-select_where (in_conversation workspace_id user_id) p.messages),
    ap (order_by message_created_at) (select-delete_other workspace_id user_id w u p.messages ne),
    refl,
  )

module _ (tools : Tools) (providers : Providers) (default_top_k : ℕ) (workspace : Workspace)
    (user_id : Option ℕ) (stamp : Stamp) (payload : Text) (top_k : Option ℕ) (p : Platform) where
  -- Whatever a caller asks in a workspace, the history of every other user, and of every other
  -- workspace, stays the same.
  pub history-chat :
      (w u : ℕ)
      → (user_id ≢ some u) ⊎ (workspace.id ≢ w)
      → history w
          (some u)
          (chat tools providers default_top_k workspace user_id stamp payload top_k p).1
        ≡ history w (some u) p
  history-chat w u ne =
      other_history w u ne
        (chat-Kept tools providers default_top_k workspace user_id stamp payload top_k p)
