-- ===== src/Chat/Cited.antt =====
-- What an answer may cite: the composition of search, citations and the route.
use doc_chat_platform.Sql.Laws.{DistinctBy}
use doc_chat_platform.Chat.{
  Providers, Stamp, retrieve, Platform, ProviderError, answer_results, search_with, ChatResponse,
  reply_to, chat, reply_or_retrieve, retrieve_and_answer, answer_or_raise, first_vector, top_topics,
  response_of, corpus_state, limit_or,
}
use doc_chat_platform.Tokens.{Tools}
use doc_chat_platform.Conversation.{meta, reply, Kind, greeting, thanks, ack, farewell, classify}
use mathlib.Core.List.{Memᴰ}
use doc_chat_platform.Answering.Citations.{
  IsSource, Answered, is_source, no_sources, failed, declined, answered, answer_question-Answered,
}
use doc_chat_platform.Models.{Chunk, Document, is_ready}
use doc_chat_platform.Retrieval.Boundary.{Allowed, allowed, hybrid_search-Allowed}
use doc_chat_platform.Answering.{Citation, Answer}
use doc_chat_platform.Database.{Database, Workspace}
use doc_chat_platform.Text.{Text, strip}
use doc_chat_platform.Retrieval.{Engine, SearchResult, hybrid_search, query_rows}
use doc_chat_platform.Base.{
  [], some, true, zero, suc, ok, List, ℕ, All, Result, get_elem?, ◌≡◌, ◌∷◌, take, ◌-◌, none, inl,
  inr, refl, err, Option, ap, ◌∙◌, All-imp, Bool-cases, is_empty,
}

-- A citation of a chunk of the workspace, with its own document.
pub data FromWorkspace (workspace_id : ℕ) (db : Database) (c : Citation) : Type 0 where
  from_workspace :
      (chunk : Chunk) (d : Document)
      → Memᴰ chunk db.chunks
      → chunk.workspace_id ≡ workspace_id
      → c.chunk_id ≡ chunk.id
      → c.snippet ≡ take 400 chunk.content
      → Memᴰ d db.documents
      → chunk.document_id ≡ d.id
      → is_ready d.status ≡ true
      → c.document_id ≡ d.id
      → c.filename ≡ d.filename
      → FromWorkspace workspace_id db c

All-get_elem? :
    {A : Type 0} (P : A → Type 0) (xs : List A) (i : ℕ) {x : A}
    → All P xs
    → get_elem? xs i ≡ some x
    → P x
All-get_elem? P [] i h e = cc
All-get_elem? P (y ∷ ys) zero {x} h e = let same : x ≡ y = cc in rw same h.0
All-get_elem? P (y ∷ ys) (suc i) h e = All-get_elem? P ys i h.1 e

Answered-sources :
    {E : Type 0} {complete : Text → Result E Text} {question : Text} {results : List SearchResult}
    {r : Result E Answer} {a : Answer}
    → Answered complete question results r
    → r ≡ ok a
    → All (IsSource results) a.citations
Answered-sources {a = a} (no_sources b none_found refused empty) e =
    let same : a ≡ b = cc in rw same (rw empty tt)
Answered-sources (failed x f) e = cc
Answered-sources {a = a} (declined raw b c d refused empty n) e =
    let same : a ≡ b = cc in rw same (rw empty tt)
Answered-sources {a = a} (answered raw b c d refused t n g) e =
    let same : a ≡ b = cc in rw same g.sources

module _ (engine : Engine) (workspace_id : ℕ) (db : Database) where
  source-FromWorkspace :
      (results : List SearchResult) (c : Citation)
      → All (Allowed engine workspace_id db) results
      → IsSource results c
      → FromWorkspace workspace_id db c
  source-FromWorkspace results c h (is_source r low high at same) =
      shown (All-get_elem? (Allowed engine workspace_id db) results (c.number - 1) h at)
    where
      shown : Allowed engine workspace_id db r → FromWorkspace workspace_id db c
      shown (allowed chunk d s ranked) =
          from_workspace chunk d s.chunk_in_table s.of_workspace
            (ap (λ x. x.chunk_id) same ∙ s.its_chunk)
            (ap (λ x. x.snippet) same ∙ ap (take 400) s.its_content) s.document_in_table
            s.belongs_to s.document_ready (ap (λ x. x.document_id) same ∙ s.its_document)
            (ap (λ x. x.filename) same ∙ s.its_filename)

reply-citations :
    (kind : Option Kind) (names topics : List Text) (processing : ℕ)
    → (reply kind names topics processing).citations ≡ []
unfolding reply
reply-citations none names topics processing = refl
reply-citations (some greeting) names topics processing = refl
reply-citations (some thanks) names topics processing = refl
reply-citations (some ack) names topics processing = refl
reply-citations (some farewell) names topics processing = refl
reply-citations (some meta) names topics processing = refl

module _ (providers : Providers) (workspace_id : ℕ) (db : Database)
    (chunk_keys : DistinctBy (λ c. c.id) db.chunks)
    (document_keys : DistinctBy (λ d. d.id) db.documents) where
  found-Allowed :
      (question : Text) (limit : ℕ) (v : Result ProviderError (List ℕ))
      {results : List SearchResult}
      → search_with providers workspace_id db question limit v ≡ ok results
      → All (Allowed providers.engine workspace_id db) results
  unfolding hybrid_search
  found-Allowed question limit (err e) h = cc
  found-Allowed question limit (ok v) {results} h =
      let rows =
        hybrid_search-Allowed providers.engine workspace_id db chunk_keys document_keys question v
          limit refl in
      let same : results ≡ query_rows providers.engine workspace_id db question v limit = cc in
      rw same rows.1

  answer-Cited :
      (question : Text) (r : Result ProviderError (List SearchResult)) (limit : ℕ) {a : Answer}
      → retrieve providers workspace_id db question limit ≡ r
      → answer_results providers workspace_id db question r ≡ ok a
      → All (FromWorkspace workspace_id db) a.citations
  unfolding retrieve
  answer-Cited question (err e) limit f h = cc
  answer-Cited question (ok results) limit {a} f h =
      All-imp (IsSource results) (FromWorkspace workspace_id db) a.citations
        (λ c.
          source-FromWorkspace providers.engine workspace_id db results c
            (found-Allowed question limit (first_vector (providers.embed question)) f))
        (Answered-sources (answer_question-Answered providers.complete question results) h)

module _ (tools : Tools) (providers : Providers) (default_top_k : ℕ) (workspace : Workspace)
    (user_id : Option ℕ) (stamp : Stamp) (p : Platform)
    (chunk_keys : DistinctBy (λ c. c.id) p.db.chunks)
    (document_keys : DistinctBy (λ d. d.id) p.db.documents) (r : ChatResponse) (p' : Platform) where
  answered-Cited :
      (question : Text) (a : Result ProviderError Answer) (limit : ℕ)
      → retrieve_and_answer providers workspace.id p.db question limit ≡ a
      → answer_or_raise tools providers default_top_k workspace user_id stamp question a p
        ≡ (ok r, p')
      → All (FromWorkspace workspace.id p.db) r.citations
  unfolding retrieve_and_answer
  answered-Cited question (err e) limit f h = cc
  answered-Cited question (ok a) limit f h =
      let same : r ≡ response_of question a = cc in
      rw same (
        answer-Cited providers workspace.id p.db chunk_keys document_keys question
          (retrieve providers workspace.id p.db question limit) limit refl f)

  replied-Cited :
      (question : Text) (limit : ℕ) (kind : Option Kind) (names : List Text) (processing : ℕ)
      → reply_to tools providers default_top_k workspace user_id stamp question kind names
          processing p
        ≡ (ok r, p')
      → All (FromWorkspace workspace.id p.db) r.citations
  replied-Cited question limit kind names processing h =
      let topics = top_topics workspace.profile 8 in
      let same : r ≡ response_of question (reply kind names topics processing) = cc in
      rw same (rw (reply-citations kind names topics processing) tt)

  routed-Cited :
      (question : Text) (limit : ℕ) (kind : Option Kind) (names : List Text) (processing : ℕ)
      → reply_or_retrieve tools providers default_top_k workspace user_id stamp question limit kind
          names processing p
        ≡ (ok r, p')
      → All (FromWorkspace workspace.id p.db) r.citations
  routed-Cited question limit (some kind) names processing h =
      replied-Cited question limit (some kind) names processing h
  routed-Cited question limit none [] processing h =
      replied-Cited question limit none [] processing h
  routed-Cited question limit none (f ∷ fs) processing h =
      answered-Cited question (retrieve_and_answer providers workspace.id p.db question limit) limit
        refl h

  -- Every citation of an answer to a question in a workspace is of a chunk of that workspace, whose
  -- document is ready, and shows that chunk's text and that document's name, in tables whose ids are
  -- keys. No answer cites the documents of another workspace.
  pub chat-Cited :
      (payload : Text) (top_k : Option ℕ)
      → chat tools providers default_top_k workspace user_id stamp payload top_k p ≡ (ok r, p')
      → All (FromWorkspace workspace.id p.db) r.citations
  unfolding chat
  chat-Cited payload top_k h = elim (Bool-cases (is_empty (strip payload))) [
    | inl e ↦ absurd (cc (rw e at h))
    | inr e ↦
        let state = corpus_state workspace.id p.db in
        routed-Cited (strip payload) (limit_or default_top_k top_k) (classify tools (strip payload))
          state.0 state.1 (rw e at h)
  ]
