-- ===== src/Chat.antt =====
-- app/api/chat.py and app/models/chat.py: conversations, kept for a user in a workspace, and the
-- answer to a question. Routes run for a workspace and a principal that the guards let through.
-- The LLM and the embedder are parameters, with the RateLimited of app/implementations/retry.py as
-- one of their errors. Scores are not rounded for the response.
pub mod Private
pub mod Cited
use doc_chat_platform.Sql.Sorting.{sort_with}
use doc_chat_platform.Ingest.{in_workspace}
use doc_chat_platform.Conversation.{Kind, classify, reply}
use doc_chat_platform.Answering.{answer_question, Citation, Answer}
use doc_chat_platform.Sql.{count_where, order_by, delete_where, select_where}
use doc_chat_platform.Retrieval.{Engine, SearchResult, SearchError, hybrid_search}
use doc_chat_platform.Tokens.{Tools}
use doc_chat_platform.Database.{Database, WorkspaceProfile, Workspace}
use doc_chat_platform.Models.{Document, DocumentStatus, is_ready}
use doc_chat_platform.Text.{Text, decimal, strip}
use doc_chat_platform.Retry.{Seconds}
use doc_chat_platform.Base.{
  [], none, some, true, false, ok, err, Bool, List, Option, ℕ, Result, take, ◌==◌, ltb,
  if◌then◌else◌, ◌∷◌, Exec, ◌&&◌, map, ◌++◌, raise, ◌+◌, ◌-◌, is_empty, ◌/◌, ◌>>=◌, gets,
}

pub data Role : Type 0 where
  user assistant : Role

pub record ChatMessage : Type 0 where
  pub id : ℕ
  pub workspace_id : ℕ
  pub user_id : ℕ
  pub role : Role
  pub content : Text
  pub citations : List Citation
  pub refused : Bool
  pub created_at : ℕ

-- The tables together.
pub record Platform : Type 0 where
  pub db : Database
  pub messages : List ChatMessage

pub data ProviderError : Type 0 where
  rate_limited : Option Seconds → ProviderError
  other_error : ProviderError

pub data ChatError : Type 0 where
  bad_request bad_gateway : ChatError
  too_many_requests : Option Seconds → ChatError

pub record Providers : Type 0 where
  -- `embed_batch([question], TASK_QUERY)`
  pub embed : Text → Result ProviderError (List (List ℕ))
  pub complete : Text → Result ProviderError Text
  pub engine : Engine

pub record ChatResponse : Type 0 where
  pub question : Text
  pub answer : Text
  pub refused : Bool
  pub considered : ℕ
  pub citations : List Citation

unfoldable pub is_working : DocumentStatus → Bool
is_working DocumentStatus.ready = false
is_working DocumentStatus.failed = false
is_working _ = true

abbrev pub document_created_at : Document → ℕ
document_created_at d = d.created_at

abbrev pub has_ready_status : Document → Bool
has_ready_status d = is_ready d.status

abbrev pub is_processing : Document → Bool
is_processing d = is_working d.status

abbrev pub name_of : Document → Text
name_of d = d.filename

-- The file names of the documents that are ready, and how many are still worked on.
unfoldable pub corpus_state : ℕ → Database → List Text × ℕ
corpus_state workspace_id db =
    let rows =
      order_by document_created_at (select_where (in_workspace workspace_id) db.documents) in
    (map name_of (select_where has_ready_status rows), count_where is_processing rows)

abbrev pub more_frequent : Text × ℕ → Text × ℕ → Bool
more_frequent a b = ltb b.1 a.1

abbrev pub word_of : Text × ℕ → Text
word_of a = a.0

unfoldable pub top_topics : WorkspaceProfile → ℕ → List Text
top_topics profile limit = take limit (map word_of (sort_with more_frequent profile.topics))

-- `ceil`, for the header Retry-After; a wait of 0 has none.
unfoldable pub retry_after_header : Option Seconds → Option Text
retry_after_header none = none
retry_after_header (some s) =
    if s.units == 0 then none else some (decimal ((s.units + (s.scale - 1)) / s.scale))

-- The ids and the time of the two messages.
pub record Stamp : Type 0 where
  pub question_id : ℕ
  pub answer_id : ℕ
  pub now : ℕ

abbrev pub question_turn : Stamp → ℕ → ℕ → Text → ChatMessage
question_turn stamp workspace_id user_id question = record {
  id = stamp.question_id;
  workspace_id = workspace_id;
  user_id = user_id;
  role = user;
  content = question;
  citations = [];
  refused = false;
  created_at = stamp.now;
}

abbrev pub answer_turn : Stamp → ℕ → ℕ → Answer → List Citation → ChatMessage
answer_turn stamp workspace_id user_id answer citations = record {
  id = stamp.answer_id;
  workspace_id = workspace_id;
  user_id = user_id;
  role = assistant;
  content = answer.text;
  citations = citations;
  refused = answer.refused;
  created_at = stamp.now;
}

unfoldable pub save_turns :
    Stamp → ℕ → Option ℕ → Text → Answer → List Citation → Platform → Platform
save_turns stamp workspace_id none question answer citations p = p
save_turns stamp workspace_id (some user_id) question answer citations p = record p {
  messages =
      p.messages
      ++ (question_turn stamp workspace_id user_id question
          ∷ answer_turn stamp workspace_id user_id answer citations
          ∷ []);
}

abbrev pub in_conversation : ℕ → ℕ → ChatMessage → Bool
in_conversation workspace_id user_id m = m.workspace_id == workspace_id && m.user_id == user_id

abbrev pub message_created_at : ChatMessage → ℕ
message_created_at m = m.created_at

unfoldable pub history : ℕ → Option ℕ → Platform → List ChatMessage
history workspace_id none p = []
history workspace_id (some user_id) p =
    order_by message_created_at (select_where (in_conversation workspace_id user_id) p.messages)

-- The number of messages that went, and the tables.
unfoldable pub clear_history : ℕ → Option ℕ → Platform → ℕ × Platform
clear_history workspace_id none p = (0, p)
clear_history workspace_id (some user_id) p = (
  count_where (in_conversation workspace_id user_id) p.messages,
  record p { messages = delete_where (in_conversation workspace_id user_id) p.messages },
)

-- The vector of the question; `[0]` of an empty answer raises.
abbrev pub first_vector : Result ProviderError (List (List ℕ)) → Result ProviderError (List ℕ)
first_vector (err e) = err e
first_vector (ok []) = err other_error
first_vector (ok (v ∷ vs)) = ok v

abbrev pub search_result :
    Result SearchError (List SearchResult) → Result ProviderError (List SearchResult)
search_result (ok rows) = ok rows
search_result (err _) = err other_error

module _ (providers : Providers) (workspace_id : ℕ) (db : Database) where
  abbrev pub search_with :
      Text → ℕ → Result ProviderError (List ℕ) → Result ProviderError (List SearchResult)
  search_with question limit (err e) = err e
  search_with question limit (ok v) =
      search_result (hybrid_search providers.engine workspace_id db question (some v) limit)

  -- `retrieve` of app/pipeline/answering.py
  unfoldable pub retrieve : Text → ℕ → Result ProviderError (List SearchResult)
  unfolding hybrid_search
  retrieve question limit = search_with question limit (first_vector (providers.embed question))

  abbrev pub answer_results :
      Text → Result ProviderError (List SearchResult) → Result ProviderError Answer
  answer_results question (err e) = err e
  answer_results question (ok results) = answer_question providers.complete question results

  unfoldable pub retrieve_and_answer : Text → ℕ → Result ProviderError Answer
  unfolding retrieve answer_question
  retrieve_and_answer question limit = answer_results question (retrieve question limit)

abbrev pub status_of : ProviderError → ChatError
status_of (rate_limited s) = too_many_requests s
status_of other_error = bad_gateway

abbrev pub response_of : Text → Answer → ChatResponse
response_of question answer = record {
  question = question;
  answer = answer.text;
  refused = answer.refused;
  considered = answer.considered;
  citations = answer.citations;
}

-- `payload.top_k or settings.retrieval_top_k`
abbrev pub limit_or : ℕ → Option ℕ → ℕ
limit_or default none = default
limit_or default (some k) = if k == 0 then default else k

module _ (tools : Tools) (providers : Providers) (default_top_k : ℕ) (workspace : Workspace)
    (user_id : Option ℕ) (stamp : Stamp) where
  abbrev pub save_and_respond : Text → Answer → Exec ChatError Platform ChatResponse
  save_and_respond question answer p = (
    ok (response_of question answer),
    save_turns stamp workspace.id user_id question answer answer.citations p,
  )

  abbrev pub answer_or_raise :
      Text → Result ProviderError Answer → Exec ChatError Platform ChatResponse
  answer_or_raise question (err e) = raise (status_of e)
  answer_or_raise question (ok answer) = save_and_respond question answer

  abbrev pub reply_to : Text → Option Kind → List Text → ℕ → Exec ChatError Platform ChatResponse
  reply_to question kind filenames processing =
      save_and_respond question (reply kind filenames (top_topics workspace.profile 8) processing)

  -- Small talk, and any question to a workspace with nothing ready, is answered without retrieval.
  abbrev pub reply_or_retrieve :
      Text → ℕ → Option Kind → List Text → ℕ → Exec ChatError Platform ChatResponse
  reply_or_retrieve question limit (some kind) filenames processing =
      reply_to question (some kind) filenames processing
  reply_or_retrieve question limit none [] processing = reply_to question none [] processing
  reply_or_retrieve question limit none (f ∷ fs) processing = do
    answer ← gets (λ p. retrieve_and_answer providers workspace.id p.db question limit)
    answer_or_raise question answer

  unfoldable pub chat : Text → Option ℕ → Exec ChatError Platform ChatResponse
  unfolding retrieve_and_answer classify reply corpus_state save_turns top_topics strip
  chat payload top_k p =
      let question = strip payload in
      if is_empty question
      then raise bad_request p
      else (let state = corpus_state workspace.id p.db in
          reply_or_retrieve question (limit_or default_top_k top_k) (classify tools question)
            state.0 state.1 p)

  -- `search`: the rows as they are; only a rate limit is turned into a status.
  unfoldable pub search : Text → Option ℕ → Platform → Result ProviderError (List SearchResult)
  unfolding retrieve strip
  search query top_k p =
      retrieve providers workspace.id p.db (strip query) (limit_or default_top_k top_k)
