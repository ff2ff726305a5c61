-- ===== src/Examples/Rooms.antt =====
-- A workspace with one document that is ready: searches, answers, conversations, its counts and its
-- deletion.
use doc_chat_platform.Workspaces.Dashboard.{workspace_counts_lem}
use doc_chat_platform.Workspaces.Access.{require_workspace_admin-Granted}
use doc_chat_platform.Accounts.Guards.{Entitled}
use doc_chat_platform.Sql.Sorting.{InOrder, sort_with}
use doc_chat_platform.Workspaces.Deletion.{Emptied, Spared, delete_workspace_lem}
use doc_chat_platform.Ingest.{in_workspace}
use doc_chat_platform.Examples.People.{settings, with_cookie_of_ada, signed_in_accounts}
use doc_chat_platform.Accounts.{Principal}
use doc_chat_platform.Answering.{cite}
use doc_chat_platform.Retrieval.Boundary.{Allowed, hybrid_search-Allowed}
use doc_chat_platform.Examples.Calls.{toy_hashes}
use doc_chat_platform.Tokens.{default_tools}
use doc_chat_platform.Text.{codes, is_space, text_eq, decimal, contains}
use doc_chat_platform.Examples.{sample_document, sample_database, sample_workspace, no_tags}
use doc_chat_platform.Chat.Cited.{FromWorkspace, chat-Cited}
use doc_chat_platform.Sql.{select_where, count_where, order_by, find_where, scalar_one_or_none}
use mathlib.Core.List.{Memᴰ}
use doc_chat_platform.Models.{Document, DocumentStatus, is_ready}
use doc_chat_platform.Workspaces.{
  require_workspace_admin, delete_workspace, workspace_counts, chunk_in_workspace,
  message_in_workspace, has_status,
}
use doc_chat_platform.Chat.{
  chat, clear_history, Platform, Providers, history, ChatResponse, Stamp, question_turn,
  answer_turn, has_ready_status, is_processing, is_working,
}
use doc_chat_platform.Sql.Laws.{DistinctBy}
use doc_chat_platform.Database.{Database}
use doc_chat_platform.Chat.Private.{Kept, clear_history_lem, chat-Kept}
use doc_chat_platform.Retrieval.{hybrid_search, SearchResult, Engine, Score, ranks_before, score_of}
use doc_chat_platform.Base.{
  [], none, some, true, false, inl, refl, arith, ok, List, Option, length, All, ℕ, ◌≢◌, ◌∷◌, ◌≤◌,
  ◌≡◌, ◌+◌,
}

abbrev engine : Engine
engine = record { distance = λ a b. 0; text_score = λ q c. some 1; tagged = λ c. true }

abbrev ready_document : Document
ready_document = record sample_document { status = DocumentStatus.ready }

abbrev room : Database
room = record sample_database {
  documents = ready_document ∷ record sample_document { id = 4; workspace_id = 2 } ∷ [];
}

abbrev platform : Platform
platform = record { db = room; messages = [] }

abbrev providers : Providers
providers = record {
  embed = λ q. ok ((1 ∷ []) ∷ []);
  complete = λ prompt. ok (codes " Yes [1], and [7] or [1].");
  engine = engine;
}

abbrev stamp : Stamp
stamp = record { question_id = 20; answer_id = 21; now = 300 }

abbrev hit : ℕ → Option ℕ → Option ℕ → Score → SearchResult
hit n vector_rank text_rank score = record {
  chunk_id = n;
  document_id = 3;
  content = codes "text";
  contextual_header = some (codes "guide.txt");
  section_path = [];
  score = score;
  filename = codes "guide.txt";
  ordinal = n;
  tags = no_tags;
  vector_rank = vector_rank;
  text_rank = text_rank;
}

abbrev hits : List SearchResult
hits =
    hit 0 (some 1) (some 1) (record { num = 122; den = 3721 })
    ∷ hit 1 none (some 2) (record { num = 1; den = 62 })
    ∷ []

room_is_searched : hybrid_search engine 1 room (codes "what?") (some (1 ∷ [])) 8 ≡ ok hits
unfolding hybrid_search sort_with select_where is_ready find_where score_of
room_is_searched = refl

chunk_ids : DistinctBy (λ c. c.id) room.chunks
chunk_ids = omega arith

document_ids : DistinctBy (λ d. d.id) room.documents
document_ids = omega arith

hybrid_search-Allowed_example :
    (length hits ≤ 8) × All (Allowed engine 1 room) hits × InOrder (ranks_before engine 1 room) hits
hybrid_search-Allowed_example =
    hybrid_search-Allowed engine 1 room chunk_ids document_ids (codes "what?") (1 ∷ []) 8
      room_is_searched

abbrev response : ChatResponse
response = record {
  question = codes "what?";
  answer = codes "Yes [1], and [7] or [1].";
  refused = false;
  considered = 2;
  citations = cite 1 (hit 0 (some 1) (some 1) (record { num = 122; den = 3721 })) ∷ [];
}

abbrev talked : Platform
talked = record platform {
  messages =
      question_turn stamp 1 5 (codes "what?")
      ∷ answer_turn stamp 1 5
          (record {
            text = response.answer;
            citations = response.citations;
            refused = false;
            considered = 2;
          })
          response.citations
      ∷ [];
}

question_is_answered :
    chat default_tools providers 8 sample_workspace (some 5) stamp (codes " what? ") none platform
    ≡ (ok response, talked)
unfolding chat is_space select_where order_by is_ready sort_with find_where score_of contains
question_is_answered = refl

greeting_is_answered :
    (chat default_tools providers 8 sample_workspace none stamp (codes "Hi!!") none platform).0
    ≡ ok (record response {
      question = codes "Hi!!";
      answer =
          codes
            "Hi. I answer questions using only the 1 document in this workspace: guide.txt. Every answer cites its source, and if the documents don't cover something I'll say so rather than guess.";
      considered = 0;
      citations = [];
    })
unfolding chat is_space select_where order_by is_ready sort_with count_where is_working decimal
greeting_is_answered = refl

chat-Cited_example : All (FromWorkspace 1 room) response.citations
chat-Cited_example =
    chat-Cited default_tools providers 8 sample_workspace (some 5) stamp platform chunk_ids
      document_ids response talked (codes " what? ") none question_is_answered

chat-Kept_example :
    Kept 1
      (some 5)
      stamp
      (codes "what?")
      platform
      (chat default_tools providers 8 sample_workspace (some 5) stamp (codes "what?") none platform)
chat-Kept_example =
    chat-Kept default_tools providers 8 sample_workspace (some 5) stamp (codes "what?") none
      platform

other_user : ◌≢◌ {A = Option ℕ} (some 5) (some 6)
other_user e = cc

clear_history_lem_example :
    let (n, p') = clear_history 1 (some 5) talked in
    (history 1 (some 5) p' ≡ [])
    × (n ≡ length (history 1 (some 5) talked))
    × (history 2 (some 5) p' ≡ history 2 (some 5) talked)
    × (p'.db ≡ talked.db)
clear_history_lem_example = clear_history_lem 1 5 talked 2 5 (inl (omega arith))

workspace_counts_lem_example :
    let counts = workspace_counts 1 room in
    let documents = select_where (in_workspace 1) room.documents in
    (counts.total ≡ length documents)
    × (counts.total ≡ counts.ready + counts.failed + counts.in_progress)
    × (counts.ready ≡ count_where has_ready_status documents)
    × (counts.failed ≡ count_where (has_status DocumentStatus.failed) documents)
    × (counts.in_progress ≡ count_where is_processing documents)
workspace_counts_lem_example = workspace_counts_lem 1 room

delete_workspace_lem_example :
    let (report, p') = delete_workspace sample_workspace talked in
    Emptied 1 p'
    × (report.documents_deleted ≡ count_where (in_workspace 1) room.documents)
    × (report.chunks_deleted ≡ count_where (chunk_in_workspace 1) room.chunks)
    × (report.messages_deleted ≡ count_where (message_in_workspace 1) talked.messages)
    × Spared 2 talked p'
delete_workspace_lem_example = delete_workspace_lem sample_workspace talked 2 (omega arith)

ada_may_delete :
    require_workspace_admin toy_hashes settings
      (sample_workspace ∷ [])
      with_cookie_of_ada
      200
      1
      signed_in_accounts
    ≡ (
      ok sample_workspace,
      (require_workspace_admin toy_hashes settings
          (sample_workspace ∷ [])
          with_cookie_of_ada
          200
          1
          signed_in_accounts).1,
    )
unfolding require_workspace_admin text_eq find_where scalar_one_or_none select_where
ada_may_delete = refl

require_workspace_admin-Granted_example :
    Memᴰ sample_workspace (sample_workspace ∷ [])
    × (sample_workspace.id ≡ 1)
    × (p : Principal) × Entitled toy_hashes settings with_cookie_of_ada 200 signed_in_accounts p
    × (p.is_admin ≡ true)
require_workspace_admin-Granted_example =
    require_workspace_admin-Granted toy_hashes settings (sample_workspace ∷ []) with_cookie_of_ada
      200 1 signed_in_accounts
      (require_workspace_admin toy_hashes settings (sample_workspace ∷ []) with_cookie_of_ada 200 1
        signed_in_accounts).1
      sample_workspace ada_may_delete
