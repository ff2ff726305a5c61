-- ===== src/Workspaces.antt =====
-- app/api/workspaces.py, the slug of app/api/schemas.py, and the guards require_workspace and
-- require_workspace_admin of app/api/deps.py. `config`, which no code reads, is left out. Rows that
-- a GROUP BY returns come in the order of the statuses.
pub mod Deletion
pub mod Dashboard
pub mod Access
use doc_chat_platform.Sql.Sorting.{sort_with}
use doc_chat_platform.Persist.{document_has_id, workspace_has_id}
use doc_chat_platform.Accounts.{
  Settings, HttpError, server_error, require_user, not_found, Credentials, conflict, Accounts,
  only_admin,
}
use doc_chat_platform.Sql.{
  TooMany, count_where, select_where, order_by, scalar_one_or_none, delete_where,
}
use doc_chat_platform.Database.{Workspace, empty_profile, Database}
use doc_chat_platform.Chat.{
  Platform, is_working, ChatMessage, message_created_at, word_of, in_conversation,
}
use doc_chat_platform.Models.{DocumentStatus, Document, Chunk}
use doc_chat_platform.Text.{Text, strip, text_eq, lower}
use doc_chat_platform.Security.{Hashes}
use doc_chat_platform.Ingest.{requeue_workspace, in_workspace}
use doc_chat_platform.Base.{
  [], none, some, true, false, zero, suc, ok, err, Bool, List, Option, Result, ℕ, if◌then◌else◌,
  any, map, Exec, ◌∷◌, ltb, max, leb, ◌||◌, ◌&&◌, ◌==◌, ◌+◌, get_or_else, take, ◌++◌, ◌>>=◌, lift,
  pure,
}

abbrev pub is_slug_letter : ℕ → Bool
is_slug_letter c = (leb b'a' c && leb c b'z') || (leb b'0' c && leb c b'9')

-- `^[a-z0-9]+(?:-[a-z0-9]+)*$`; `after` tells that a letter or digit stands before.
unfoldable pub is_slug : Bool → Text → Bool
is_slug after [] = after
is_slug after (c ∷ cs) =
    let rest = is_slug (is_slug_letter c) cs in
    if is_slug_letter c then rest else after && (c == b'-' && rest)

-- `_check_slug`; `none` is its ValueError
unfoldable pub check_slug : Text → Option Text
unfolding is_slug strip lower
check_slug value = let slug = lower (strip value) in if is_slug false slug then some slug else none

abbrev pub has_slug : Text → Workspace → Bool
has_slug slug w = text_eq w.slug slug

abbrev pub new_workspace : ℕ → Text → Text → ℕ → Workspace
new_workspace i name slug now = record {
  id = i;
  name = name;
  slug = slug;
  profile = empty_profile;
  created_at = now;
}

-- The slug is one that `check_slug` returned; slugs and ids are unique in the table.
unfoldable pub create_workspace : ℕ → Text → Text → Exec HttpError Platform Workspace
create_workspace i name slug p =
    if any (has_slug slug) p.db.workspaces || any (workspace_has_id i) p.db.workspaces
    then (err conflict, p)
    else (let w = new_workspace i name slug p.db.clock in
        (ok w, record p { db = record p.db { workspaces = p.db.workspaces ++ (w ∷ []) } }))

pub record DocumentCounts : Type 0 where
  pub total : ℕ
  pub ready : ℕ
  pub failed : ℕ
  pub in_progress : ℕ
  pub by_status : List (DocumentStatus × ℕ)
  pub chunk_count : ℕ

unfoldable pub same_status : DocumentStatus → DocumentStatus → Bool
same_status DocumentStatus.pending DocumentStatus.pending = true
same_status DocumentStatus.parsing DocumentStatus.parsing = true
same_status DocumentStatus.profiling DocumentStatus.profiling = true
same_status DocumentStatus.chunking DocumentStatus.chunking = true
same_status DocumentStatus.embedding DocumentStatus.embedding = true
same_status DocumentStatus.ready DocumentStatus.ready = true
same_status DocumentStatus.failed DocumentStatus.failed = true
same_status _ _ = false

abbrev pub statuses : List DocumentStatus
statuses =
    DocumentStatus.pending ∷ DocumentStatus.parsing ∷ DocumentStatus.profiling
    ∷ DocumentStatus.chunking ∷ DocumentStatus.embedding ∷ DocumentStatus.ready
    ∷ DocumentStatus.failed ∷ []

abbrev pub has_status : DocumentStatus → Document → Bool
has_status s d = same_status s d.status

abbrev pub push_group : DocumentStatus → ℕ → List (DocumentStatus × ℕ) → List (DocumentStatus × ℕ)
push_group s zero groups = groups
push_group s (suc n) groups = (s, suc n) ∷ groups

-- SELECT status, count(*) … GROUP BY status
unfoldable pub group_by_status : List Document → List DocumentStatus → List (DocumentStatus × ℕ)
unfolding same_status
group_by_status documents [] = []
group_by_status documents (s ∷ ss) =
    push_group s (count_where (has_status s) documents) (group_by_status documents ss)

unfoldable pub sum_counts : List (DocumentStatus × ℕ) → ℕ
sum_counts [] = 0
sum_counts ((s, n) ∷ groups) = n + sum_counts groups

-- `by_status.get(status, 0)`
unfoldable pub count_for : DocumentStatus → List (DocumentStatus × ℕ) → ℕ
unfolding same_status
count_for s [] = 0
count_for s ((t, n) ∷ groups) = let rest = count_for s groups in if same_status s t then n else rest

-- `s not in _TERMINAL`
abbrev pub not_terminal : DocumentStatus × ℕ → Bool
not_terminal g = is_working g.0

unfoldable pub counts_from : List (DocumentStatus × ℕ) → ℕ → DocumentCounts
unfolding sum_counts count_for
counts_from by_status chunk_count = record {
  total = sum_counts by_status;
  ready = count_for DocumentStatus.ready by_status;
  failed = count_for DocumentStatus.failed by_status;
  in_progress = sum_counts (select_where not_terminal by_status);
  by_status = by_status;
  chunk_count = chunk_count;
}

abbrev pub chunk_in_workspace : ℕ → Chunk → Bool
chunk_in_workspace i c = c.workspace_id == i

-- `_counts`
unfoldable pub workspace_counts : ℕ → Database → DocumentCounts
unfolding group_by_status counts_from
workspace_counts i db =
    counts_from (group_by_status (select_where (in_workspace i) db.documents) statuses)
      (count_where (chunk_in_workspace i) db.chunks)

-- Whether a text comes before another, by code points.
unfoldable pub text_before : Text → Text → Bool
text_before [] [] = false
text_before [] (d ∷ u) = true
text_before (c ∷ t) [] = false
text_before (c ∷ t) (d ∷ u) = ltb c d || (c == d && text_before t u)

-- The order of the key `(-count, word)`
abbrev pub more_common : Text × ℕ → Text × ℕ → Bool
more_common a b = ltb b.1 a.1 || (a.1 == b.1 && text_before a.0 b.0)

unfoldable pub most_common : List (Text × ℕ) → ℕ → List Text
unfolding text_before
most_common counted limit = map word_of (take limit (sort_with more_common counted))

-- `_bump_latest` at the workspace's own key
abbrev pub bump_latest : ℕ → Option ℕ → ℕ
bump_latest latest none = latest
bump_latest latest (some t) = if ltb latest t then t else latest

abbrev pub later_of : ℕ → Option ℕ → Option ℕ
later_of t none = some t
later_of t (some u) = some (max t u)

-- max(…) of a group; `none` for a group with no row
module _ {A : Type 0} where
  unfoldable pub latest_by : (A → ℕ) → List A → Option ℕ
  latest_by key [] = none
  latest_by key (x ∷ xs) = later_of (key x) (latest_by key xs)

-- greatest(created_at, indexed_at), which passes over NULL
abbrev pub touched_at : Document → ℕ
touched_at d = max d.created_at (get_or_else d.indexed_at 0)

unfoldable pub bump_groups : List Document → List DocumentStatus → ℕ → ℕ
unfolding latest_by same_status
bump_groups documents [] latest = latest
bump_groups documents (s ∷ ss) latest =
    bump_groups documents ss
      (bump_latest latest (latest_by touched_at (select_where (has_status s) documents)))

-- Only messages of the caller count.
abbrev pub own_latest : ℕ → Option ℕ → List ChatMessage → Option ℕ
own_latest i none messages = none
own_latest i (some u) messages =
    latest_by message_created_at (select_where (in_conversation i u) messages)

unfoldable pub last_activity : Platform → Option ℕ → Workspace → ℕ
unfolding bump_groups
last_activity p user_id w =
    bump_latest
      (bump_groups (select_where (in_workspace w.id) p.db.documents) statuses w.created_at)
      (own_latest w.id user_id p.messages)

pub record WorkspaceListItem : Type 0 where
  pub id : ℕ
  pub name : Text
  pub slug : Text
  pub documents : DocumentCounts
  pub top_topics : List Text
  pub document_types : List Text
  pub last_activity_at : ℕ

abbrev pub list_item : Platform → Option ℕ → Workspace → WorkspaceListItem
list_item p user_id w = record {
  id = w.id;
  name = w.name;
  slug = w.slug;
  documents = workspace_counts w.id p.db;
  top_topics = most_common w.profile.topics 5;
  document_types = most_common w.profile.document_types 3;
  last_activity_at = last_activity p user_id w;
}

abbrev pub workspace_created_at : Workspace → ℕ
workspace_created_at w = w.created_at

unfoldable pub list_workspaces : Option ℕ → Platform → List WorkspaceListItem
unfolding workspace_counts most_common last_activity
list_workspaces user_id p =
    map (list_item p user_id) (order_by workspace_created_at p.db.workspaces)

pub record WorkspaceDeleted : Type 0 where
  pub workspace_id : ℕ
  pub name : Text
  pub documents_deleted : ℕ
  pub chunks_deleted : ℕ
  pub messages_deleted : ℕ

abbrev pub message_in_workspace : ℕ → ChatMessage → Bool
message_in_workspace i m = m.workspace_id == i

abbrev pub of_deleted : List Document → ℕ → Bool
of_deleted documents i = any (document_has_id i) documents

-- The row of the workspace, and what refers to it or to one of its documents (ON DELETE CASCADE).
unfoldable pub cascade_workspace : ℕ → Platform → Platform
cascade_workspace i p =
    let gone = select_where (in_workspace i) p.db.documents in
    record p {
      db = record p.db {
        workspaces = delete_where (workspace_has_id i) p.db.workspaces;
        documents = delete_where (in_workspace i) p.db.documents;
        files = delete_where (λ f. f.workspace_id == i || of_deleted gone f.document_id) p.db.files;
        chunks =
            delete_where (λ c. c.workspace_id == i || of_deleted gone c.document_id) p.db.chunks;
        jobs = delete_where (λ j. j.workspace_id == i || of_deleted gone j.document_id) p.db.jobs;
      };
      messages = delete_where (message_in_workspace i) p.messages;
    }

unfoldable pub delete_workspace : Workspace → Platform → WorkspaceDeleted × Platform
unfolding workspace_counts cascade_workspace
delete_workspace w p =
    let counts = workspace_counts w.id p.db in
    (
      record {
        workspace_id = w.id;
        name = w.name;
        documents_deleted = counts.total;
        chunks_deleted = counts.chunk_count;
        messages_deleted = count_where (message_in_workspace w.id) p.messages;
      },
      cascade_workspace w.id p,
    )

-- The number that was queued, and the tables.
unfoldable pub reindex_workspace : (ℕ → ℕ) → Workspace → Platform → ℕ × Platform
unfolding requeue_workspace
reindex_workspace new_id w p =
    let (n, db) = requeue_workspace new_id w.id p.db in (n, record p { db = db })

abbrev pub found_or_404 : Result TooMany (Option Workspace) → Result HttpError Workspace
found_or_404 (err _) = err server_error
found_or_404 (ok none) = err not_found
found_or_404 (ok (some w)) = ok w

abbrev pub workspace_of : ℕ → List Workspace → Result HttpError Workspace
workspace_of i workspaces =
    found_or_404 (scalar_one_or_none (select_where (workspace_has_id i) workspaces))

module _ (hashes : Hashes) (settings : Settings) (workspaces : List Workspace) where
  unfoldable pub require_workspace : Credentials → ℕ → ℕ → Exec HttpError Accounts Workspace
  unfolding require_user
  require_workspace given now i = do
    principal ← require_user hashes settings given now
    lift (workspace_of i workspaces)

  -- The principal is found once in a request, and looked at after the workspace.
  unfoldable pub require_workspace_admin : Credentials → ℕ → ℕ → Exec HttpError Accounts Workspace
  unfolding require_user
  require_workspace_admin given now i = do
    principal ← require_user hashes settings given now
    w ← lift (workspace_of i workspaces)
    admin ← only_admin hashes settings principal
    pure w
