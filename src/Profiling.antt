-- ===== src/Profiling.antt =====
-- app/pipeline/profiling.py: the vocabulary that a workspace accumulates, and the tags of chunks.
pub mod Counting
use doc_chat_platform.Base.{
  [], some, true, false, zero, suc, Bool, List, ◌∷◌, ℕ, ◌+◌, if◌then◌else◌, not, ◌||◌, is_empty,
  ◌&&◌,
}
use doc_chat_platform.Text.{Text, text_eq, strip, lower}
use doc_chat_platform.Models.{DocumentProfile, Tags}
use doc_chat_platform.Database.{WorkspaceProfile, empty_profile}

-- A counted vocabulary, the dict `{value: count}`.
abbrev pub Counts : Type 0
Counts = List (Text × ℕ)

-- `counts.get(value, 0)`
unfoldable pub count_of : Text → Counts → ℕ
unfolding text_eq
count_of value [] = 0
count_of value ((v, n) ∷ counts) =
    let rest = count_of value counts in if text_eq v value then n else rest

-- `counts[value] = counts.get(value, 0) + 1`
unfoldable pub bump_one : Text → Counts → Counts
unfolding text_eq
bump_one value [] = (value, 1) ∷ []
bump_one value ((v, n) ∷ counts) =
    let rest = bump_one value counts in
    if text_eq v value then (v, n + 1) ∷ counts else (v, n) ∷ rest

-- `_bump`
unfoldable pub bump : Counts → List Text → Counts
unfolding bump_one
bump counts [] = counts
bump counts (value ∷ values) = bump (bump_one value counts) values

-- `[profile.document_type] if profile.document_type else []`
abbrev pub type_list : Text → List Text
type_list [] = []
type_list (c ∷ cs) = (c ∷ cs) ∷ []

unfoldable pub merge_workspace_profile : ℕ → WorkspaceProfile → DocumentProfile → WorkspaceProfile
unfolding bump
merge_workspace_profile now current profile = record {
  topics = bump current.topics profile.topics;
  entities = bump current.entities profile.entities;
  document_types = bump current.document_types (type_list profile.document_type);
  document_count = current.document_count + 1;
  updated_at = some now;
}

unfoldable pub is_member : Text → List Text → Bool
unfolding text_eq
is_member t [] = false
is_member t (u ∷ us) = text_eq u t || is_member t us

-- The loop of `_string_list` over a list of strings; `room` counts what may still be added.
unfoldable pub string_list_from : ℕ → List Text → List Text → List Text
unfolding is_member lower strip
string_list_from room seen [] = []
string_list_from zero seen (item ∷ items) = []
string_list_from (suc room) seen (item ∷ items) =
    let text = strip item in
    let key = lower text in
    elim (not (is_empty text) && not (is_member key seen)) [
      | true ↦ text ∷ string_list_from room (key ∷ seen) items
      | false ↦ string_list_from (suc room) seen items
    ]

-- `_string_list`, whose limit is 12 at every call
unfoldable pub string_list : List Text → List Text
unfolding string_list_from
string_list values = string_list_from 12 [] values

-- A stored profile read back, as `rebuild_workspace_profile` does.
unfoldable pub read_profile : DocumentProfile → DocumentProfile
unfolding string_list
read_profile raw = record raw {
  topics = string_list raw.topics;
  entities = string_list raw.entities;
}

unfoldable pub rebuild_from : ℕ → WorkspaceProfile → List DocumentProfile → WorkspaceProfile
unfolding merge_workspace_profile read_profile
rebuild_from now result [] = result
rebuild_from now result (raw ∷ profiles) =
    rebuild_from now (merge_workspace_profile now result (read_profile raw)) profiles

unfoldable pub rebuild_workspace_profile : ℕ → List DocumentProfile → WorkspaceProfile
unfolding rebuild_from
rebuild_workspace_profile now profiles = rebuild_from now empty_profile profiles

unfoldable pub chunk_tags : DocumentProfile → Tags
chunk_tags profile = record {
  document_type = profile.document_type;
  topics = profile.topics;
  entities = profile.entities;
}
