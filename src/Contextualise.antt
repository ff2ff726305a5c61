-- ===== src/Contextualise.antt =====
-- app/pipeline/contextualise.py: the header put before a chunk when it is embedded. The LLM's
-- descriptions are an argument: the dict that `_describe_sections` returns, read with "" for a
-- missing key, or the descriptions by ordinal when a call per chunk is set.
use doc_chat_platform.Models.{ChunkDraft}
use doc_chat_platform.Text.{Text, join, codes}
use doc_chat_platform.Base.{[], some, List, ℕ, ◌∷◌, if◌then◌else◌, map, is_empty, ◌++◌}

abbrev pub arrow : Text
arrow = codes " > "

unfoldable pub section_key : ChunkDraft → Text
unfolding join
section_key draft = join arrow draft.section_path

-- `p for p in parts if p`
unfoldable pub nonempty_parts : List Text → List Text
nonempty_parts [] = []
nonempty_parts (p ∷ ps) = if is_empty p then nonempty_parts ps else p ∷ nonempty_parts ps

unfoldable pub build_header : Text → List Text → Text → Text
unfolding nonempty_parts join
build_header document_name section_path description =
    let header = join arrow (nonempty_parts (document_name ∷ section_path)) in
    if is_empty description then header else header ++ (codes " - " ++ description)

unfoldable pub set_header : Text → (ChunkDraft → Text) → ChunkDraft → ChunkDraft
unfolding build_header
set_header document_name describe draft = record draft {
  contextual_header = some (build_header document_name draft.section_path (describe draft));
}

-- The descriptions by section.
unfoldable pub contextualise : (Text → Text) → Text → List ChunkDraft → List ChunkDraft
unfolding set_header section_key
contextualise described document_name drafts =
    map (set_header document_name (λ draft. described (section_key draft))) drafts

-- The descriptions by chunk.
unfoldable pub contextualise_chunks : (ℕ → Text) → Text → List ChunkDraft → List ChunkDraft
unfolding set_header
contextualise_chunks described document_name drafts =
    map (set_header document_name (λ draft. described draft.ordinal)) drafts
