-- ===== src/Examples/Chunks.antt =====
-- Chunking, splitting and merging on small documents.
use doc_chat_platform.Splitting.Marks.{ProcedureParts, procedure_parts-ProcedureParts}
use doc_chat_platform.Profiling.Counting.{
  rebuild_workspace_profile_lem, TidyProfile, profiles_with, names,
}
use doc_chat_platform.Procedures.Merging.{join-group_numbered_procedures}
use doc_chat_platform.Splitting.Parts.{FitsOrWord, sentence_parts-Fits}
use doc_chat_platform.Tokens.Additive.{default_tools-IsAdditive}
use doc_chat_platform.Tokens.{default_tools}
use doc_chat_platform.Chunking.{ChunkingConfig, chunk_blocks}
use doc_chat_platform.Procedures.{
  split_steps, newline, group_numbered_procedures, texts, step_number,
}
use doc_chat_platform.Chunking.Sizes.{AreChunks, chunk_blocks-AreChunks}
use doc_chat_platform.Splitting.{sentence_parts, procedure_parts}
use doc_chat_platform.Profiling.{count_of, rebuild_workspace_profile}
use doc_chat_platform.Models.{DocumentProfile, Block, BlockKind}
use doc_chat_platform.Text.{Text, join, codes, is_space, is_line_break, text_eq, strip, lower}
use doc_chat_platform.Base.{
  [], none, some, false, refl, List, String, All, length, ◌∷◌, ◌≡◌, arith, not, is_empty, ◌&&◌,
}

abbrev text_block : String → Block
text_block s = record {
  kind = BlockKind.text;
  text = codes s;
  section_path = [];
  level = none;
  page = none;
  slide_index = none;
  table_header = none;
  atomic = false;
}

abbrev config : ChunkingConfig
config = record { target_tokens = 4; overlap_tokens = 1; max_tokens = 6 }

abbrev prose : List Block
prose = text_block "One two three. Four five six. Seven." ∷ text_block "Eight nine." ∷ []

abbrev procedure : List Block
procedure =
    text_block "To reset:"
    ∷ text_block "1. Open it."
    ∷ text_block "2. Press it."
    ∷ text_block "Done."
    ∷ []

abbrev steps : Text
steps = codes "1. Open the lid now.\n2. Press the button.\n3. Close it."

abbrev table : Block
table = record (text_block "a | b\n1 | 2\n3 | 4") {
  kind = BlockKind.table;
  table_header = some (codes "a | b");
}

chunk_blocks-AreChunks_example :
    AreChunks default_tools default_tools-IsAdditive config
      (chunk_blocks default_tools config prose)
chunk_blocks-AreChunks_example =
    chunk_blocks-AreChunks default_tools default_tools-IsAdditive config prose

join-group_numbered_procedures_example :
    join newline (texts (group_numbered_procedures default_tools procedure))
    ≡ join newline (texts procedure)
join-group_numbered_procedures_example = join-group_numbered_procedures default_tools procedure

sentence_parts-Fits_example :
    All (FitsOrWord default_tools default_tools-IsAdditive 4) (sentence_parts default_tools steps 4)
unfolding is_space
sentence_parts-Fits_example =
    sentence_parts-Fits default_tools default_tools-IsAdditive steps 4 refl

three_steps : length (split_steps default_tools steps) ≡ 3
unfolding split_steps is_line_break is_space step_number
three_steps = refl

procedure_parts-ProcedureParts_example :
    ProcedureParts default_tools steps (procedure_parts default_tools steps 4)
procedure_parts-ProcedureParts_example = procedure_parts-ProcedureParts default_tools steps 4

abbrev profiles : List DocumentProfile
profiles =
    record {
      document_type = codes "guide";
      summary = [];
      topics = codes "reset" ∷ codes "power" ∷ [];
      entities = codes "ACME" ∷ [];
    }
    ∷ record {
      document_type = codes "guide";
      summary = [];
      topics = codes "reset" ∷ [];
      entities = [];
    }
    ∷ []

profiles-Tidy : All TidyProfile profiles
unfolding is_space strip lower text_eq
profiles-Tidy = (
  (
    (omega arith, (refl, refl, (refl, tt), (refl, refl, tt, tt))),
    (omega arith, (refl, refl, tt, tt)),
  ),
  (((omega arith, (refl, refl, tt, tt)), (omega arith, tt)), tt),
)

rebuild_workspace_profile_lem_example :
    let result = rebuild_workspace_profile 9 profiles in
    let value = codes "reset" in
    (count_of value result.topics ≡ profiles_with (λ p. names value p.topics) profiles)
    × (count_of value result.entities ≡ profiles_with (λ p. names value p.entities) profiles)
    × (count_of value result.document_types
        ≡ profiles_with
            (λ p. not (is_empty p.document_type) && text_eq p.document_type value)
            profiles)
    × (result.document_count ≡ length profiles)
rebuild_workspace_profile_lem_example =
    rebuild_workspace_profile_lem 9 (codes "reset") profiles profiles-Tidy
