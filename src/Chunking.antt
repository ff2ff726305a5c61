-- ===== src/Chunking.antt =====
-- app/pipeline/chunking.py: parsed blocks become chunks.
pub mod Sizes
use doc_chat_platform.Base.{
  [], none, some, true, false, Bool, List, Option, not, if◌then◌else◌, ℕ, ◌++◌, ◌∷◌, ◌==◌, ◌+◌, leb,
  ltb, length, is_empty, get_or_else, any, ◌&&◌, is_some,
}
use doc_chat_platform.Text.{Text, strip, join}
use doc_chat_platform.Models.{Block, BlockKind, ChunkDraft}
use doc_chat_platform.Tokens.{Tools}
use doc_chat_platform.Procedures.{group_numbered_procedures}
use doc_chat_platform.Splitting.{sentence_parts, table_parts, procedure_parts, tail_overlap}

-- `overlap_tokens` is the value of the property `int(target_tokens * overlap_ratio)`.
pub record ChunkingConfig : Type 0 where
  pub target_tokens : ℕ
  pub overlap_tokens : ℕ
  pub max_tokens : ℕ

abbrev pub paragraph_break : Text
paragraph_break = 10 ∷ 10 ∷ []

-- `_Assembler`
pub record Assembler : Type 0 where
  pub drafts : List ChunkDraft
  pub buffer : List Text
  pub tokens : ℕ
  pub section_path : List Text
  pub page : Option ℕ
  pub slide : Option ℕ
  pub pending_overlap : Text

abbrev pub new_assembler : Assembler
new_assembler = record {
  drafts = [];
  buffer = [];
  tokens = 0;
  section_path = [];
  page = none;
  slide = none;
  pending_overlap = [];
}

unfoldable pub new_draft : Tools → ℕ → List Text → Option ℕ → Option ℕ → Text → ChunkDraft
new_draft tools ordinal section_path page slide piece = record {
  ordinal = ordinal;
  content = piece;
  section_path = section_path;
  contextual_header = none;
  token_count = tools.count_tokens piece;
  page = page;
  slide_index = slide;
}

-- `for piece in pieces: drafts.append(ChunkDraft(ordinal=len(drafts), …))`
unfoldable pub append_pieces :
    Tools → List Text → Option ℕ → Option ℕ → List Text → List ChunkDraft → List ChunkDraft
unfolding new_draft
append_pieces tools path page slide [] drafts = drafts
append_pieces tools path page slide (piece ∷ pieces) drafts =
    append_pieces tools path page slide pieces
      (drafts ++ new_draft tools (length drafts) path page slide piece ∷ [])

unfoldable pub push_text : Text → ℕ → Assembler → Assembler
push_text body n a = record a { buffer = a.buffer ++ body ∷ []; tokens = a.tokens + n }

-- `block.kind is BlockKind.TABLE and block.table_header`
unfoldable pub is_table : Block → Bool
is_table b = elim b.kind [
  | BlockKind.table ↦ elim b.table_header [ none ↦ false | some h ↦ not (is_empty h) ]
  | _ ↦ false
]

-- `block.slide_index or 0`
abbrev pub slide_key : Block → ℕ
slide_key b = get_or_else b.slide_index 0

-- The blocks of each slide, in the order in which the slides first occur.
unfoldable pub insert_slide : Block → List (ℕ × List Block) → List (ℕ × List Block)
insert_slide b [] = (slide_key b, b ∷ []) ∷ []
insert_slide b ((k, bs) ∷ slides) =
    if k == slide_key b then (k, bs ++ b ∷ []) ∷ slides else (k, bs) ∷ insert_slide b slides

unfoldable pub group_slides : List Block → List (ℕ × List Block) → List (ℕ × List Block)
unfolding insert_slide
group_slides [] slides = slides
group_slides (b ∷ bs) slides = group_slides bs (insert_slide b slides)

abbrev pub nonblank_texts : List Block → List Text
nonblank_texts [] = []
nonblank_texts (b ∷ bs) =
    if is_empty (strip b.text) then nonblank_texts bs else b.text ∷ nonblank_texts bs

abbrev pub first_path : List Block → List Text
first_path [] = []
first_path (b ∷ bs) = if is_empty b.section_path then first_path bs else b.section_path

unfoldable pub slide_content : List Block → Text
unfolding strip join
slide_content bs = strip (join paragraph_break (nonblank_texts bs))

abbrev pub keep_text : List Block → List Block
keep_text [] = []
keep_text (b ∷ bs) = if is_empty (strip b.text) then keep_text bs else b ∷ keep_text bs

module _ (tools : Tools) (config : ChunkingConfig) where
  -- The content as it is, or its sentences when it is over the ceiling.
  unfoldable pub ceiling_parts : Text → List Text
  unfolding sentence_parts
  ceiling_parts content =
      if leb (tools.count_tokens content) config.max_tokens
      then content ∷ []
      else sentence_parts tools content config.max_tokens

  unfoldable pub start : Block → Assembler → Assembler
  start b a =
      let opened = record a {
        section_path = b.section_path;
        page = b.page;
        slide = b.slide_index;
      } in
      let seeded = record opened {
        buffer = a.pending_overlap ∷ [];
        tokens = a.tokens + tools.count_tokens a.pending_overlap;
        pending_overlap = [];
      } in
      if is_empty a.buffer then (if is_empty a.pending_overlap then opened else seeded) else a

  unfoldable pub flush_content : Bool → Text → Assembler → Assembler
  unfolding ceiling_parts append_pieces tail_overlap
  flush_content carry_overlap content a = record a {
    buffer = [];
    tokens = 0;
    drafts = append_pieces tools a.section_path a.page a.slide (ceiling_parts content) a.drafts;
    pending_overlap =
        if carry_overlap then tail_overlap tools content config.overlap_tokens else [];
  }

  unfoldable pub flush : Bool → Assembler → Assembler
  unfolding flush_content join strip
  flush carry_overlap a =
      let content = strip (join paragraph_break a.buffer) in
      if is_empty a.buffer
      then a
      else if is_empty content
      then record a { buffer = []; tokens = 0 }
      else flush_content carry_overlap content a

  unfoldable pub add : Block → Text → Assembler → Assembler
  unfolding flush start push_text strip
  add b body a =
      let n = tools.count_tokens body in
      let full = not (is_empty a.buffer) && ltb config.target_tokens (a.tokens + n) in
      if is_empty (strip body)
      then a
      else push_text body n (start b (if full then flush true a else a))

  unfoldable pub emit_standalone : Block → Text → Assembler → Assembler
  unfolding flush start
  emit_standalone b text a =
      let opened = start b (record (flush false a) { pending_overlap = [] }) in
      flush false
        (record opened { buffer = opened.buffer ++ text ∷ []; tokens = tools.count_tokens text })

  unfoldable pub emit_all : Block → List Text → Assembler → Assembler
  unfolding emit_standalone
  emit_all b [] a = a
  emit_all b (part ∷ parts) a = emit_all b parts (emit_standalone b part a)

  unfoldable pub add_all : Block → List Text → Assembler → Assembler
  unfolding add
  add_all b [] a = a
  add_all b (part ∷ parts) a = add_all b parts (add b part a)

  -- The body of the loop of `chunk_blocks`.
  unfoldable pub chunk_block : Block → Assembler → Assembler
  unfolding is_table emit_all add_all add table_parts procedure_parts sentence_parts
  chunk_block b a =
      let n = tools.count_tokens b.text in
      if is_table b
      then (if ltb config.target_tokens n
          then emit_all b (table_parts tools b config.target_tokens) a
          else add b b.text a)
      else if b.atomic
      then (if ltb config.max_tokens n
          then emit_all b (procedure_parts tools b.text config.max_tokens) a
          else add b b.text a)
      else if ltb config.target_tokens n
      then add_all b (sentence_parts tools b.text config.target_tokens) a
      else add b b.text a

  unfoldable pub chunk_all : List Block → Assembler → Assembler
  unfolding chunk_block
  chunk_all [] a = a
  chunk_all (b ∷ bs) a = chunk_all bs (chunk_block b a)

  unfoldable pub chunk_slide : ℕ × List Block → List ChunkDraft → List ChunkDraft
  unfolding slide_content ceiling_parts append_pieces
  chunk_slide (slide, bs) drafts =
      let content = slide_content bs in
      if is_empty content
      then drafts
      else append_pieces tools (first_path bs) (some slide) (some slide) (ceiling_parts content)
          drafts

  unfoldable pub chunk_slides_from : List (ℕ × List Block) → List ChunkDraft → List ChunkDraft
  unfolding chunk_slide
  chunk_slides_from [] drafts = drafts
  chunk_slides_from (s ∷ slides) drafts = chunk_slides_from slides (chunk_slide s drafts)

  unfoldable pub chunk_slides : List Block → List ChunkDraft
  unfolding chunk_slides_from group_slides
  chunk_slides blocks = chunk_slides_from (group_slides blocks []) []

  unfoldable pub chunk_blocks : List Block → List ChunkDraft
  unfolding chunk_slides chunk_all flush group_numbered_procedures strip
  chunk_blocks blocks =
      let kept = keep_text blocks in
      if is_empty kept
      then []
      else if any (λ b. is_some b.slide_index) kept
      then chunk_slides kept
      else (flush true (chunk_all (group_numbered_procedures tools kept) new_assembler)).drafts
