-- ===== src/Chunking/Sizes.antt =====
-- Every chunk stays below the ceiling of the embedder, and the chunks are numbered in order.
use doc_chat_platform.Splitting.Parts.{FitsOrWord, sentence_parts-Fits}
use doc_chat_platform.Text.Laws.{all-strip, is_empty-strip}
use doc_chat_platform.Splitting.Sentences.{is_blank}
use doc_chat_platform.Base.{
  [], false, suc, inl, inr, refl, arith, Bool, List, Option, ◌∷◌, ℕ, ◌≡◌, is_empty, All, ◌+◌,
  Bool-cases, length, ◌∙◌, sym, leb, ◌++◌, leb→le, All-append, some, true, if_ind, any, ltb, not,
  is_some, ◌&&◌,
}
use doc_chat_platform.Text.{Text, strip, join}
use doc_chat_platform.Models.{Block, ChunkDraft}
use doc_chat_platform.Tokens.{Tools}
use doc_chat_platform.Tokens.Additive.{IsAdditive}
use doc_chat_platform.Procedures.{group_numbered_procedures}
use doc_chat_platform.Splitting.{sentence_parts, table_parts, procedure_parts}
use doc_chat_platform.Chunking.{
  ChunkingConfig, Assembler, new_assembler, new_draft, append_pieces, ceiling_parts, start,
  push_text, flush, add, emit_standalone, emit_all, add_all, is_table, chunk_block, chunk_all,
  slide_content, chunk_slide, chunk_slides_from, group_slides, keep_text, chunk_blocks,
  paragraph_break, first_path, nonblank_texts,
}

-- Ordinals count up from `n`.
abbrev pub NumberedFrom : ℕ → List ChunkDraft → Type 0
NumberedFrom n [] = Unit
NumberedFrom n (d ∷ ds) = (d.ordinal ≡ n) × NumberedFrom (suc n) ds

NumberedFrom-snoc :
    (n : ℕ) (ds : List ChunkDraft) (d : ChunkDraft)
    → NumberedFrom n ds
    → d.ordinal ≡ n + length ds
    → NumberedFrom n (ds ++ d ∷ [])
NumberedFrom-snoc n [] d h e = (omega arith, tt)
NumberedFrom-snoc n (x ∷ xs) d h e = (h.0, NumberedFrom-snoc (suc n) xs d h.1 (omega arith))

module _ (tools : Tools) (additive : IsAdditive tools) (config : ChunkingConfig) where
  -- The count of a chunk is that of its content, which is within the ceiling or one unbroken word.
  pub record IsChunk (d : ChunkDraft) : Type 0 where
    pub counted : d.token_count ≡ tools.count_tokens d.content
    pub fits : FitsOrWord tools additive config.max_tokens d.content

  pub record AreChunks (ds : List ChunkDraft) : Type 0 where
    pub each : All IsChunk ds
    pub numbered : NumberedFrom 0 ds

  append_pieces-AreChunks :
      (path : List Text) (page slide : Option ℕ) (pieces : List Text) (ds : List ChunkDraft)
      → All (FitsOrWord tools additive config.max_tokens) pieces
      → AreChunks ds
      → AreChunks (append_pieces tools path page slide pieces ds)
  unfolding append_pieces
  append_pieces-AreChunks path page slide [] ds f h = h
  append_pieces-AreChunks path page slide (piece ∷ pieces) ds f h =
      let d = new_draft tools (length ds) path page slide piece in
      append_pieces-AreChunks path page slide pieces (ds ++ d ∷ []) f.1 (record {
        each = All-append IsChunk ds (d ∷ []) h.each (record { counted = refl; fits = f.0 }, tt);
        numbered = NumberedFrom-snoc 0 ds d h.numbered (omega arith);
      })

  ceiling_parts-Fits :
      (content : Text)
      → is_blank content ≡ false
      → All (FitsOrWord tools additive config.max_tokens) (ceiling_parts tools config content)
  unfolding ceiling_parts
  ceiling_parts-Fits content h =
      elim (Bool-cases (leb (tools.count_tokens content) config.max_tokens)) [
        | inl e ↦ rw e (inl (leb→le _ _ e), tt)
        | inr e ↦ rw e (sentence_parts-Fits tools additive content config.max_tokens h)
      ]

  -- A stripped text that is not empty is not all white space.
  strip_nonblank : (t : Text) → is_empty (strip t) ≡ false → is_blank (strip t) ≡ false
  strip_nonblank t h = all-strip t ∙ sym (is_empty-strip t) ∙ h

  -- The chunks that an assembler has put out so far.
  record IsAssembled (a : Assembler) : Type 0 where
    chunks : AreChunks a.drafts

  flush-IsAssembled :
      (carry : Bool) (a : Assembler) → IsAssembled a → IsAssembled (flush tools config carry a)
  unfolding flush
  flush-IsAssembled carry a h =
      if_ind IsAssembled (is_empty a.buffer) (λ _. h)
        (λ _.
          if_ind IsAssembled (is_empty (strip (join paragraph_break a.buffer)))
            (λ _. record { chunks = h.chunks })
            (λ e. record {
              chunks =
                  append_pieces-AreChunks a.section_path a.page a.slide _ a.drafts
                    (ceiling_parts-Fits _ (strip_nonblank (join paragraph_break a.buffer) e))
                    h.chunks;
            }))

  drafts-start : (b : Block) (a : Assembler) → (start tools config b a).drafts ≡ a.drafts
  unfolding start
  drafts-start b a = ground arith

  push-IsAssembled :
      (b : Block) (body : Text) (a : Assembler)
      → IsAssembled a
      → IsAssembled (push_text body (tools.count_tokens body) (start tools config b a))
  unfolding push_text
  push-IsAssembled b body a h = record { chunks = rw (drafts-start b a) h.chunks }

  add-IsAssembled :
      (b : Block) (body : Text) (a : Assembler)
      → IsAssembled a
      → IsAssembled (add tools config b body a)
  unfolding add
  add-IsAssembled b body a h =
      let n = tools.count_tokens body in
      if_ind IsAssembled (is_empty (strip body)) (λ _. h)
        (λ _. push-IsAssembled b body _ (
          if_ind IsAssembled (not (is_empty a.buffer) && ltb config.target_tokens (a.tokens + n))
            (λ _. flush-IsAssembled true a h) (λ _. h)))

  emit_standalone-IsAssembled :
      (b : Block) (t : Text) (a : Assembler)
      → IsAssembled a
      → IsAssembled (emit_standalone tools config b t a)
  unfolding emit_standalone
  emit_standalone-IsAssembled b t a h =
      let cleared = record (flush tools config false a) { pending_overlap = [] } in
      let opened = start tools config b cleared in
      flush-IsAssembled false
        (record opened { buffer = opened.buffer ++ t ∷ []; tokens = tools.count_tokens t })
        (record { chunks = rw (drafts-start b cleared) (flush-IsAssembled false a h).chunks })

  emit_all-IsAssembled :
      (b : Block) (parts : List Text) (a : Assembler)
      → IsAssembled a
      → IsAssembled (emit_all tools config b parts a)
  unfolding emit_all
  emit_all-IsAssembled b [] a h = h
  emit_all-IsAssembled b (part ∷ parts) a h =
      emit_all-IsAssembled b parts _ (emit_standalone-IsAssembled b part a h)

  add_all-IsAssembled :
      (b : Block) (parts : List Text) (a : Assembler)
      → IsAssembled a
      → IsAssembled (add_all tools config b parts a)
  unfolding add_all
  add_all-IsAssembled b [] a h = h
  add_all-IsAssembled b (part ∷ parts) a h =
      add_all-IsAssembled b parts _ (add-IsAssembled b part a h)

  chunk_block-IsAssembled :
      (b : Block) (a : Assembler) → IsAssembled a → IsAssembled (chunk_block tools config b a)
  unfolding chunk_block
  chunk_block-IsAssembled b a h =
      let n = tools.count_tokens b.text in
      let whole = add-IsAssembled b b.text a h in
      let target = config.target_tokens in
      if_ind IsAssembled (is_table b)
        (λ _.
          if_ind IsAssembled (ltb target n)
            (λ _. emit_all-IsAssembled b (table_parts tools b target) a h) (λ _. whole))
        (λ _.
          if_ind IsAssembled b.atomic
            (λ _.
              if_ind IsAssembled (ltb config.max_tokens n)
                (λ _. emit_all-IsAssembled b (procedure_parts tools b.text config.max_tokens) a h)
                (λ _. whole))
            (λ _.
              if_ind IsAssembled (ltb target n)
                (λ _. add_all-IsAssembled b (sentence_parts tools b.text target) a h) (λ _. whole)))

  chunk_all-IsAssembled :
      (bs : List Block) (a : Assembler) → IsAssembled a → IsAssembled (chunk_all tools config bs a)
  unfolding chunk_all
  chunk_all-IsAssembled [] a h = h
  chunk_all-IsAssembled (b ∷ bs) a h = chunk_all-IsAssembled bs _ (chunk_block-IsAssembled b a h)

  chunk_slide-AreChunks :
      (s : ℕ × List Block) (ds : List ChunkDraft)
      → AreChunks ds
      → AreChunks (chunk_slide tools config s ds)
  unfolding chunk_slide
  chunk_slide-AreChunks (slide, bs) ds h =
      if_ind AreChunks (is_empty (slide_content bs)) (λ _. h)
        (λ e.
          append_pieces-AreChunks (first_path bs) (some slide) (some slide) _ ds
            (ceiling_parts-Fits _ (strip_nonblank (join paragraph_break (nonblank_texts bs)) e)) h)

  chunk_slides_from-AreChunks :
      (slides : List (ℕ × List Block)) (ds : List ChunkDraft)
      → AreChunks ds
      → AreChunks (chunk_slides_from tools config slides ds)
  unfolding chunk_slides_from
  chunk_slides_from-AreChunks [] ds h = h
  chunk_slides_from-AreChunks (s ∷ slides) ds h =
      chunk_slides_from-AreChunks slides _ (chunk_slide-AreChunks s ds h)

  -- Whatever the blocks of a document are, slides or not, for a count of tokens that is additive
  -- across joins: the chunks are numbered 0, 1, 2, … in their order, each carries the token count
  -- of its content, and each content is within the embedder's ceiling, unless it is one unbroken
  -- word that is over the ceiling by itself.
  pub chunk_blocks-AreChunks : (blocks : List Block) → AreChunks (chunk_blocks tools config blocks)
  unfolding chunk_blocks
  chunk_blocks-AreChunks blocks =
      let none_yet : AreChunks [] = record { each = tt; numbered = tt } in
      if_ind AreChunks (is_empty (keep_text blocks)) (λ _. none_yet)
        (λ _.
          if_ind AreChunks (any (λ b. is_some b.slide_index) (keep_text blocks))
            (λ _. chunk_slides_from-AreChunks (group_slides (keep_text blocks) []) [] none_yet)
            (λ _.
              (flush-IsAssembled true _ (
                chunk_all-IsAssembled (group_numbered_procedures tools (keep_text blocks))
                  new_assembler (record { chunks = none_yet }))).chunks))
