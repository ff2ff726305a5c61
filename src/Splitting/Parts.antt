-- ===== src/Splitting/Parts.antt =====
-- The parts of a long text: within the limit, or one word that is over it.
use doc_chat_platform.Text.Laws.{is_empty-append_left}
use doc_chat_platform.Splitting.Packing.{Fits, All-pack}
use doc_chat_platform.Base.{
  [], false, inl, inr, refl, arith, List, All, ◌≡◌, is_empty, ℕ, ◌∷◌, ◌∙◌, ◌&&◌, ◌++◌, Bool-cases,
  ◌+◌, All-imp, ltb, All-append,
}
use doc_chat_platform.Text.{Text, split}
use doc_chat_platform.Tokens.{Tools}
use doc_chat_platform.Tokens.Additive.{IsAdditive}
use doc_chat_platform.Splitting.{
  pack_from, pack, word_parts, sentence_units, sentence_parts, sentences, or_whole, space,
}
use doc_chat_platform.Splitting.Sentences.{
  IsWord, is_blank, is_empty-sentences, sentences_nonblank, All-split, is_empty-split,
}

or_whole_lem : (ps : List Text) (t : Text) → is_empty ps ≡ false → or_whole ps t ≡ ps
or_whole_lem [] t h = cc
or_whole_lem (p ∷ ps) t h = refl

module _ (tools : Tools) where
  is_empty-pack_from :
      (limit : ℕ) (separator : Text) (current : List Text) (tokens : ℕ) (units : List Text)
      → is_empty (pack_from tools limit separator current tokens units)
        ≡ is_empty current && is_empty units
  unfolding pack_from
  is_empty-pack_from limit separator [] tokens [] = refl
  is_empty-pack_from limit separator (x ∷ xs) tokens [] = refl
  is_empty-pack_from limit separator [] tokens (unit ∷ units) =
      is_empty-pack_from limit separator (unit ∷ []) _ units
  is_empty-pack_from limit separator (x ∷ xs) tokens (unit ∷ units) =
      let n = tools.count_tokens unit + tools.count_tokens separator in
      elim (Bool-cases (ltb limit (tokens + n))) [
        | inl e ↦ rw e
        | inr e ↦
            rw e (is_empty-pack_from limit separator ((x ∷ xs) ++ unit ∷ []) (tokens + n) units)
      ]

  pub is_empty-pack :
      (units : List Text) (limit : ℕ) (separator : Text)
      → is_empty (pack tools units limit separator) ≡ is_empty units
  unfolding pack
  is_empty-pack units limit separator = is_empty-pack_from limit separator [] 0 units

module _ (tools : Tools) (additive : IsAdditive tools) where
  -- Within the limit, or one unbroken word that is over it.
  abbrev pub FitsOrWord : ℕ → Text → Type 0
  FitsOrWord = Fits tools additive IsWord

  word_parts-Fits :
      (t : Text) (limit : ℕ)
      → is_blank t ≡ false
      → All (FitsOrWord limit) (word_parts tools t limit)
        × (is_empty (word_parts tools t limit) ≡ false)
  unfolding word_parts
  word_parts-Fits t limit h =
      let some_part = is_empty-pack tools (split t) limit space ∙ is_empty-split t ∙ h in
      rw (or_whole_lem (pack tools (split t) limit space) t some_part) (
        All-pack tools additive IsWord (split t) limit space
            (All-imp IsWord (FitsOrWord limit) (split t) (λ w k. inr k) (All-split t)),
        some_part,
      )

  sentence_units-Fits :
      (ss : List Text) (limit : ℕ)
      → All (λ s. is_blank s ≡ false) ss
      → All (FitsOrWord limit) (sentence_units tools ss limit)
        × (is_empty (sentence_units tools ss limit) ≡ is_empty ss)
  unfolding sentence_units
  sentence_units-Fits [] limit h = (tt, refl)
  sentence_units-Fits (s ∷ ss) limit h =
      let rest = sentence_units-Fits ss limit h.1 in
      elim (Bool-cases (ltb limit (tools.count_tokens s))) [
        | inl over ↦ rw over (
            let w = word_parts-Fits s limit h.0 in
            (
              All-append (FitsOrWord limit) (word_parts tools s limit) _ w.0 rest.0,
              is_empty-append_left (word_parts tools s limit) _ w.1,
            ))
        | inr within ↦ rw within ((inl (ground arith), rest.0), refl)
      ]

  -- Splitting a text at its sentences gives parts that are each within the limit, or one unbroken
  -- word that is over it by itself, for every text that is not all white space and a count of
  -- tokens that is additive across joins.
  pub sentence_parts-Fits :
      (t : Text) (limit : ℕ)
      → is_blank t ≡ false
      → All (FitsOrWord limit) (sentence_parts tools t limit)
  unfolding sentence_parts
  sentence_parts-Fits t limit h =
      let found = is_empty-sentences t ∙ h in
      let units = sentence_units-Fits (sentences t) limit (sentences_nonblank t) in
      let packed = pack tools (sentence_units tools (sentences t) limit) limit space in
      let some_part = is_empty-pack tools _ limit space ∙ units.1 ∙ found in
      rw (found, or_whole_lem packed t some_part)
        (All-pack tools additive IsWord (sentence_units tools (sentences t) limit) limit space
          units.0)

is_empty-or_whole : (ps : List Text) (t : Text) → is_empty (or_whole ps t) ≡ false
is_empty-or_whole [] t = refl
is_empty-or_whole (p ∷ ps) t = refl

module _ (tools : Tools) where
  pub is_empty-sentence_units :
      (ss : List Text) (limit : ℕ) → is_empty (sentence_units tools ss limit) ≡ is_empty ss
  unfolding sentence_units word_parts
  is_empty-sentence_units [] limit = refl
  is_empty-sentence_units (s ∷ ss) limit = elim (Bool-cases (ltb limit (tools.count_tokens s))) [
    | inl over ↦ rw over (is_empty-append_left (word_parts tools s limit) _ (is_empty-or_whole _ s))
    | inr within ↦ rw within
  ]
