-- ===== src/Splitting/Kept.antt =====
-- What the parts of a table and of a procedure are: the marks that they carry, and all of the text.
use doc_chat_platform.Procedures.{
  newline, split_steps, split_steps_from, keep_nonblank, step_number,
}
use doc_chat_platform.Splitting.{
  sentence_parts, space, stripped, split_sentences, cons_piece, or_whole, word_parts, sentences,
  step_units, sentence_units, pack, boundary,
}
use doc_chat_platform.Text.{is_space, Text, splitlines, strip, rstrip, split, join}
use doc_chat_platform.Tokens.{Tools}
use doc_chat_platform.Sql.{delete_where}
use doc_chat_platform.Splitting.Content.{
  gather-pack, gather-one, gather-push, squeeze-join_by, gather-split, gather-splitlines,
}
use doc_chat_platform.Text.Squeezing.{
  squeeze, gather, squeeze-strip, squeeze-blank, squeeze-append, gather-append, squeeze-rstrip,
}
use doc_chat_platform.Splitting.Sentences.{boundary_blank, ℕ-cases, is_blank}
use doc_chat_platform.Base.{
  ◌∷◌, [], none, some, true, false, zero, suc, inl, inr, refl, arith, Bool, List, Option, ℕ, ◌≡◌,
  if◌then◌else◌, take, if_ind, ◌++◌, Bool-cases, ◌∙◌, is_empty, drop, ltb, ap, sym, append-nil,
  is_some, ◌&&◌, not,
}

drop-white : (n : ℕ) (t : Text) → is_blank (take n t) ≡ true → squeeze (drop n t) ≡ squeeze t
unfolding delete_where
drop-white zero t h = refl
drop-white (suc n) [] h = refl
drop-white (suc n) (c ∷ cs) h = elim (Bool-cases (is_space c)) [
  | inl e ↦ rw e (drop-white n cs (ground (arith, h, e)))
  | inr e ↦ absurd (cc (rw e at h))
]

gather-cons_piece :
    (c : ℕ) (ts : List Text) → gather (cons_piece c ts) ≡ squeeze (c ∷ []) ++ gather ts
unfolding delete_where
gather-cons_piece c [] = refl
gather-cons_piece c (t ∷ ts) = elim (Bool-cases (is_space c)) [
  | inl e ↦ rw e refl
  | inr e ↦ rw e refl
]

gather-split_sentences :
    (prev : Option ℕ) (skip : ℕ) (t : Text)
    → gather (split_sentences prev skip t) ≡ squeeze (drop skip t)
unfolding split_sentences delete_where
gather-split_sentences prev zero [] = refl
gather-split_sentences prev (suc skip) [] = refl
gather-split_sentences prev (suc skip) (c ∷ cs) = gather-split_sentences (some c) skip cs
gather-split_sentences prev zero (c ∷ cs) = elim (ℕ-cases (boundary prev (c ∷ cs))) [
  | inl e ↦
      rw (e, split_sentences)
        (gather-cons_piece c _
          ∙ ap (◌++◌ (squeeze (c ∷ []))) (gather-split_sentences (some c) 0 cs)
          ∙ sym (squeeze-append (c ∷ []) cs))
  | inr (k, e) ↦
      rw (e, split_sentences)
        (gather-split_sentences (some c) k cs
          ∙ drop-white (suc k) (c ∷ cs) (rw e at (boundary_blank prev (c ∷ cs))))
]

gather-stripped : (ts : List Text) → gather (stripped ts) ≡ gather ts
unfolding stripped
gather-stripped [] = refl
gather-stripped (t ∷ ts) = elim (Bool-cases (is_empty (strip t))) [
  | inl e ↦ rw e (gather-stripped ts ∙ ap (λ r. r ++ gather ts) (sym (squeeze-blank t e)))
  | inr e ↦ rw e (
      ap (◌++◌ (squeeze (strip t))) (gather-stripped ts)
      ∙ ap (λ r. r ++ gather ts) (squeeze-strip t))
]

gather-sentences : (t : Text) → gather (sentences t) ≡ squeeze t
unfolding sentences
gather-sentences t = gather-stripped (split_sentences none 0 t) ∙ gather-split_sentences none 0 t

pub gather-or_whole :
    (ts : List Text) (t : Text) → gather ts ≡ squeeze t → gather (or_whole ts t) ≡ squeeze t
gather-or_whole [] t h = gather-one t
gather-or_whole (p ∷ ps) t h = h

space-white : squeeze space ≡ []
unfolding is_space delete_where
space-white = refl

pub newline-white : squeeze newline ≡ []
unfolding is_space delete_where
newline-white = refl

module _ (tools : Tools) where
  gather-word_parts : (t : Text) (limit : ℕ) → gather (word_parts tools t limit) ≡ squeeze t
  unfolding word_parts
  gather-word_parts t limit =
      gather-or_whole (pack tools (split t) limit space) t
        (gather-pack tools (split t) limit space space-white ∙ gather-split t)

  gather-unit :
      (b : Bool) (t : Text) (ts : List Text)
      → gather ts ≡ squeeze t
      → gather (if b then ts else t ∷ []) ≡ squeeze t
  gather-unit true t ts h = h
  gather-unit false t ts h = gather-one t

  pub gather-sentence_units :
      (ss : List Text) (limit : ℕ) → gather (sentence_units tools ss limit) ≡ gather ss
  unfolding sentence_units
  gather-sentence_units [] limit = refl
  gather-sentence_units (s ∷ ss) limit =
      gather-append (if ltb limit (tools.count_tokens s) then word_parts tools s limit else s ∷ [])
        _
      ∙ ap (λ r. r ++ gather (sentence_units tools ss limit))
          (gather-unit (ltb limit (tools.count_tokens s)) s _ (gather-word_parts s limit))
      ∙ ap (◌++◌ (squeeze s)) (gather-sentence_units ss limit)

  pub gather-sentence_parts :
      (t : Text) (limit : ℕ) → gather (sentence_parts tools t limit) ≡ squeeze t
  unfolding sentence_parts
  gather-sentence_parts t limit =
      if_ind (λ ps. gather ps ≡ squeeze t) (is_empty (sentences t)) (λ _. gather-one t)
        (λ _. gather-or_whole _ t (
          gather-pack tools (sentence_units tools (sentences t) limit) limit space space-white
          ∙ gather-sentence_units (sentences t) limit
          ∙ gather-sentences t))

  pub gather-step_units :
      (ss : List Text) (budget : ℕ) → gather (step_units tools ss budget) ≡ gather ss
  unfolding step_units
  gather-step_units [] budget = refl
  gather-step_units (s ∷ ss) budget =
      gather-append
        (if ltb budget (tools.count_tokens s) then sentence_parts tools s budget else s ∷ []) _
      ∙ ap (λ r. r ++ gather (step_units tools ss budget))
          (gather-unit (ltb budget (tools.count_tokens s)) s _ (gather-sentence_parts s budget))
      ∙ ap (◌++◌ (squeeze s)) (gather-step_units ss budget)

  gather-split_steps_from :
      (current lines : List Text)
      → gather (split_steps_from tools current lines) ≡ gather current ++ gather lines
  unfolding split_steps_from
  gather-split_steps_from [] [] = refl
  gather-split_steps_from (c ∷ cs) [] =
      gather-one (rstrip (join newline (c ∷ cs)))
      ∙ squeeze-rstrip (join newline (c ∷ cs))
      ∙ squeeze-join_by newline (c ∷ cs) newline-white
      ∙ sym (append-nil _)
  gather-split_steps_from current (line ∷ lines) =
      elim (Bool-cases (is_some (step_number tools line) && not (is_empty current))) [
        | inl e ↦ rw e (
            ap (λ r. r ++ gather (split_steps_from tools (line ∷ []) lines))
              (squeeze-rstrip (join newline current)
                ∙ squeeze-join_by newline current newline-white)
            ∙ ap (◌++◌ (gather current)) (
                gather-split_steps_from (line ∷ []) lines
                ∙ ap (λ r. r ++ gather lines) (gather-one line)))
        | inr e ↦
            rw e (
              gather-split_steps_from (current ++ line ∷ []) lines ∙ gather-push current line lines)
      ]

  gather-keep_nonblank : (ts : List Text) → gather (keep_nonblank ts) ≡ gather ts
  gather-keep_nonblank [] = refl
  gather-keep_nonblank (t ∷ ts) = elim (Bool-cases (is_empty (strip t))) [
    | inl e ↦ rw e (gather-keep_nonblank ts ∙ ap (λ r. r ++ gather ts) (sym (squeeze-blank t e)))
    | inr e ↦ rw e (ap (◌++◌ (squeeze t)) (gather-keep_nonblank ts))
  ]

  pub gather-split_steps : (t : Text) → gather (split_steps tools t) ≡ squeeze t
  unfolding split_steps
  gather-split_steps t =
      gather-keep_nonblank (split_steps_from tools [] (splitlines t))
      ∙ gather-split_steps_from [] (splitlines t)
      ∙ gather-splitlines t
