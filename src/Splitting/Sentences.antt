-- ===== src/Splitting/Sentences.antt =====
-- What the sentences and the words of a text are: nothing but white space is lost between them.
use doc_chat_platform.Text.Laws.{is_empty-strip, all-strip}
use doc_chat_platform.Base.{
  [], none, some, true, false, zero, suc, inl, inr, refl, arith, Bool, List, Option, all, is_empty,
  ℕ, ◌≡◌, All, take, ◌==◌, ◌&&◌, not, ◌∷◌, ◌∙◌, Bool-cases, ==_iff, sym, ◌⊎◌, ap,
}
use doc_chat_platform.Text.{Text, is_space, open_words, split, push_word, strip}
use doc_chat_platform.Splitting.{
  space_run, newline_run, boundary, cons_piece, split_sentences, stripped, sentences,
}

abbrev pub is_blank : Text → Bool
is_blank t = all is_space t

abbrev pub no_space : Text → Bool
no_space t = all (λ c. not (is_space c)) t

-- One unbroken word: a text that no white space divides.
pub record IsWord (t : Text) : Type 0 where
  pub nonempty : is_empty t ≡ false
  pub unbroken : no_space t ≡ true

space_run_blank : (t : Text) → is_blank (take (space_run t) t) ≡ true
unfolding space_run
space_run_blank [] = refl
space_run_blank (c ∷ cs) = ground (arith, space_run_blank cs)

is_space-newline : (c : ℕ) → (c == 10) ≡ true → is_space c ≡ true
unfolding is_space
is_space-newline c h = rw ((==_iff c 10).0 h)

newline_run_blank : (t : Text) → is_blank (take (newline_run t) t) ≡ true
unfolding newline_run
newline_run_blank [] = refl
newline_run_blank (c ∷ cs) = ground (arith, newline_run_blank cs, is_space-newline c)

boundary_cases :
    (prev : Option ℕ) (t : Text)
    → (boundary prev t ≡ space_run t) ⊎ ((boundary prev t ≡ newline_run t) ⊎ (boundary prev t ≡ 0))
unfolding boundary
boundary_cases prev t = ground arith

pub ℕ-cases : (n : ℕ) → (n ≡ zero) ⊎ ((k : ℕ) × (n ≡ suc k))
ℕ-cases zero = inl refl
ℕ-cases (suc k) = inr (k, refl)

-- The characters that a sentence boundary takes are white space.
pub boundary_blank : (prev : Option ℕ) (t : Text) → is_blank (take (boundary prev t) t) ≡ true
boundary_blank prev t = elim (boundary_cases prev t) [
  | inl e ↦ rw e (space_run_blank t)
  | inr (inl e) ↦ rw e (newline_run_blank t)
  | inr (inr e) ↦ rw e
]

all-cons_piece :
    (c : ℕ) (ps : List Text) → all is_blank (cons_piece c ps) ≡ is_space c && all is_blank ps
all-cons_piece c [] = ground arith
all-cons_piece c (p ∷ ps) = ground arith

split_sentences_blank :
    (prev : Option ℕ) (skip : ℕ) (t : Text)
    → is_blank (take skip t) ≡ true
    → all is_blank (split_sentences prev skip t) ≡ is_blank t
unfolding split_sentences
split_sentences_blank prev zero [] h = refl
split_sentences_blank prev (suc skip) [] h = refl
split_sentences_blank prev (suc skip) (c ∷ cs) h =
    ground (arith, split_sentences_blank (some c) skip cs)
split_sentences_blank prev zero (c ∷ cs) h = elim (ℕ-cases (boundary prev (c ∷ cs))) [
  | inl e ↦
      rw (e, split_sentences)
        (all-cons_piece c _ ∙ ap (λ b. is_space c && b) (split_sentences_blank (some c) 0 cs refl))
  | inr (k, e) ↦
      let taken : is_blank (take (suc k) (c ∷ cs)) ≡ true =
        rw e at (boundary_blank prev (c ∷ cs)) in
      rw (e, split_sentences) (ground (arith, taken, split_sentences_blank (some c) k cs))
]

is_empty-stripped : (ts : List Text) → is_empty (stripped ts) ≡ all is_blank ts
unfolding stripped
is_empty-stripped [] = refl
is_empty-stripped (t ∷ ts) = ground (arith, is_empty-strip t, is_empty-stripped ts)

-- A text has a sentence exactly when it is not all white space.
pub is_empty-sentences : (t : Text) → is_empty (sentences t) ≡ is_blank t
unfolding sentences
is_empty-sentences t =
    is_empty-stripped (split_sentences none 0 t) ∙ split_sentences_blank none 0 t refl

stripped_nonblank : (ts : List Text) → All (λ t. is_blank t ≡ false) (stripped ts)
unfolding stripped
stripped_nonblank [] = tt
stripped_nonblank (t ∷ ts) = elim (Bool-cases (is_empty (strip t))) [
  | inl e ↦ rw e (stripped_nonblank ts)
  | inr e ↦ rw e (all-strip t ∙ sym (is_empty-strip t) ∙ e, stripped_nonblank ts)
]

pub sentences_nonblank : (t : Text) → All (λ s. is_blank s ≡ false) (sentences t)
unfolding sentences
sentences_nonblank t = stripped_nonblank (split_sentences none 0 t)

All-push_word :
    (w : Text) (ws : List Text) → no_space w ≡ true → All IsWord ws → All IsWord (push_word w ws)
All-push_word [] ws h k = k
All-push_word (c ∷ w) ws h k = (record { nonempty = refl; unbroken = h }, k)

All-open_words : (t : Text) → (no_space (open_words t).0 ≡ true) × All IsWord (open_words t).1
unfolding open_words
All-open_words [] = (refl, tt)
All-open_words (c ∷ cs) =
    let ih = All-open_words cs in
    elim (Bool-cases (is_space c)) [
      | inl e ↦ rw e (refl, All-push_word (open_words cs).0 (open_words cs).1 ih.0 ih.1)
      | inr e ↦ rw e (ground arith, ih.1)
    ]

-- `split` gives unbroken words.
pub All-split : (t : Text) → All IsWord (split t)
unfolding split
All-split t = let h = All-open_words t in All-push_word (open_words t).0 (open_words t).1 h.0 h.1

is_empty-push_word :
    (w : Text) (ws : List Text) → is_empty (push_word w ws) ≡ is_empty w && is_empty ws
is_empty-push_word [] ws = refl
is_empty-push_word (c ∷ w) ws = refl

is_empty-open_words :
    (t : Text) → is_empty (open_words t).0 && is_empty (open_words t).1 ≡ is_blank t
unfolding open_words
is_empty-open_words [] = refl
is_empty-open_words (c ∷ cs) =
    ground (arith, is_empty-open_words cs, is_empty-push_word (open_words cs).0 (open_words cs).1)

pub is_empty-split : (t : Text) → is_empty (split t) ≡ is_blank t
unfolding split
is_empty-split t = is_empty-push_word (open_words t).0 (open_words t).1 ∙ is_empty-open_words t
