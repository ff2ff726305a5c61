-- ===== src/Splitting/Content.antt =====
-- The parts of a text hold all of it: splitting at sentences, words, lines and steps, and packing,
-- keep every character but white space, in its order.
use doc_chat_platform.Sql.{delete_where}
use doc_chat_platform.Tokens.{Tools}
use doc_chat_platform.Text.{
  Text, join, open_words, splitlines, is_line_break, split, is_space, push_word, cons_first,
  opens_with,
}
use doc_chat_platform.Text.Squeezing.{squeeze, gather, gather-append, squeeze-append}
use doc_chat_platform.Splitting.{pack_from, pack}
use doc_chat_platform.Base.{
  ◌∷◌, [], true, inl, inr, refl, arith, List, ◌≡◌, ℕ, ◌++◌, Bool-cases, append-nil, ap, sym, ◌==◌,
  ◌∙◌, ◌+◌, ◌&&◌, not, append_assoc, is_empty, ltb,
}

pub gather-one : (t : Text) → gather (t ∷ []) ≡ squeeze t
gather-one t = append-nil (squeeze t)

pub squeeze-join_by :
    (sep : Text) (ts : List Text) → squeeze sep ≡ [] → squeeze (join sep ts) ≡ gather ts
unfolding join delete_where
squeeze-join_by sep [] h = refl
squeeze-join_by sep (t ∷ []) h = sym (append-nil (squeeze t))
squeeze-join_by sep (t ∷ u ∷ ts) h =
    squeeze-append t (sep ++ join sep (u ∷ ts))
    ∙ ap (◌++◌ (squeeze t)) (
        squeeze-append sep (join sep (u ∷ ts))
        ∙ ap (λ r. r ++ squeeze (join sep (u ∷ ts))) h
        ∙ squeeze-join_by sep (u ∷ ts) h)

pub gather-push :
    (current : List Text) (t : Text) (ts : List Text)
    → gather (current ++ t ∷ []) ++ gather ts ≡ gather current ++ gather (t ∷ ts)
gather-push current t ts =
    ap (λ r. r ++ gather ts)
      (gather-append current (t ∷ []) ∙ ap (◌++◌ (gather current)) (gather-one t))
    ∙ append_assoc (gather current) (squeeze t) (gather ts)

module _ (tools : Tools) where
  gather-pack_from :
      (limit : ℕ) (sep : Text) (current : List Text) (tokens : ℕ) (units : List Text)
      → squeeze sep ≡ []
      → gather (pack_from tools limit sep current tokens units) ≡ gather current ++ gather units
  unfolding pack_from
  gather-pack_from limit sep [] tokens [] h = refl
  gather-pack_from limit sep (c ∷ cs) tokens [] h =
      gather-one (join sep (c ∷ cs)) ∙ squeeze-join_by sep (c ∷ cs) h ∙ sym (append-nil _)
  gather-pack_from limit sep current tokens (unit ∷ units) h =
      let n = tools.count_tokens unit + tools.count_tokens sep in
      elim (Bool-cases (not (is_empty current) && ltb limit (tokens + n))) [
        | inl e ↦ rw e (
            ap (λ r. r ++ gather (pack_from tools limit sep (unit ∷ []) n units))
              (squeeze-join_by sep current h)
            ∙ ap (◌++◌ (gather current)) (
                gather-pack_from limit sep (unit ∷ []) n units h
                ∙ ap (λ r. r ++ gather units) (gather-one unit)))
        | inr e ↦ rw e (
            gather-pack_from limit sep (current ++ unit ∷ []) (tokens + n) units h
            ∙ gather-push current unit units)
      ]

  pub gather-pack :
      (units : List Text) (limit : ℕ) (sep : Text)
      → squeeze sep ≡ []
      → gather (pack tools units limit sep) ≡ gather units
  unfolding pack
  gather-pack units limit sep h = gather-pack_from limit sep [] 0 units h

-- Words
gather-push_word : (w : Text) (ws : List Text) → gather (push_word w ws) ≡ squeeze w ++ gather ws
unfolding delete_where
gather-push_word [] ws = refl
gather-push_word (c ∷ w) ws = refl

gather-open_words : (t : Text) → squeeze (open_words t).0 ++ gather (open_words t).1 ≡ squeeze t
unfolding open_words delete_where
gather-open_words [] = refl
gather-open_words (c ∷ cs) = elim (Bool-cases (is_space c)) [
  | inl e ↦ rw e (gather-push_word (open_words cs).0 (open_words cs).1 ∙ gather-open_words cs)
  | inr e ↦ rw (e, e) (ap (◌∷◌ c) (gather-open_words cs))
]

pub gather-split : (t : Text) → gather (split t) ≡ squeeze t
unfolding split
gather-split t = gather-push_word (open_words t).0 (open_words t).1 ∙ gather-open_words t

-- Lines
gather-cons_first :
    (c : ℕ) (ts : List Text) → gather (cons_first c ts) ≡ squeeze (c ∷ []) ++ gather ts
unfolding delete_where
gather-cons_first c [] = refl
gather-cons_first c (t ∷ ts) = elim (Bool-cases (is_space c)) [
  | inl e ↦ rw e refl
  | inr e ↦ rw e refl
]

line_break-white : (c : ℕ) → is_line_break c ≡ true → is_space c ≡ true
unfolding is_line_break is_space
line_break-white c h = ground arith

squeeze-white : (c : ℕ) (t : Text) → is_space c ≡ true → squeeze (c ∷ t) ≡ squeeze t
unfolding delete_where
squeeze-white c t e = rw e refl

return-white : (c : ℕ) (t : Text) → (c == 13 && opens_with 10 t) ≡ true → is_space c ≡ true
unfolding is_space
return-white c t h = ground arith

pub gather-splitlines : (t : Text) → gather (splitlines t) ≡ squeeze t
unfolding splitlines delete_where
gather-splitlines [] = refl
gather-splitlines (c ∷ cs) = elim (Bool-cases (c == 13 && opens_with 10 cs)) [
  | inl e ↦ rw e (gather-splitlines cs ∙ sym (squeeze-white c cs (return-white c cs e)))
  | inr e ↦ elim (Bool-cases (is_line_break c)) [
    | inl f ↦ rw (e, f) (gather-splitlines cs ∙ sym (squeeze-white c cs (line_break-white c f)))
    | inr f ↦
        rw (e, f)
          (gather-cons_first c (splitlines cs)
            ∙ ap (◌++◌ (squeeze (c ∷ []))) (gather-splitlines cs)
            ∙ sym (squeeze-append (c ∷ []) cs))
  ]
]
