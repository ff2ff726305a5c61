-- ===== src/Text/Squeezing.antt =====
-- A text without its white space, which stripping and joining with line ends keep.
use doc_chat_platform.Text.{Text, is_space, lstrip, rstrip, strip, join}
use doc_chat_platform.Sql.{delete_where}
use doc_chat_platform.Base.{
  [], ◌∷◌, ◌++◌, List, ℕ, ◌≡◌, refl, ap, if◌then◌else◌, true, Bool-cases, inl, inr, sym, is_empty,
  ◌∙◌, ◌&&◌, append_assoc, append-nil,
}

abbrev pub squeeze : Text → Text
squeeze t = delete_where is_space t

abbrev pub gather : List Text → Text
gather [] = []
gather (t ∷ ts) = squeeze t ++ gather ts

pub squeeze-append : (t u : Text) → squeeze (t ++ u) ≡ squeeze t ++ squeeze u
unfolding delete_where
squeeze-append [] u = refl
squeeze-append (c ∷ t) u = elim (Bool-cases (is_space c)) [
  | inl e ↦ rw e (squeeze-append t u)
  | inr e ↦ rw e (ap (◌∷◌ c) (squeeze-append t u))
]

pub squeeze-lstrip : (t : Text) → squeeze (lstrip t) ≡ squeeze t
unfolding delete_where lstrip
squeeze-lstrip [] = refl
squeeze-lstrip (c ∷ t) = elim (Bool-cases (is_space c)) [
  | inl e ↦ rw e (squeeze-lstrip t)
  | inr e ↦ rw (e, e) refl
]

rstrip_step :
    (c : ℕ) (rest : Text)
    → squeeze (if is_empty rest && is_space c then [] else c ∷ rest) ≡ squeeze (c ∷ rest)
unfolding delete_where
rstrip_step c [] = elim (Bool-cases (is_space c)) [ inl e ↦ rw e refl | inr e ↦ rw (e, e) refl ]
rstrip_step c (d ∷ ds) = refl

squeeze-cons : (c : ℕ) (t u : Text) → squeeze t ≡ squeeze u → squeeze (c ∷ t) ≡ squeeze (c ∷ u)
unfolding delete_where
squeeze-cons c t u h = ap (λ r. if is_space c then r else c ∷ r) h

pub squeeze-rstrip : (t : Text) → squeeze (rstrip t) ≡ squeeze t
unfolding rstrip
squeeze-rstrip [] = refl
squeeze-rstrip (c ∷ t) = rstrip_step c (rstrip t) ∙ squeeze-cons c (rstrip t) t (squeeze-rstrip t)

pub squeeze-strip : (t : Text) → squeeze (strip t) ≡ squeeze t
unfolding strip
squeeze-strip t = squeeze-lstrip (rstrip t) ∙ squeeze-rstrip t

pub squeeze-blank : (t : Text) → is_empty (strip t) ≡ true → squeeze t ≡ []
unfolding delete_where
squeeze-blank t h = sym (squeeze-strip t) ∙ of_empty (strip t) h
  where
    of_empty : (u : Text) → is_empty u ≡ true → squeeze u ≡ []
    of_empty [] h = refl
    of_empty (c ∷ u) h = cc

pub squeeze-join : (ts : List Text) → squeeze (join (10 ∷ []) ts) ≡ gather ts
unfolding join is_space delete_where
squeeze-join [] = refl
squeeze-join (t ∷ []) = sym (append-nil (squeeze t))
squeeze-join (t ∷ u ∷ ts) =
    squeeze-append t (10 ∷ join (10 ∷ []) (u ∷ ts)) ∙ ap (◌++◌ (squeeze t)) (squeeze-join (u ∷ ts))

pub gather-append : (ts us : List Text) → gather (ts ++ us) ≡ gather ts ++ gather us
gather-append [] us = refl
gather-append (t ∷ ts) us =
    ap (◌++◌ (squeeze t)) (gather-append ts us)
    ∙ sym (append_assoc (squeeze t) (gather ts) (gather us))
