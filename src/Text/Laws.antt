-- ===== src/Text/Laws.antt =====
-- Laws of the text operations.
use doc_chat_platform.Base.{
  ◌≡◌, refl, ◌∙◌, true, false, List, [], ◌∷◌, ◌++◌, arith, ==_refl, is_empty, all, append_assoc, ap,
  append-nil, sym,
}
use doc_chat_platform.Text.{Text, is_space, lstrip, rstrip, strip, join, text_eq}

pub text_eq_refl : (t : Text) → text_eq t t ≡ true
unfolding text_eq
text_eq_refl [] = refl
text_eq_refl (c ∷ t) = ground (arith, ==_refl c, text_eq_refl t)

pub text_eq→eq : (t u : Text) → text_eq t u ≡ true → t ≡ u
unfolding text_eq
text_eq→eq [] [] h = refl
text_eq→eq [] (d ∷ u) h = cc
text_eq→eq (c ∷ t) [] h = cc
text_eq→eq (c ∷ t) (d ∷ u) h = ground (arith, text_eq→eq t u)

pub is_empty-rstrip : (t : Text) → is_empty (rstrip t) ≡ all is_space t
unfolding rstrip
is_empty-rstrip [] = refl
is_empty-rstrip (c ∷ cs) = ground (arith, is_empty-rstrip cs)

all-rstrip : (t : Text) → all is_space (rstrip t) ≡ all is_space t
unfolding rstrip
all-rstrip [] = refl
all-rstrip (c ∷ cs) = ground (arith, all-rstrip cs, is_empty-rstrip cs)

is_empty-lstrip : (t : Text) → is_empty (lstrip t) ≡ all is_space t
unfolding lstrip
is_empty-lstrip [] = refl
is_empty-lstrip (c ∷ cs) = ground (arith, is_empty-lstrip cs)

-- A text strips to nothing exactly when it is all white space.
pub is_empty-strip : (t : Text) → is_empty (strip t) ≡ all is_space t
unfolding strip
is_empty-strip t = is_empty-lstrip (rstrip t) ∙ all-rstrip t

all-lstrip : (t : Text) → all is_space (lstrip t) ≡ all is_space t
unfolding lstrip
all-lstrip [] = refl
all-lstrip (c ∷ cs) = ground (arith, all-lstrip cs)

pub all-strip : (t : Text) → all is_space (strip t) ≡ all is_space t
unfolding strip
all-strip t = all-lstrip (rstrip t) ∙ all-rstrip t

pub join-cons :
    (sep x : Text) (xs : List Text)
    → is_empty xs ≡ false
    → join sep (x ∷ xs) ≡ x ++ (sep ++ join sep xs)
unfolding join
join-cons sep x [] h = cc
join-cons sep x (y ∷ r) h = refl

pub join-append :
    (sep : Text) (xs ys : List Text)
    → is_empty xs ≡ false
    → is_empty ys ≡ false
    → join sep (xs ++ ys) ≡ join sep xs ++ (sep ++ join sep ys)
unfolding join
join-append sep [] ys h k = cc
join-append sep (x ∷ []) ys h k = join-cons sep x ys k
join-append sep (x ∷ y ∷ r) ys h k = rw (join-append sep (y ∷ r) ys refl k) (simp append_assoc)

pub is_empty-append_right {ℓ} :
    {A : Type ℓ} (xs ys : List A) → is_empty ys ≡ false → is_empty (xs ++ ys) ≡ false
is_empty-append_right [] ys h = h
is_empty-append_right (x ∷ xs) ys h = refl

pub is_empty-append_left {ℓ} :
    {A : Type ℓ} (xs ys : List A) → is_empty xs ≡ false → is_empty (xs ++ ys) ≡ false
is_empty-append_left [] ys h = cc
is_empty-append_left (x ∷ xs) ys h = refl

join-group :
    (sep : Text) (g ys : List Text)
    → is_empty g ≡ false
    → join sep (join sep g ∷ ys) ≡ join sep (g ++ ys)
join-group sep g [] h = unfold join in rw append-nil
join-group sep g (y ∷ r) h =
    join-cons sep (join sep g) (y ∷ r) refl ∙ sym (join-append sep g (y ∷ r) h refl)

-- In a join, members that are joined among themselves first make no difference.
pub join-merge :
    (sep : Text) (xs g ys : List Text)
    → is_empty g ≡ false
    → join sep (xs ++ (join sep g ∷ ys)) ≡ join sep (xs ++ (g ++ ys))
join-merge sep [] g ys h = join-group sep g ys h
join-merge sep (x ∷ xs) g ys h =
    join-cons sep x _ (is_empty-append_right xs (join sep g ∷ ys) refl)
    ∙ ap (λ t. x ++ (sep ++ t)) (join-merge sep xs g ys h)
    ∙ sym (join-cons sep x _ (is_empty-append_right xs (g ++ ys) (is_empty-append_left g ys h)))
