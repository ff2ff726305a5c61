-- ===== src/Sql/Sorting.antt =====
-- ORDER BY several keys or in descending order: sorting by a test that tells whether a row stands
-- before another.
use doc_chat_platform.Base.{
  [], true, false, zero, suc, Bool, List, ◌≡◌, ◌∷◌, All, ℕ, take, if◌then◌else◌, if_ind,
}

module _ {ℓ} {A : Type ℓ} (before : A → A → Bool) where
  unfoldable pub insert_with : A → List A → List A
  insert_with x [] = x ∷ []
  insert_with x (y ∷ ys) = if before y x then y ∷ insert_with x ys else x ∷ y ∷ ys

  -- Rows of which neither stands before the other are swapped.
  unfoldable pub sort_with : List A → List A
  unfolding insert_with
  sort_with [] = []
  sort_with (x ∷ xs) = insert_with x (sort_with xs)

  -- No row stands before the one that it follows.
  abbrev pub Follows : A → List A → Type 0
  Follows x [] = Unit
  Follows x (y ∷ ys) = before y x ≡ false

  abbrev pub InOrder : List A → Type 0
  InOrder [] = Unit
  InOrder (x ∷ xs) = Follows x xs × InOrder xs

  module _ (asym : (x y : A) → before x y ≡ true → before y x ≡ false) where
    Follows-insert :
        (y x : A) (ys : List A) → before y x ≡ true → Follows y ys → Follows y (insert_with x ys)
    unfolding insert_with
    Follows-insert y x [] h f = asym y x h
    Follows-insert y x (z ∷ zs) h f =
        if_ind (Follows y) (before z x) {x = z ∷ insert_with x zs} {y = x ∷ z ∷ zs} (λ _. f)
          (λ _. asym y x h)

    insert_with-InOrder : (x : A) (ys : List A) → InOrder ys → InOrder (insert_with x ys)
    unfolding insert_with
    insert_with-InOrder x [] h = (tt, tt)
    insert_with-InOrder x (y ∷ ys) h =
        if_ind InOrder (before y x) {x = y ∷ insert_with x ys} {y = x ∷ y ∷ ys}
          (λ e. (Follows-insert y x ys e h.0, insert_with-InOrder x ys h.1)) (λ e. (e, h))

    pub sort_with-InOrder : (xs : List A) → InOrder (sort_with xs)
    unfolding sort_with
    sort_with-InOrder [] = tt
    sort_with-InOrder (x ∷ xs) = insert_with-InOrder x (sort_with xs) (sort_with-InOrder xs)

  Follows-take : (n : ℕ) (x : A) (xs : List A) → Follows x xs → Follows x (take n xs)
  Follows-take zero x xs h = tt
  Follows-take (suc n) x [] h = tt
  Follows-take (suc n) x (y ∷ ys) h = h

  pub take-InOrder : (n : ℕ) (xs : List A) → InOrder xs → InOrder (take n xs)
  take-InOrder zero xs h = tt
  take-InOrder (suc n) [] h = tt
  take-InOrder (suc n) (x ∷ xs) h = (Follows-take n x xs h.0, take-InOrder n xs h.1)

module _ {ℓ κ} {A : Type ℓ} (before : A → A → Bool) (P : A → Type κ) where
  All-insert_with : (x : A) (ys : List A) → P x → All P ys → All P (insert_with before x ys)
  unfolding insert_with
  All-insert_with x [] hx h = (hx, tt)
  All-insert_with x (y ∷ ys) hx h =
      if_ind (All P) (before y x) {x = y ∷ insert_with before x ys} {y = x ∷ y ∷ ys}
        (λ _. (h.0, All-insert_with x ys hx h.1)) (λ _. (hx, h))

  pub All-sort_with : (xs : List A) → All P xs → All P (sort_with before xs)
  unfolding sort_with
  All-sort_with [] h = tt
  All-sort_with (x ∷ xs) h = All-insert_with x (sort_with before xs) h.0 (All-sort_with xs h.1)

module _ {ℓ κ} {A : Type ℓ} (P : A → Type κ) where
  pub All-take : (n : ℕ) (xs : List A) → All P xs → All P (take n xs)
  All-take zero xs h = tt
  All-take (suc n) [] h = tt
  All-take (suc n) (x ∷ xs) h = (h.0, All-take n xs h.1)
