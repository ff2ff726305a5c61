-- ===== src/Sql/Order.antt =====
-- Laws of ORDER BY and LIMIT, and of rows with distinct keys.
use mathlib.Core.Path.{subst}
use mathlib.Core.List.{Memᴰ}
use doc_chat_platform.Base.{
  [], true, false, zero, suc, refl, arith, Bool, List, ℕ, All, take, ◌∷◌, length, ◌≡◌,
  if◌then◌else◌, ◌∙◌, ◌≢◌, if_ind, ap, sym, ltb,
}
use doc_chat_platform.Sql.{insert_by, order_by, select_where, update_where}
use doc_chat_platform.Sql.Laws.{DistinctBy, All-select_where}

module _ {ℓ κ} {A : Type ℓ} (P : A → Type κ) (key : A → ℕ) where
  All-insert_by : (x : A) (xs : List A) → P x → All P xs → All P (insert_by key x xs)
  All-insert_by x [] p h = (p, tt)
  All-insert_by x (y ∷ ys) p h =
      if_ind (All P) (ltb (key y) (key x)) (λ _. (h.0, All-insert_by x ys p h.1)) (λ _. (p, h))

  pub All-order_by : (xs : List A) → All P xs → All P (order_by key xs)
  unfolding order_by
  All-order_by [] h = tt
  All-order_by (x ∷ xs) h = All-insert_by x (order_by key xs) h.0 (All-order_by xs h.1)

  pub All-take : (n : ℕ) (xs : List A) → All P xs → All P (take n xs)
  All-take zero xs h = tt
  All-take (suc n) [] h = tt
  All-take (suc n) (x ∷ xs) h = (h.0, All-take n xs h.1)

module _ {ℓ} {A : Type ℓ} (id : A → ℕ) where
  pub DistinctBy-select_where :
      (p : A → Bool) (xs : List A) → DistinctBy id xs → DistinctBy id (select_where p xs)
  unfolding select_where
  DistinctBy-select_where p [] d = tt
  DistinctBy-select_where p (x ∷ xs) d =
      if_ind (DistinctBy id) (p x)
        (λ _. (All-select_where (λ y. id y ≢ id x) p xs d.0, DistinctBy-select_where p xs d.1))
        (λ _. DistinctBy-select_where p xs d.1)

  pub DistinctBy-take : (n : ℕ) (xs : List A) → DistinctBy id xs → DistinctBy id (take n xs)
  DistinctBy-take zero xs d = tt
  DistinctBy-take (suc n) [] d = tt
  DistinctBy-take (suc n) (x ∷ xs) d =
      (All-take (λ y. id y ≢ id x) id n xs d.0, DistinctBy-take n xs d.1)

  -- An UPDATE that leaves the ids leaves them distinct.
  All-ne-update_where :
      (i : ℕ) (p : A → Bool) (f : A → A) (xs : List A)
      → ((x : A) → id (f x) ≡ id x)
      → All (λ y. id y ≢ i) xs
      → All (λ y. id y ≢ i) (update_where p f xs)
  unfolding update_where
  All-ne-update_where i p f [] keep h = tt
  All-ne-update_where i p f (x ∷ xs) keep h =
      (ground (arith, keep x, h.0), All-ne-update_where i p f xs keep h.1)

  pub DistinctBy-update_where :
      (p : A → Bool) (f : A → A) (xs : List A)
      → ((x : A) → id (f x) ≡ id x)
      → DistinctBy id xs
      → DistinctBy id (update_where p f xs)
  unfolding update_where
  DistinctBy-update_where p f [] keep d = tt
  DistinctBy-update_where p f (x ∷ xs) keep d = (
    subst (λ i. All (λ y. id y ≢ i) (update_where p f xs)) (kept (p x) x)
        (All-ne-update_where (id x) p f xs keep d.0),
    DistinctBy-update_where p f xs keep d.1,
  )
    where
      kept : (b : Bool) (y : A) → id y ≡ id (if b then f y else y)
      kept true y = sym (keep y)
      kept false y = refl

  -- A row that an UPDATE does not match is in the table afterwards too.
  pub mem-update_where :
      (p : A → Bool) (f : A → A) (m : A) (xs : List A)
      → p m ≡ false
      → Memᴰ m xs
      → Memᴰ m (update_where p f xs)
  unfolding update_where
  mem-update_where p f m [] h r = elim r [ ]
  mem-update_where p f m (x ∷ xs) h (Memᴰ.head e) = Memᴰ.head (rw ((ap p (sym e) ∙ h)) e)
  mem-update_where p f m (x ∷ xs) h (Memᴰ.tail r) = Memᴰ.tail (mem-update_where p f m xs h r)

module _ {ℓ} {A : Type ℓ} (key id : A → ℕ) where
  DistinctBy-insert_by :
      (x : A) (xs : List A)
      → All (λ y. id y ≢ id x) xs
      → DistinctBy id xs
      → DistinctBy id (insert_by key x xs)
  DistinctBy-insert_by x [] h d = (tt, tt)
  DistinctBy-insert_by x (y ∷ ys) h d =
      if_ind (DistinctBy id) (ltb (key y) (key x))
        (λ _. (
          All-insert_by (λ z. id z ≢ id y) key x ys (λ e. h.0 (sym e)) d.0,
          DistinctBy-insert_by x ys h.1 d.1,
        ))
        (λ _. (h, d))

  pub DistinctBy-order_by : (xs : List A) → DistinctBy id xs → DistinctBy id (order_by key xs)
  unfolding order_by
  DistinctBy-order_by [] d = tt
  DistinctBy-order_by (x ∷ xs) d =
      DistinctBy-insert_by x (order_by key xs) (All-order_by (λ y. id y ≢ id x) key xs d.0)
        (DistinctBy-order_by xs d.1)

  length-insert_by : (x : A) (xs : List A) → length (insert_by key x xs) ≡ suc (length xs)
  length-insert_by x [] = refl
  length-insert_by x (y ∷ ys) = ground (arith, length-insert_by x ys)

  pub length-order_by : (xs : List A) → length (order_by key xs) ≡ length xs
  unfolding order_by
  length-order_by [] = refl
  length-order_by (x ∷ xs) = length-insert_by x (order_by key xs) ∙ ap suc (length-order_by xs)
