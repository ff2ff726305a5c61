-- ===== src/Sql/Laws.antt =====
-- Laws of the table operations.
use mathlib.Core.Path.{subst}
use doc_chat_platform.Base.{
  suc, ◌≡◌, refl, ap, inl, inr, Bool, true, false, List, [], ◌∷◌, arith, All, length, Bool-cases, ℕ,
  ◌≢◌, ◌==◌, some, ◌+◌, ◌≤◌, Option-cases, none, Option, sym, ltb, ltb→lt, ◌∙◌, All-imp,
}
use mathlib.Core.List.{Memᴰ}
use doc_chat_platform.Sql.{select_where, update_where, delete_where, count_where, first_by, earlier}

module _ {ℓ κ} {A : Type ℓ} where
  pub All-update_where :
      (P : A → Type κ) (p : A → Bool) (f : A → A) (xs : List A)
      → ((x : A) → P x → p x ≡ true → P (f x))
      → All P xs
      → All P (update_where p f xs)
  unfolding update_where
  All-update_where P p f [] keep h = tt
  All-update_where P p f (x ∷ xs) keep h = elim (Bool-cases (p x)) [
    | inl e ↦ rw e (keep x h.0 e, All-update_where P p f xs keep h.1)
    | inr e ↦ rw e (h.0, All-update_where P p f xs keep h.1)
  ]

  pub All-delete_where :
      (P : A → Type κ) (p : A → Bool) (xs : List A) → All P xs → All P (delete_where p xs)
  unfolding delete_where
  All-delete_where P p [] h = tt
  All-delete_where P p (x ∷ xs) h = elim (Bool-cases (p x)) [
    | inl e ↦ rw e (All-delete_where P p xs h.1)
    | inr e ↦ rw e (h.0, All-delete_where P p xs h.1)
  ]

module _ {ℓ} {A : Type ℓ} where
  -- What a DELETE leaves fails its test.
  pub delete_where_gone : (p : A → Bool) (xs : List A) → All (λ x. p x ≡ false) (delete_where p xs)
  unfolding delete_where
  delete_where_gone p [] = tt
  delete_where_gone p (x ∷ xs) = elim (Bool-cases (p x)) [
    | inl e ↦ rw e (delete_where_gone p xs)
    | inr e ↦ rw e (e, delete_where_gone p xs)
  ]

  -- An UPDATE that keeps a test `q` keeps the number of the rows that pass it.
  pub count_where-update_where :
      (q p : A → Bool) (f : A → A) (xs : List A)
      → ((x : A) → p x ≡ true → q (f x) ≡ q x)
      → count_where q (update_where p f xs) ≡ count_where q xs
  unfolding count_where update_where
  count_where-update_where q p f [] keep = refl
  count_where-update_where q p f (x ∷ xs) keep =
      ground (arith, keep x, count_where-update_where q p f xs keep)

  pub length-update_where :
      (p : A → Bool) (f : A → A) (xs : List A) → length (update_where p f xs) ≡ length xs
  unfolding update_where
  length-update_where p f [] = refl
  length-update_where p f (x ∷ xs) = ap suc (length-update_where p f xs)

  pub length-select_where :
      (p : A → Bool) (xs : List A) → length (select_where p xs) ≡ count_where p xs
  unfolding select_where count_where
  length-select_where p [] = refl
  length-select_where p (x ∷ xs) = ground (arith, length-select_where p xs)

  pub count_where-delete_where_self :
      (p : A → Bool) (xs : List A) → count_where p (delete_where p xs) ≡ 0
  unfolding count_where delete_where
  count_where-delete_where_self p [] = refl
  count_where-delete_where_self p (x ∷ xs) = ground (arith, count_where-delete_where_self p xs)

  pub select_where-All : (p : A → Bool) (xs : List A) → All (λ x. p x ≡ true) (select_where p xs)
  unfolding select_where
  select_where-All p [] = tt
  select_where-All p (x ∷ xs) = elim (Bool-cases (p x)) [
    | inl e ↦ rw e (e, select_where-All p xs)
    | inr e ↦ rw e (select_where-All p xs)
  ]

  pub All-select_where {κ} :
      (P : A → Type κ) (p : A → Bool) (xs : List A) → All P xs → All P (select_where p xs)
  unfolding select_where
  All-select_where P p [] h = tt
  All-select_where P p (x ∷ xs) h = elim (Bool-cases (p x)) [
    | inl e ↦ rw e (h.0, All-select_where P p xs h.1)
    | inr e ↦ rw e (All-select_where P p xs h.1)
  ]

module _ {ℓ} {A : Type ℓ} where
  pub All_mem : (P : A → Type 0) (m : A) (xs : List A) → All P xs → Memᴰ m xs → P m
  All_mem P m [] h r = elim r [ ]
  All_mem P m (x ∷ xs) h (Memᴰ.head e) = subst P (sym e) h.0
  All_mem P m (x ∷ xs) h (Memᴰ.tail r) = All_mem P m xs h.1 r

-- No two rows share a key.
abbrev pub DistinctBy {ℓ} : {A : Type ℓ} → (A → ℕ) → List A → Type 0
DistinctBy key [] = Unit
DistinctBy key (x ∷ xs) = All (λ y. key y ≢ key x) xs × DistinctBy key xs

module _ {ℓ} {A : Type ℓ} (key : A → ℕ) where
  earlier-ne_none : (x : A) (o : Option A) → earlier key x o ≢ none
  earlier-ne_none x none h = cc
  earlier-ne_none x (some y) h = ground (arith, h)

  pub first_by-none : (xs : List A) → first_by key xs ≡ none → xs ≡ []
  unfolding first_by
  first_by-none [] h = refl
  first_by-none (x ∷ xs) h = absurd (earlier-ne_none x (first_by key xs) h)

  All-le_trans : (a b : ℕ) (xs : List A) → a ≤ b → All (λ x. b ≤ key x) xs → All (λ x. a ≤ key x) xs
  All-le_trans a b [] h k = tt
  All-le_trans a b (x ∷ xs) h k = (omega arith, All-le_trans a b xs h k.1)

  -- The chosen row is one of the table, and no row has a smaller key.
  pub first_by-min :
      (xs : List A) (m : A) → first_by key xs ≡ some m → Memᴰ m xs × All (λ x. key m ≤ key x) xs
  unfolding first_by
  first_by-min [] m h = cc
  first_by-min (x ∷ xs) m h = elim (Option-cases (first_by key xs)) [
    | inl e ↦
        let p : m ≡ x = ground arith in
        (
          Memᴰ.head p,
          (omega (arith, ap key p), subst (All (λ z. key m ≤ key z)) (sym (first_by-none xs e)) tt),
        )
    | inr (y, e) ↦
        let ih : Memᴰ y xs × All (λ z. key y ≤ key z) xs = first_by-min xs y e in
        elim (Bool-cases (ltb (key y) (key x))) [
          | inl t ↦
              let p : m ≡ y = ground arith in
              (
                Memᴰ.tail (subst (λ z. Memᴰ z xs) (sym p) ih.0),
                (
                  omega (arith, ap key p, ltb→lt _ _ t),
                  All-le_trans (key m) (key y) xs (omega (arith, ap key p)) ih.1,
                ),
              )
          | inr t ↦
              let p : m ≡ x = ground arith in
              let le : key x ≤ key y = ground arith in
              (
                Memᴰ.head p,
                (
                  omega (arith, ap key p),
                  All-le_trans (key m) (key y) xs (omega (arith, ap key p)) ih.1,
                ),
              )
        ]
  ]

  pub update_where_absent :
      (i : ℕ) (f : A → A) (xs : List A)
      → All (λ x. key x ≢ i) xs
      → update_where (λ x. key x == i) f xs ≡ xs
  unfolding update_where
  update_where_absent i f [] h = refl
  update_where_absent i f (x ∷ xs) h = ground (arith, update_where_absent i f xs h.1)

  count_where-update_head :
      (q : A → Bool) (f : A → A) (x : A) (xs : List A)
      → All (λ y. key y ≢ key x) xs
      → q x ≡ true
      → q (f x) ≡ false
      → count_where q (update_where (λ y. key y == key x) f (x ∷ xs)) + 1 ≡ count_where q (x ∷ xs)
  unfolding update_where count_where
  count_where-update_head q f x xs d t u = rw (update_where_absent (key x) f xs d) (ground arith)

  -- Taking the one row of a key out of a test lowers its count by one.
  pub count_where-update_one :
      (q : A → Bool) (f : A → A) (m : A) (xs : List A)
      → DistinctBy key xs
      → Memᴰ m xs
      → q m ≡ true
      → q (f m) ≡ false
      → count_where q (update_where (λ x. key x == key m) f xs) + 1 ≡ count_where q xs
  unfolding update_where count_where
  count_where-update_one q f m [] d r t u = elim r [ ]
  count_where-update_one q f m (x ∷ xs) d (Memᴰ.head e) t u =
      subst
        (λ z.
          count_where q (update_where (λ y. key y == key z) f (x ∷ xs)) + 1
          ≡ count_where q (x ∷ xs))
        (sym e) (count_where-update_head q f x xs d.0 (rw e at t) (rw e at u))
  count_where-update_one q f m (x ∷ xs) d (Memᴰ.tail r) t u =
      ground
        (arith, All_mem (λ y. key y ≢ key x) m xs d.0 r, count_where-update_one q f m xs d.1 r t u)

module _ {ℓ} {A : Type ℓ} (p : A → Bool) where
  mem-select_cons :
      (m x : A) (xs rest : List A)
      → p x ≡ true
      → (Memᴰ m rest → Memᴰ m xs × (p m ≡ true))
      → Memᴰ m (x ∷ rest)
      → Memᴰ m (x ∷ xs) × (p m ≡ true)
  mem-select_cons m x xs rest t ih (Memᴰ.head e) = (Memᴰ.head e, ap p e ∙ t)
  mem-select_cons m x xs rest t ih (Memᴰ.tail r) = let (a, b) = ih r in (Memᴰ.tail a, b)

  -- A selected row is in the table and passes the test.
  pub mem-select_where :
      (m : A) (xs : List A) → Memᴰ m (select_where p xs) → Memᴰ m xs × (p m ≡ true)
  unfolding select_where
  mem-select_where m [] r = elim r [ ]
  mem-select_where m (x ∷ xs) r = elim (Bool-cases (p x)) [
    | inl e ↦ mem-select_cons m x xs (select_where p xs) e (mem-select_where m xs) (rw e at r)
    | inr e ↦ let (a, b) = mem-select_where m xs (rw e at r) in (Memᴰ.tail a, b)
  ]

  -- What holds of every selected row holds of every row that passes the test.
  pub All-of_select_where {κ} :
      (P : A → Type κ) (xs : List A) → All P (select_where p xs) → All (λ x. p x ≡ true → P x) xs
  unfolding select_where
  All-of_select_where P [] h = tt
  All-of_select_where P (x ∷ xs) h = elim (Bool-cases (p x)) [
    | inl e ↦ let h' = rw e at h in ((λ _. h'.0), All-of_select_where P xs h'.1)
    | inr e ↦ ((λ t. cc), All-of_select_where P xs (rw e at h))
  ]

module _ {ℓ} {A : Type ℓ} where
  -- Every row of a table is in it.
  pub All-mem : (xs : List A) → All (λ m. Memᴰ m xs) xs
  All-mem [] = tt
  All-mem (x ∷ xs) = (
    Memᴰ.head refl,
    All-imp (λ m. Memᴰ m xs) (λ m. Memᴰ m (x ∷ xs)) xs (λ m r. Memᴰ.tail r) (All-mem xs),
  )
