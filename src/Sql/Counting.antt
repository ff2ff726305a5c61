-- ===== src/Sql/Counting.antt =====
-- Counts of rows under an UPDATE, the row of a key, and what `scalar_one_or_none` says of a table.
use doc_chat_platform.Sql.Laws.{
  DistinctBy, mem-select_where, length-select_where, All_mem, All-delete_where, All-of_select_where,
}
use doc_chat_platform.Sql.{
  count_where, scalar_one_or_none, update_where, select_where, delete_where, TooMany,
}
use mathlib.Core.List.{Memᴰ}
use mathlib.Core.Path.{subst}
use doc_chat_platform.Base.{
  [], none, some, true, false, inl, inr, refl, arith, ok, Bool, List, ℕ, ◌++◌, All, ◌∷◌, ◌≡◌, ◌≤◌,
  ◌==◌, sym, length, ◌≢◌, Bool-cases, ◌+◌, All-imp, ap, All-append, ◌∙◌, ==_iff, if_ind, err, ◌<◌,
}

module _ {ℓ} {A : Type ℓ} where
  pub count_where-append :
      (p : A → Bool) (xs ys : List A)
      → count_where p (xs ++ ys) ≡ count_where p xs + count_where p ys
  unfolding count_where
  count_where-append p [] ys = omega arith
  count_where-append p (x ∷ xs) ys = ground (arith, count_where-append p xs ys)

  -- An UPDATE that makes no row pass a test does not raise the number of the rows that pass it.
  pub count_where-update_le :
      (q p : A → Bool) (f : A → A) (xs : List A)
      → All (λ x. p x ≡ true → q (f x) ≡ true → q x ≡ true) xs
      → count_where q (update_where p f xs) ≤ count_where q xs
  unfolding count_where update_where
  count_where-update_le q p f [] h = omega arith
  count_where-update_le q p f (x ∷ xs) h =
      let ih = count_where-update_le q p f xs h.1 in
      elim (Bool-cases (p x)) [
        | inl e ↦ elim (Bool-cases (q (f x))) [
          | inl t ↦ rw (e, t, h.0 e t) (omega (arith, ih))
          | inr t ↦ ground (arith, e, t, ih)
        ]
        | inr e ↦ ground (arith, e, ih)
      ]

  -- An UPDATE makes at most as many rows pass a test as it changes.
  pub count_where-update_bound :
      (q p : A → Bool) (f : A → A) (xs : List A)
      → count_where q (update_where p f xs) ≤ count_where q xs + count_where p xs
  unfolding count_where update_where
  count_where-update_bound q p f [] = omega arith
  count_where-update_bound q p f (x ∷ xs) = ground (arith, count_where-update_bound q p f xs)

  pub count_where-absent :
      (p : A → Bool) (xs : List A) → All (λ x. p x ≡ false) xs → count_where p xs ≡ 0
  unfolding count_where
  count_where-absent p [] h = refl
  count_where-absent p (x ∷ xs) h = ground (arith, h.0, count_where-absent p xs h.1)

  pub mem-update_hit :
      (p : A → Bool) (f : A → A) (m : A) (xs : List A)
      → p m ≡ true
      → Memᴰ m xs
      → Memᴰ (f m) (update_where p f xs)
  unfolding update_where
  mem-update_hit p f m [] t r = elim r [ ]
  mem-update_hit p f m (x ∷ xs) t (Memᴰ.head e) = Memᴰ.head (rw (sym (ap p e) ∙ t) (ap f e))
  mem-update_hit p f m (x ∷ xs) t (Memᴰ.tail r) = Memᴰ.tail (mem-update_hit p f m xs t r)

  pub mem-delete_where :
      (p : A → Bool) (m : A) (xs : List A) → p m ≡ false → Memᴰ m xs → Memᴰ m (delete_where p xs)
  unfolding delete_where
  mem-delete_where p m [] t r = elim r [ ]
  mem-delete_where p m (x ∷ xs) t (Memᴰ.head e) = rw (sym (ap p e) ∙ t) (Memᴰ.head e)
  mem-delete_where p m (x ∷ xs) t (Memᴰ.tail r) =
      if_ind (Memᴰ m) (p x) {x = delete_where p xs} {y = x ∷ delete_where p xs}
        (λ _. mem-delete_where p m xs t r) (λ _. Memᴰ.tail (mem-delete_where p m xs t r))

  pub mem-append_left : (m : A) (xs ys : List A) → Memᴰ m xs → Memᴰ m (xs ++ ys)
  mem-append_left m [] ys r = elim r [ ]
  mem-append_left m (x ∷ xs) ys (Memᴰ.head e) = Memᴰ.head e
  mem-append_left m (x ∷ xs) ys (Memᴰ.tail r) = Memᴰ.tail (mem-append_left m xs ys r)

  pub mem-append_last : (m : A) (xs : List A) → Memᴰ m (xs ++ m ∷ [])
  mem-append_last m [] = Memᴰ.head refl
  mem-append_last m (x ∷ xs) = Memᴰ.tail (mem-append_last m xs)

module _ {ℓ} {A : Type ℓ} (key : A → ℕ) where
  pub count_where-one_key :
      (i : ℕ) (xs : List A) → DistinctBy key xs → count_where (λ x. key x == i) xs ≤ 1
  unfolding count_where
  count_where-one_key i [] d = omega arith
  count_where-one_key i (x ∷ xs) d = elim (Bool-cases (key x == i)) [
    | inl e ↦
        let absent : All (λ y. (key y == i) ≡ false) xs =
          All-imp (λ y. key y ≢ key x) (λ y. (key y == i) ≡ false) xs
            (λ y ne. ground (arith, e, ne)) d.0 in
        rw (e, count_where-absent (λ y. key y == i) xs absent) (omega arith)
    | inr e ↦ rw e (count_where-one_key i xs d.1)
  ]

  pub DistinctBy-append_one :
      (y : A) (xs : List A)
      → All (λ x. key x ≢ key y) xs
      → DistinctBy key xs
      → DistinctBy key (xs ++ y ∷ [])
  DistinctBy-append_one y [] h d = (tt, tt)
  DistinctBy-append_one y (x ∷ xs) h d = (
    All-append (λ z. key z ≢ key x) xs (y ∷ []) d.0 ((λ e. h.0 (sym e)), tt),
    DistinctBy-append_one y xs h.1 d.1,
  )

module _ {ℓ} {A : Type ℓ} (key : A → ℕ) where
  pub DistinctBy-delete_where :
      (p : A → Bool) (xs : List A) → DistinctBy key xs → DistinctBy key (delete_where p xs)
  unfolding delete_where
  DistinctBy-delete_where p [] d = tt
  DistinctBy-delete_where p (x ∷ xs) d =
      if_ind (DistinctBy key) (p x) {x = delete_where p xs} {y = x ∷ delete_where p xs}
        (λ _. DistinctBy-delete_where p xs d.1)
        (λ _. (All-delete_where (λ y. key y ≢ key x) p xs d.0, DistinctBy-delete_where p xs d.1))

  pub DistinctBy-append :
      (xs ys : List A)
      → All (λ y. All (λ x. key x ≢ key y) xs) ys
      → DistinctBy key xs
      → DistinctBy key ys
      → DistinctBy key (xs ++ ys)
  DistinctBy-append [] ys h d e = e
  DistinctBy-append (x ∷ xs) ys h d e = (
    All-append (λ z. key z ≢ key x) xs ys d.0
        (All-imp (λ y. All (λ z. key z ≢ key y) (x ∷ xs)) (λ y. key y ≢ key x) ys
          (λ y k same. k.0 (sym same)) h),
    DistinctBy-append xs ys
        (All-imp (λ y. All (λ z. key z ≢ key y) (x ∷ xs)) (λ y. All (λ z. key z ≢ key y) xs) ys
          (λ y k. k.1) h)
        d.1 e,
  )

module _ {A : Type 0} (key : A → ℕ) where
  -- The rows with the key of a row are that row.
  pub one_row :
      (m : A) (xs : List A)
      → DistinctBy key xs
      → Memᴰ m xs
      → All (λ x. (key x == key m) ≡ true → x ≡ m) xs
  one_row m [] d r = tt
  one_row m (x ∷ xs) d (Memᴰ.head e) = (
    (λ _. sym e),
    All-imp (λ y. key y ≢ key x) (λ y. (key y == key m) ≡ true → y ≡ m) xs
        (λ y ne t. absurd (ne ((==_iff _ _).0 t ∙ ap key e))) d.0,
  )
  one_row m (x ∷ xs) d (Memᴰ.tail r) = (
    (λ t. absurd (All_mem (λ y. key y ≢ key x) m xs d.0 r (sym ((==_iff _ _).0 t)))),
    one_row m xs d.1 r,
  )

module _ {A : Type 0} (p : A → Bool) where
  one_selected : (rows : List A) (m : A) → scalar_one_or_none rows ≡ ok (some m) → rows ≡ m ∷ []
  unfolding scalar_one_or_none
  one_selected [] m e = cc
  one_selected (x ∷ []) m e = cc
  one_selected (x ∷ y ∷ r) m e = cc

  -- The one row that a query has is in the table and passes its test.
  pub scalar-some :
      (m : A) (xs : List A)
      → scalar_one_or_none (select_where p xs) ≡ ok (some m)
      → Memᴰ m xs × (p m ≡ true)
  scalar-some m xs e =
      mem-select_where p m xs
        (subst (Memᴰ m) (sym (one_selected (select_where p xs) m e)) (Memᴰ.head refl))

  none_selected : (rows : List A) → scalar_one_or_none rows ≡ ok none → length rows ≡ 0
  unfolding scalar_one_or_none
  none_selected [] e = refl
  none_selected (x ∷ []) e = cc
  none_selected (x ∷ y ∷ r) e = cc

  pub scalar-none :
      (xs : List A) → scalar_one_or_none (select_where p xs) ≡ ok none → count_where p xs ≡ 0
  scalar-none xs e = sym (length-select_where p xs) ∙ none_selected (select_where p xs) e

  several_selected :
      (rows : List A) (e : TooMany) → scalar_one_or_none rows ≡ err e → 1 < length rows
  unfolding scalar_one_or_none
  several_selected [] e h = cc
  several_selected (x ∷ []) e h = cc
  several_selected (x ∷ y ∷ r) e h = omega arith

  pub scalar-several :
      (xs : List A) (e : TooMany)
      → scalar_one_or_none (select_where p xs) ≡ err e
      → 1 < count_where p xs
  scalar-several xs e h =
      subst (λ n. 1 < n) (length-select_where p xs) (several_selected (select_where p xs) e h)

  -- What holds of the one row that a query has holds of every row that passes its test.
  pub scalar-All :
      (P : A → Type 0) (m : A) (xs : List A)
      → scalar_one_or_none (select_where p xs) ≡ ok (some m)
      → P m
      → All (λ x. p x ≡ true → P x) xs
  scalar-All P m xs e h =
      All-of_select_where p P xs
        (subst (All P) (sym (one_selected (select_where p xs) m e)) (h, tt))

  nothing : (rows : List A) → scalar_one_or_none rows ≡ ok none → rows ≡ []
  unfolding scalar_one_or_none
  nothing [] e = refl
  nothing (x ∷ []) e = cc
  nothing (x ∷ y ∷ r) e = cc

  pub scalar-All-none :
      (P : A → Type 0) (xs : List A)
      → scalar_one_or_none (select_where p xs) ≡ ok none
      → All (λ x. p x ≡ true → P x) xs
  scalar-All-none P xs e =
      All-of_select_where p P xs (subst (All P) (sym (nothing (select_where p xs) e)) tt)
