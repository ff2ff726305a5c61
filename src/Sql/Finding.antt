-- ===== src/Sql/Finding.antt =====
-- What the first row that passes a test is, after a table was changed.
use mathlib.Core.List.{Memᴰ}
use doc_chat_platform.Sql.Laws.{DistinctBy, All_mem}
use doc_chat_platform.Sql.{find_where, update_where}
use doc_chat_platform.Base.{
  [], some, true, false, inl, inr, arith, Bool, List, ℕ, ◌≡◌, ◌∷◌, ◌==◌, Bool-cases, ap, ==_refl,
  ◌≢◌,
}

module _ {A : Type 0} where
  -- The first row with the key of a row is that row, where keys are distinct.
  pub find_where-key :
      (key : A → ℕ) (m : A) (xs : List A)
      → DistinctBy key xs
      → Memᴰ m xs
      → find_where (λ x. key x == key m) xs ≡ some m
  unfolding find_where
  find_where-key key m [] d r = elim r [ ]
  find_where-key key m (x ∷ xs) d (Memᴰ.head e) = rw e (rw (==_refl (key x)))
  find_where-key key m (x ∷ xs) d (Memᴰ.tail r) =
      let ne : (key x == key m) ≡ false = ground (arith, All_mem (λ y. key y ≢ key x) m xs d.0 r) in
      rw ne (find_where-key key m xs d.1 r)

  -- An UPDATE of the rows that pass, which still pass, changes the first of them.
  pub find_where-update_where :
      (p : A → Bool) (f : A → A) (xs : List A) (m : A)
      → find_where p xs ≡ some m
      → ((x : A) → p x ≡ true → p (f x) ≡ true)
      → find_where p (update_where p f xs) ≡ some (f m)
  unfolding find_where update_where
  find_where-update_where p f [] m h keep = cc
  find_where-update_where p f (x ∷ xs) m h keep = elim (Bool-cases (p x)) [
    | inl e ↦ rw (e, keep x e) (ap some (ap f (cc (rw e at h))))
    | inr e ↦ rw (e, e) (find_where-update_where p f xs m (rw e at h) keep)
  ]
