-- ===== src/Sql.antt =====
-- The statements that the program sends to Postgres, over one table as the list of its rows:
-- SELECT with WHERE, UPDATE, DELETE, COUNT, ORDER BY with LIMIT 1, and `scalar_one_or_none`.
pub mod Laws
pub mod Order
pub mod Counting
pub mod Finding
pub mod Sorting
use doc_chat_platform.Base.{
  ℕ, suc, Bool, true, false, List, [], ◌∷◌, Option, none, some, if◌then◌else◌, ltb, get_or_else,
  Result, ok, err,
}

module _ {ℓ} {A : Type ℓ} where
  -- SELECT … WHERE p
  unfoldable pub select_where : (A → Bool) → List A → List A
  select_where p [] = []
  select_where p (x ∷ xs) = let rest = select_where p xs in if p x then x ∷ rest else rest

  -- UPDATE … SET f WHERE p
  unfoldable pub update_where : (A → Bool) → (A → A) → List A → List A
  update_where p f [] = []
  update_where p f (x ∷ xs) = (if p x then f x else x) ∷ update_where p f xs

  -- DELETE … WHERE p
  unfoldable pub delete_where : (A → Bool) → List A → List A
  delete_where p [] = []
  delete_where p (x ∷ xs) = let rest = delete_where p xs in if p x then rest else x ∷ rest

  -- SELECT count(*) … WHERE p
  unfoldable pub count_where : (A → Bool) → List A → ℕ
  count_where p [] = 0
  count_where p (x ∷ xs) = let rest = count_where p xs in if p x then suc rest else rest

  -- The first row that passes.
  unfoldable pub find_where : (A → Bool) → List A → Option A
  find_where p [] = none
  find_where p (x ∷ xs) = let rest = find_where p xs in if p x then some x else rest

  -- ORDER BY key LIMIT 1; of rows with the same key, the one that the table holds first
  abbrev pub earlier : (A → ℕ) → A → Option A → Option A
  earlier key x none = some x
  earlier key x (some y) = if ltb (key y) (key x) then some y else some x

  unfoldable pub first_by : (A → ℕ) → List A → Option A
  first_by key [] = none
  first_by key (x ∷ xs) = earlier key x (first_by key xs)

module _ {ℓ} {A : Type ℓ} (key : A → ℕ) where
  abbrev pub insert_by : A → List A → List A
  insert_by x [] = x ∷ []
  insert_by x (y ∷ ys) = if ltb (key y) (key x) then y ∷ insert_by x ys else x ∷ y ∷ ys

  -- ORDER BY key; rows with the same key keep the order of the table
  unfoldable pub order_by : List A → List A
  order_by [] = []
  order_by (x ∷ xs) = insert_by x (order_by xs)

-- `scalar_one_or_none` raises when there are several rows.
pub data TooMany : Type 0 where
  multiple_results_found : TooMany

unfoldable pub scalar_one_or_none : {A : Type 0} → List A → Result TooMany (Option A)
scalar_one_or_none [] = ok none
scalar_one_or_none (x ∷ []) = ok (some x)
scalar_one_or_none (x ∷ y ∷ r) = err multiple_results_found
