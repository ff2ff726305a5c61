-- ===== src/Base/Results.antt =====
-- Results of code that raises: the error is kept as a value, and `do` chains the steps.

pub data Result {ℓ} (E : Type ℓ) (A : Type ℓ) : Type ℓ where
  ok : A → Result E A
  err : E → Result E A

-- An action of a method that mutates `S` and may raise: what was committed before the raise stays.
abbrev pub Exec {ℓ} : Type ℓ → Type ℓ → Type ℓ → Type ℓ
Exec E S A = S → Result E A × S

module _ {ℓ} {E S A B : Type ℓ} where
  abbrev pub continue : Result E A → (A → Exec E S B) → Exec E S B
  continue (ok a) f s = f a s
  continue (err e) f s = (err e, s)

  infixl 5 ◌>>=◌ ◌>>◌
  abbrev pub ◌>>=◌ : Exec E S A → (A → Exec E S B) → Exec E S B
  ◌>>=◌ m f s = continue (m s).0 f (m s).1

  abbrev pub ◌>>◌ : Exec E S A → Exec E S B → Exec E S B
  ◌>>◌ m n s = continue (m s).0 (λ _. n) (m s).1

module _ {ℓ} {E S A : Type ℓ} where
  abbrev pub pure : A → Exec E S A
  pure a s = (ok a, s)

  abbrev pub raise : E → Exec E S A
  raise e s = (err e, s)

  abbrev pub lift : Result E A → Exec E S A
  lift r s = (r, s)

  abbrev pub gets : (S → A) → Exec E S A
  gets f s = (ok (f s), s)

abbrev pub modify {ℓ} : {E S : Type ℓ} → (S → S) → Exec E S Unit
modify f s = (ok tt, f s)
