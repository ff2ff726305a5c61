-- ===== src/Splitting/Packing.antt =====
-- A group that `pack` puts out stays within the limit, or is one unit that was over it.
use doc_chat_platform.Base.{
  [], true, false, refl, List, is_empty, ℕ, ◌≡◌, All, ◌≤◌, ◌∷◌, ◌⊎◌, ◌+◌, ◌++◌, inl, inr, arith,
  Bool-cases, ap, ltb,
}
use doc_chat_platform.Text.{Text, join}
use doc_chat_platform.Text.Laws.{join-append, is_empty-append_right}
use doc_chat_platform.Tokens.{Tools}
use doc_chat_platform.Tokens.Additive.{IsAdditive}
use doc_chat_platform.Splitting.{pack_from, pack}

module _ (tools : Tools) (additive : IsAdditive tools) (P : Text → Type 0) where
  -- Within the limit, or a text that may stay over it.
  abbrev pub Fits : ℕ → Text → Type 0
  Fits limit t = (tools.count_tokens t ≤ limit) ⊎ P t

  -- The group so far: its size is an upper bound, and it is one unit or within the limit.
  record IsOpen (limit : ℕ) (separator : Text) (current : List Text) (tokens : ℕ) : Type 0 where
    sized :
        is_empty current ≡ false
        → tools.count_tokens (join separator current) + tools.count_tokens separator ≤ tokens
    unused : is_empty current ≡ true → tokens ≡ 0
    fits : is_empty current ≡ false → Fits limit (join separator current)

  join-snoc :
      (separator unit : Text) (current : List Text)
      → is_empty current ≡ false
      → join separator (current ++ unit ∷ []) ≡ join separator current ++ (separator ++ unit)
  unfolding join
  join-snoc separator unit current h = join-append separator current (unit ∷ []) h refl

  single-IsOpen :
      (limit : ℕ) (separator unit : Text) (tokens : ℕ)
      → Fits limit unit
      → tools.count_tokens unit + tools.count_tokens separator ≤ tokens
      → IsOpen limit separator (unit ∷ []) tokens
  unfolding join
  single-IsOpen limit separator unit tokens f le = record {
    sized = λ h. le;
    unused = λ h. cc;
    fits = λ h. f;
  }

  extend-IsOpen :
      (limit : ℕ) (separator unit : Text) (current : List Text) (tokens : ℕ)
      → is_empty current ≡ false
      → tokens + (tools.count_tokens unit + tools.count_tokens separator) ≤ limit
      → IsOpen limit separator current tokens
      → IsOpen limit separator
          (current ++ unit ∷ [])
          (tokens + (tools.count_tokens unit + tools.count_tokens separator))
  extend-IsOpen limit separator unit current tokens h le v =
      let joined = join-snoc separator unit current h in
      let bound = additive.count-join (join separator current) separator unit in
      let size = ap tools.count_tokens joined in
      record {
        sized = λ k. omega (arith, size, bound, v.sized h);
        unused = λ k. cc (is_empty-append_right current (unit ∷ []) refl);
        fits = λ k. inl (omega (arith, size, bound, v.sized h));
      }

  All-pack_from :
      (limit : ℕ) (separator : Text) (current : List Text) (tokens : ℕ) (units : List Text)
      → IsOpen limit separator current tokens
      → All (Fits limit) units
      → All (Fits limit) (pack_from tools limit separator current tokens units)
  unfolding pack_from
  All-pack_from limit separator [] tokens [] v f = tt
  All-pack_from limit separator (x ∷ xs) tokens [] v f = (v.fits refl, tt)
  All-pack_from limit separator [] tokens (unit ∷ units) v f =
      All-pack_from limit separator (unit ∷ []) _ units
        (single-IsOpen limit separator unit _ f.0 (omega arith)) f.1
  All-pack_from limit separator (x ∷ xs) tokens (unit ∷ units) v f =
      let n = tools.count_tokens unit + tools.count_tokens separator in
      elim (Bool-cases (ltb limit (tokens + n))) [
        | inl over ↦ rw over (
          v.fits refl,
          All-pack_from limit separator (unit ∷ []) n units
              (single-IsOpen limit separator unit n f.0 (omega arith)) f.1,
        )
        | inr within ↦ rw within (
            All-pack_from limit separator ((x ∷ xs) ++ unit ∷ []) (tokens + n) units
              (extend-IsOpen limit separator unit (x ∷ xs) tokens refl (ground arith) v) f.1)
      ]

  -- Every group that `pack` puts out is within the limit, or is a unit that was allowed over it.
  pub All-pack :
      (units : List Text) (limit : ℕ) (separator : Text)
      → All (Fits limit) units
      → All (Fits limit) (pack tools units limit separator)
  unfolding pack
  All-pack units limit separator f =
      All-pack_from limit separator [] 0 units
        (record { sized = λ h. cc; unused = λ h. refl; fits = λ h. cc }) f
