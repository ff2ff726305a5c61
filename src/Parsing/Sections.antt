-- ===== src/Parsing/Sections.antt =====
-- The sections that a block stands in, read off the headings before it, and the stack of open sections
-- that the parsers keep.
use doc_chat_platform.Models.{Block}
use doc_chat_platform.Text.{Text}
use doc_chat_platform.Base.{
  [], none, some, true, false, inl, inr, refl, arith, Bool, List, Option, ℕ, ltb, ◌≡◌, min, leb, ap,
  leb→le, ltb→lt, Bool-cases, if◌then◌else◌, ◌∙◌, sym, reverse_onto, ◌++◌,
}
use doc_chat_platform.Parsing.{pop_levels}
use doc_chat_platform.Base.{[], ◌∷◌, none, some, true, false, inl, inr, Option, List, ℕ, Bool}

-- Headings with their levels, the last one first.
abbrev pub Heads : Type 0
Heads = List (ℕ × Text)

-- A heading is still open where all later headings are of a deeper level; the bound is the least of
-- their levels.
abbrev pub is_open : ℕ → Option ℕ → Bool
is_open l none = true
is_open l (some bound) = ltb l bound

unfoldable pub open_levels : Option ℕ → List (ℕ × Text) → List ℕ
open_levels bound [] = []
open_levels bound ((l, t) ∷ heads) =
    let deeper = open_levels (some l) heads in
    let same = open_levels bound heads in if is_open l bound then l ∷ deeper else same

unfoldable pub open_titles : Option ℕ → List (ℕ × Text) → List Text
open_titles bound [] = []
open_titles bound ((l, t) ∷ heads) =
    let deeper = open_titles (some l) heads in
    let same = open_titles bound heads in if is_open l bound then t ∷ deeper else same

abbrev cut : Option ℕ → ℕ → Option ℕ
cut none level = some level
cut (some bound) level = some (min bound level)

cut-below :
    (b : Option ℕ) (l level : ℕ)
    → is_open l b ≡ true
    → leb level l ≡ true
    → (is_open l (cut b level) ≡ false) × (cut b level ≡ cut (some l) level)
cut-below none l level h k = (ground arith, ap some (omega (arith, leb→le level l k)))
cut-below (some b) l level h k =
    (ground arith, ap some (omega (arith, leb→le level l k, ltb→lt l b h)))

cut-above :
    (b : Option ℕ) (l level : ℕ)
    → is_open l b ≡ true
    → leb level l ≡ false
    → is_open l (cut b level) ≡ true
cut-above none l level h k = ground arith
cut-above (some b) l level h k = ground arith

cut-closed : (b : Option ℕ) (l level : ℕ) → is_open l b ≡ false → is_open l (cut b level) ≡ false
cut-closed none l level h = cc
cut-closed (some b) l level h = ground arith

-- Popping the stack leaves the sections that a heading of the level stands in.
pub pop_levels-open :
    (level : ℕ) (b : Option ℕ) (heads : List (ℕ × Text))
    → pop_levels level (open_levels b heads) (open_titles b heads)
      ≡ (open_levels (cut b level) heads, open_titles (cut b level) heads)
unfolding pop_levels open_levels open_titles
pop_levels-open level b [] = refl
pop_levels-open level b ((l, t) ∷ heads) = elim (Bool-cases (is_open l b)) [
  | inl e ↦ elim (Bool-cases (leb level l)) [
    | inl f ↦
        let c = cut-below b l level e f in
        rw (e, f, c.0)
          (pop_levels-open level (some l) heads
            ∙ ap (λ r. (open_levels r heads, open_titles r heads)) (sym c.1))
    | inr f ↦ rw (e, f, cut-above b l level e f) refl
  ]
  | inr e ↦ rw (e, cut-closed b l level e) (pop_levels-open level b heads)
]

-- A block with a level is a heading.
abbrev pub push_head : Option ℕ → Text → Heads → Heads
push_head none t heads = heads
push_head (some l) t heads = (l, t) ∷ heads

abbrev pub with_head : Block → Heads → Heads
with_head b heads = push_head b.level b.text heads

abbrev all_heads : Heads → List Block → Heads
all_heads heads [] = heads
all_heads heads (b ∷ bs) = all_heads (with_head b heads) bs

-- The path that the headings before a block, and itself, give it.
abbrev pub path_under : Heads → List Text
path_under heads = reverse_onto (open_titles none heads) []

abbrev pub Placed : Heads → List Block → Type 0
Placed heads [] = Unit
Placed heads (b ∷ bs) =
    (b.section_path ≡ path_under (with_head b heads)) × Placed (with_head b heads) bs

all_heads-append :
    (heads : Heads) (xs ys : List Block)
    → all_heads heads (xs ++ ys) ≡ all_heads (all_heads heads xs) ys
all_heads-append heads [] ys = refl
all_heads-append heads (x ∷ xs) ys = all_heads-append (with_head x heads) xs ys

Placed-append :
    (heads : Heads) (xs ys : List Block)
    → Placed heads xs
    → Placed (all_heads heads xs) ys
    → Placed heads (xs ++ ys)
Placed-append heads [] ys h k = k
Placed-append heads (x ∷ xs) ys h k = (h.0, Placed-append (with_head x heads) xs ys h.1 k)

-- The stack of a parser is that of the headings it has written.
abbrev pub Tracked : List Block → List ℕ → List Text → Type 0
Tracked blocks levels path =
    (levels ≡ open_levels none (all_heads [] blocks))
    × (path ≡ open_titles none (all_heads [] blocks))
    × Placed [] blocks

pub nothing_written : Tracked [] [] []
unfolding open_levels open_titles
nothing_written = (refl, refl, tt)

pub Tracked-plain :
    (b : Block) (blocks : List Block) (levels : List ℕ) (path : List Text)
    → b.level ≡ none
    → b.section_path ≡ reverse_onto path []
    → Tracked blocks levels path
    → Tracked (blocks ++ b ∷ []) levels path
unfolding open_levels open_titles
Tracked-plain b blocks levels path l p h =
    let heads = all_heads [] blocks in
    let same : all_heads [] (blocks ++ b ∷ []) ≡ heads =
      all_heads-append [] blocks (b ∷ []) ∙ ap (λ o. push_head o b.text heads) l in
    (
      h.0 ∙ ap (open_levels none) (sym same),
      h.1 ∙ ap (open_titles none) (sym same),
      Placed-append [] blocks (b ∷ []) h.2 (
        p
            ∙ ap (λ r. reverse_onto r []) h.1
            ∙ ap (λ o. path_under (push_head o b.text heads)) (sym l),
        tt,
      ),
    )

pub Tracked-heading :
    (b : Block) (l : ℕ) (blocks : List Block) (levels : List ℕ) (path : List Text)
    → let r = pop_levels l levels path in
      b.level ≡ some l
      → b.section_path ≡ reverse_onto (b.text ∷ r.1) []
      → Tracked blocks levels path
      → Tracked (blocks ++ b ∷ []) (l ∷ r.0) (b.text ∷ r.1)
unfolding open_levels open_titles
Tracked-heading b l blocks levels path e p h =
    let heads = all_heads [] blocks in
    let same : all_heads [] (blocks ++ b ∷ []) ≡ (l, b.text) ∷ heads =
      all_heads-append [] blocks (b ∷ []) ∙ ap (λ o. push_head o b.text heads) e in
    let popped : pop_levels l levels path
        ≡ (open_levels (some l) heads, open_titles (some l) heads) =
      ap (λ x. pop_levels l x path) h.0
      ∙ ap (pop_levels l (open_levels none heads)) h.1
      ∙ pop_levels-open l none heads in
    let titles : b.text ∷ (pop_levels l levels path).1 ≡ open_titles none ((l, b.text) ∷ heads) =
      ap (λ r. b.text ∷ r.1) popped in
    (
      ap (λ r. l ∷ r.0) popped ∙ ap (open_levels none) (sym same),
      titles ∙ ap (open_titles none) (sym same),
      Placed-append [] blocks (b ∷ []) h.2 (
        p
            ∙ ap (λ r. reverse_onto r []) titles
            ∙ ap (λ o. path_under (push_head o b.text heads)) (sym e),
        tt,
      ),
    )
