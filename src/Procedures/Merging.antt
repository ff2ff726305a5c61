-- ===== src/Procedures/Merging.antt =====
-- Merging procedures keeps the text of the document, and merges ascending runs only.
use doc_chat_platform.Text.Laws.{join-merge}
use doc_chat_platform.Text.{join, Text}
use doc_chat_platform.Base.{
  [], true, zero, suc, inl, inr, refl, arith, List, ℕ, ◌≡◌, ◌++◌, drop, length, ◌∷◌, Option-cases,
  Bool-cases, ap, ◌∙◌, sym, append_assoc, map-append,
}
use doc_chat_platform.Models.{Block}
use doc_chat_platform.Tokens.{Tools}
use doc_chat_platform.Procedures.{
  newline, texts, is_continuable, step_number, scan, is_ascending_run, merge_run, group_at,
  group_from, group_numbered_procedures,
}

-- The blocks that a scan takes are the next blocks of the document.
scan-prefix :
    (tools : Tools) (last : ℕ) (bs : List Block)
    → let run = (scan tools last bs).0 in run ++ drop (length run) bs ≡ bs
unfolding scan
scan-prefix tools last [] = refl
scan-prefix tools last (b ∷ bs) = elim (Option-cases (step_number tools b.text)) [
  | inl e ↦ ground (arith, e, scan-prefix tools last bs)
  | inr (n, e) ↦ ground (arith, e, scan-prefix tools n bs)
]

-- A block comes out as it is, or opens a run that takes in the blocks behind it.
pub data Grouped (b : Block) (bs : List Block) (g : Block × ℕ) : Type 0 where
  alone : g ≡ (b, 0) → Grouped b bs g
  merged :
      (run : List Block) (numbers : List ℕ)
      → g ≡ (merge_run b run, length run)
      → run ++ drop (length run) bs ≡ bs
      → is_ascending_run numbers ≡ true
      → Grouped b bs g

group_at-Grouped :
    (tools : Tools) (b : Block) (bs : List Block) → Grouped b bs (group_at tools b bs)
unfolding group_at
group_at-Grouped tools b bs = elim (Bool-cases (is_continuable b.kind)) [
  | inr c ↦ alone (ground arith)
  | inl c ↦ elim (Option-cases (step_number tools b.text)) [
    | inl e ↦ alone (ground arith)
    | inr (n, e) ↦ elim (Bool-cases (is_ascending_run (n ∷ (scan tools n bs).1))) [
      | inl t ↦
          merged (scan tools n bs).0 (n ∷ (scan tools n bs).1) (ground arith)
            (scan-prefix tools n bs) t
      | inr t ↦ alone (ground arith)
    ]
  ]
]

step_over :
    (t : Text) (before ys zs : List Text)
    → ((xs : List Text) → join newline (xs ++ ys) ≡ join newline (xs ++ zs))
    → join newline (before ++ t ∷ ys) ≡ join newline (before ++ t ∷ zs)
step_over t before ys zs h =
    ap (join newline) (sym (append_assoc before (t ∷ []) ys))
    ∙ h (before ++ t ∷ [])
    ∙ ap (join newline) (append_assoc before (t ∷ []) zs)

-- One step of the outer loop, given the claim for the blocks behind it.
join-Grouped :
    (tools : Tools) (b : Block) (bs : List Block) (before : List Text) (g : Block × ℕ)
    → Grouped b bs g
    → ((skip : ℕ) (xs : List Text)
        → join newline (xs ++ texts (group_from tools skip bs))
          ≡ join newline (xs ++ texts (drop skip bs)))
    → join newline (before ++ texts (g.0 ∷ group_from tools g.1 bs))
      ≡ join newline (before ++ texts (b ∷ bs))
unfolding merge_run
join-Grouped tools b bs before g (alone e) ih = rw e (step_over b.text before _ _ (ih 0))
join-Grouped tools b bs before g (merged run numbers e prefix asc) ih = rw e (
    step_over (merge_run b run).text before _ _ (ih (length run))
    ∙ join-merge newline before (b.text ∷ texts run) (texts (drop (length run) bs)) refl
    ∙ ap (λ l. join newline (before ++ b.text ∷ l))
        (sym (map-append (λ x. x.text) run (drop (length run) bs)) ∙ ap texts prefix))

-- For every text before and every number of blocks already taken.
join-group_from :
    (tools : Tools) (skip : ℕ) (bs : List Block) (before : List Text)
    → join newline (before ++ texts (group_from tools skip bs))
      ≡ join newline (before ++ texts (drop skip bs))
unfolding group_from
join-group_from tools zero [] before = refl
join-group_from tools (suc skip) [] before = refl
join-group_from tools (suc skip) (b ∷ bs) before = join-group_from tools skip bs before
join-group_from tools zero (b ∷ bs) before =
    join-Grouped tools b bs before (group_at tools b bs) (group_at-Grouped tools b bs)
      (λ skip before'. join-group_from tools skip bs before')

-- Merging the numbered procedures of a document leaves its text as it was: the texts of the blocks,
-- joined by line breaks, are the same before and after.
pub join-group_numbered_procedures :
    (tools : Tools) (blocks : List Block)
    → join newline (texts (group_numbered_procedures tools blocks)) ≡ join newline (texts blocks)
unfolding group_numbered_procedures
join-group_numbered_procedures tools blocks = join-group_from tools 0 blocks []
