-- ===== src/Parsing/Titles.antt =====
-- What a heading's line says but its marks: the line is hashes, the title, and hashes again.
use doc_chat_platform.Text.Squeezing.{
  squeeze, gather, squeeze-append, squeeze-lstrip, squeeze-strip, squeeze-rstrip,
}
use doc_chat_platform.Sql.{delete_where}
use doc_chat_platform.Text.{Text, is_space, splitlines, strip, rstrip, lstrip}
use doc_chat_platform.Parsing.{
  match_heading, leading_hashes, drop_hashes, Heading, is_fence, opens_with_space,
}
use doc_chat_platform.Parsing.Content.{spoken, said_in, said}
use doc_chat_platform.Splitting.Content.{gather-splitlines}
use doc_chat_platform.Base.{
  ◌∷◌, [], none, some, true, false, zero, suc, inl, inr, refl, arith, Bool, List, Option, ℕ, ◌++◌,
  ◌==◌, leb, if_ind, All, ◌≡◌, ◌∙◌, Bool-cases, ◌&&◌, ap, sym, if◌then◌else◌, ◌≤◌, ==_iff,
  append-nil, is_empty, not,
}

abbrev pub marks : ℕ → Text
marks zero = []
marks (suc n) = b'#' ∷ marks n

-- A text without its hashes.
abbrev pub unmarked : Text → Text
unmarked t = delete_where (λ c. c == b'#') t

-- A line that is a heading of a level opens with so many hashes, and nothing stands around its title
-- but them, hashes at the end, and white space.
abbrev pub Titled : Text → Option Heading → Type 0
Titled line none = Unit
Titled line (some h) =
    (1 ≤ h.level)
    × (h.level ≤ 6)
    × (closing : ℕ) × (squeeze line ≡ marks h.level ++ (squeeze h.title ++ marks closing))

leading_hashes_lem : (t : Text) → t ≡ marks (leading_hashes t).0 ++ (leading_hashes t).1
unfolding leading_hashes
leading_hashes_lem [] = refl
leading_hashes_lem (c ∷ cs) = elim (Bool-cases (c == b'#')) [
  | inl e ↦ rw (e, (==_iff c b'#').0 e) (ap (◌∷◌ b'#') (leading_hashes_lem cs))
  | inr e ↦ rw e refl
]

drop_hashes_lem : (t : Text) → (m : ℕ) × (t ≡ drop_hashes t ++ marks m)
unfolding drop_hashes
drop_hashes_lem [] = (0, refl)
drop_hashes_lem (c ∷ cs) = dropped (drop_hashes cs) (drop_hashes_lem cs)
  where
    dropped :
        (rest : Text)
        → (m : ℕ) × (cs ≡ rest ++ marks m)
        → (m : ℕ) × (c ∷ cs ≡ (if is_empty rest && c == b'#' then [] else c ∷ rest) ++ marks m)
    dropped (d ∷ ds) h = (h.0, ap (◌∷◌ c) h.1)
    dropped [] h = elim (Bool-cases (c == b'#')) [
      | inl e ↦ rw e (suc h.0, rw ((==_iff c b'#').0 e) (ap (◌∷◌ b'#') h.1))
      | inr e ↦ rw e (h.0, ap (◌∷◌ c) h.1)
    ]

squeeze-marks : (n : ℕ) → squeeze (marks n) ≡ marks n
unfolding delete_where is_space
squeeze-marks zero = refl
squeeze-marks (suc n) = ap (◌∷◌ b'#') (squeeze-marks n)

-- What stands behind the hashes is the title and the closing ones.
behind_hashes :
    (rest : Text)
    → (m : ℕ) × (squeeze rest ≡ squeeze (strip (rstrip (drop_hashes (lstrip rest)))) ++ marks m)
behind_hashes rest =
    let body = drop_hashes (lstrip rest) in
    let d = drop_hashes_lem (lstrip rest) in
    (
      d.0,
      sym (squeeze-lstrip rest)
          ∙ ap squeeze d.1
          ∙ squeeze-append body (marks d.0)
          ∙ ap (◌++◌ (squeeze body)) (squeeze-marks d.0)
          ∙ ap (λ r. r ++ marks d.0) (sym (squeeze-strip (rstrip body) ∙ squeeze-rstrip body)),
    )

level_within : (n : ℕ) (b : Bool) → (leb 1 n && (leb n 6 && b)) ≡ true → (1 ≤ n) × (n ≤ 6)
level_within n b h = ground arith

pub match_heading-Titled : (line : Text) → Titled line (match_heading line)
unfolding match_heading
match_heading-Titled line =
    let r = leading_hashes line in
    let k = behind_hashes r.1 in
    if_ind (Titled line) (leb 1 r.0 && (leb r.0 6 && opens_with_space r.1))
      (λ e.
        let w = level_within r.0 (opens_with_space r.1) e in
        (
          w.0,
          w.1,
          k.0,
          ap squeeze (leading_hashes_lem line)
              ∙ squeeze-append (marks r.0) r.1
              ∙ ap (λ x. x ++ squeeze r.1) (squeeze-marks r.0)
              ∙ ap (◌++◌ (marks r.0)) k.1,
        ))
      (λ _. tt)

unmarked-append : (t u : Text) → unmarked (t ++ u) ≡ unmarked t ++ unmarked u
unfolding delete_where
unmarked-append [] u = refl
unmarked-append (c ∷ t) u = elim (Bool-cases (c == b'#')) [
  | inl e ↦ rw e (unmarked-append t u)
  | inr e ↦ rw e (ap (◌∷◌ c) (unmarked-append t u))
]

unmarked-marks : (n : ℕ) → unmarked (marks n) ≡ []
unfolding delete_where
unmarked-marks zero = refl
unmarked-marks (suc n) = unmarked-marks n

unmarked-said :
    (line : Text) (h : Option Heading)
    → Titled line h
    → unmarked (said line h) ≡ unmarked (squeeze line)
unmarked-said line none t = refl
unmarked-said line (some h) t = sym (
    ap unmarked t.3
    ∙ unmarked-append (marks h.level) (squeeze h.title ++ marks t.2)
    ∙ ap (λ r. r ++ unmarked (squeeze h.title ++ marks t.2)) (unmarked-marks h.level)
    ∙ unmarked-append (squeeze h.title) (marks t.2)
    ∙ ap (◌++◌ (unmarked (squeeze h.title))) (unmarked-marks t.2)
    ∙ append-nil (unmarked (squeeze h.title)))

unmarked-said_in :
    (fenced : Bool) (line : Text) → unmarked (said_in fenced line) ≡ unmarked (squeeze line)
unmarked-said_in fenced line =
    if_ind (λ r. unmarked r ≡ unmarked (squeeze line)) (is_fence line) (λ _. refl)
      (λ _.
        if_ind (λ r. unmarked r ≡ unmarked (squeeze line)) fenced (λ _. refl)
          (λ _. unmarked-said line (match_heading line) (match_heading-Titled line)))

unmarked-spoken :
    (fenced : Bool) (lines : List Text) → unmarked (spoken fenced lines) ≡ unmarked (gather lines)
unfolding delete_where
unmarked-spoken fenced [] = refl
unmarked-spoken fenced (line ∷ lines) =
    let next = if is_fence line then not fenced else fenced in
    unmarked-append (said_in fenced line) (spoken next lines)
    ∙ ap (λ r. r ++ unmarked (spoken next lines)) (unmarked-said_in fenced line)
    ∙ ap (◌++◌ (unmarked (squeeze line))) (unmarked-spoken next lines)
    ∙ sym (unmarked-append (squeeze line) (gather lines))

-- The lines of a text say all of it but white space and hashes.
pub unmarked-lines : (t : Text) → unmarked (spoken false (splitlines t)) ≡ unmarked (squeeze t)
unmarked-lines t = unmarked-spoken false (splitlines t) ∙ ap unmarked (gather-splitlines t)

pub All-Titled : (lines : List Text) → All (λ line. Titled line (match_heading line)) lines
All-Titled [] = tt
All-Titled (line ∷ lines) = (match_heading-Titled line, All-Titled lines)
