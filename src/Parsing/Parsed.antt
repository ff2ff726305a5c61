-- ===== src/Parsing/Parsed.antt =====
-- What a text or a Markdown file says stands in the blocks that TextParser makes of it.
use doc_chat_platform.Parsing.{match_heading}
use doc_chat_platform.Parsing.Titles.{unmarked, Titled, unmarked-lines, All-Titled}
use doc_chat_platform.Parsing.Content.{written, spoken, written-markdown_to_blocks}
use doc_chat_platform.Mime.{normalise}
use mathlib.Core.Path.{subst}
use doc_chat_platform.Text.Squeezing.{gather, squeeze, squeeze-blank, squeeze-strip}
use doc_chat_platform.Text.{Text, is_space, cons_first, strip, text_eq, splitlines}
use doc_chat_platform.Sql.{delete_where}
use doc_chat_platform.Base.{
  [], none, some, true, false, zero, suc, inl, inr, refl, List, Option, ℕ, ◌≡◌, ◌==◌, drop, ◌∷◌,
  if◌then◌else◌, Bool-cases, or_option, sym, ◌∙◌, ==_iff, ap, is_empty, ◌++◌, All,
}
use doc_chat_platform.Parsing.Plain.{
  parse_text, split_paragraphs, break_length, break_after, one_more, paragraph_blocks, is_markdown,
}

longer_break :
    (c : ℕ) (cs : Text) (n : ℕ) (o : Option ℕ)
    → or_option (one_more o) (if c == 10 then some 1 else none) ≡ some n
    → ((m : ℕ) → o ≡ some m → squeeze (drop m cs) ≡ squeeze cs)
    → squeeze (drop n (c ∷ cs)) ≡ squeeze cs
longer_break c cs n none k ih =
    let e : 1 ≡ n = elim (Bool-cases (c == 10)) [
      | inl z ↦ cc (rw z at k)
      | inr z ↦ cc (rw z at k)
    ] in
    subst (λ m. squeeze (drop m (c ∷ cs)) ≡ squeeze cs) e refl
longer_break c cs n (some m) k ih =
    let e : suc m ≡ n = cc in subst (λ l. squeeze (drop l (c ∷ cs)) ≡ squeeze cs) e (ih m refl)

break_length-white : (t : Text) (n : ℕ) → break_length t ≡ some n → squeeze (drop n t) ≡ squeeze t
unfolding break_length delete_where
break_length-white [] n h = cc
break_length-white (c ∷ cs) n h = elim (Bool-cases (is_space c)) [
  | inl e ↦ rw e (longer_break c cs n (break_length cs) (rw e at h) (break_length-white cs))
  | inr e ↦ cc (rw e at h)
]

gather-cons_first :
    (c : ℕ) (ts : List Text)
    → gather (cons_first c ts) ≡ (if is_space c then gather ts else c ∷ gather ts)
unfolding delete_where
gather-cons_first c ts = elim (Bool-cases (is_space c)) [
  | inl e ↦ rw e (white ts e)
  | inr e ↦ rw e (shown ts e)
]
  where
    white : (ts : List Text) → is_space c ≡ true → gather (cons_first c ts) ≡ gather ts
    white [] e = rw e refl
    white (t ∷ ts) e = rw e refl

    shown : (ts : List Text) → is_space c ≡ false → gather (cons_first c ts) ≡ c ∷ gather ts
    shown [] e = rw e refl
    shown (t ∷ ts) e = rw e refl

squeeze-line_end : (c : ℕ) (t : Text) → (c == 10) ≡ true → squeeze (c ∷ t) ≡ squeeze t
unfolding delete_where is_space
squeeze-line_end c t e = subst (λ d. squeeze (d ∷ t) ≡ squeeze t) (sym ((==_iff c 10).0 e)) refl

split_line :
    (c : ℕ) (cs : Text) (o : Option ℕ)
    → (if c == 10 then break_length cs else none) ≡ o
    → ((n : ℕ) → gather (split_paragraphs n cs) ≡ squeeze (drop n cs))
    → gather (elim o [
      | none ↦ cons_first c (split_paragraphs zero cs)
      | some n ↦ [] ∷ split_paragraphs n cs
    ])
      ≡ squeeze (c ∷ cs)
unfolding delete_where
split_line c cs none e ih =
    gather-cons_first c (split_paragraphs zero cs)
    ∙ ap (λ r. if is_space c then r else c ∷ r) (ih zero)
split_line c cs (some n) e ih = elim (Bool-cases (c == 10)) [
  | inl z ↦ ih n ∙ break_length-white cs n (rw z at e) ∙ sym (squeeze-line_end c cs z)
  | inr z ↦ cc (rw z at e)
]

gather-split_paragraphs : (n : ℕ) (t : Text) → gather (split_paragraphs n t) ≡ squeeze (drop n t)
unfolding split_paragraphs delete_where break_after
gather-split_paragraphs zero [] = refl
gather-split_paragraphs (suc n) [] = refl
gather-split_paragraphs (suc n) (c ∷ cs) = gather-split_paragraphs n cs
gather-split_paragraphs zero (c ∷ cs) =
    split_line c cs (break_after c cs) refl (λ n. gather-split_paragraphs n cs)

written-paragraphs : (ts : List Text) → written (paragraph_blocks ts) ≡ gather ts
unfolding strip
written-paragraphs [] = refl
written-paragraphs (t ∷ ts) = elim (Bool-cases (is_empty (strip t))) [
  | inl e ↦ rw e (written-paragraphs ts ∙ ap (λ r. r ++ gather ts) (sym (squeeze-blank t e)))
  | inr e ↦ rw e (
      ap (◌++◌ (squeeze (strip t))) (written-paragraphs ts)
      ∙ ap (λ r. r ++ gather ts) (squeeze-strip t))
]

-- A document that was parsed as text has the text as its Markdown. Its blocks hold all of the text
-- but white space and hashes, each character once and in its order. They hold the hashes too: all of
-- plain text, and of a Markdown file what its lines say, a heading its title and any other line
-- itself. A line that is a heading of a level from 1 to 6 is so many hashes, its title, and hashes
-- that close it, and nothing else but white space.
pub parse_text-written :
    (t mime_type : Text)
    → let d = parse_text t mime_type in
      (d.markdown ≡ t)
      × (unmarked (written d.blocks) ≡ unmarked (squeeze t))
      × (written d.blocks
          ≡ (if is_markdown mime_type then spoken false (splitlines t) else squeeze t))
      × All (λ line. Titled line (match_heading line)) (splitlines t)
unfolding parse_text normalise text_eq
parse_text-written t mime_type = (
  refl,
  elim (Bool-cases (is_markdown mime_type)) [
    | inl e ↦ rw e (ap unmarked (written-markdown_to_blocks t) ∙ unmarked-lines t)
    | inr e ↦ rw e (ap unmarked plain)
  ],
  elim (Bool-cases (is_markdown mime_type)) [
    | inl e ↦ rw e (written-markdown_to_blocks t)
    | inr e ↦ rw e plain
  ],
  All-Titled (splitlines t),
)
  where
    plain : written (paragraph_blocks (split_paragraphs 0 t)) ≡ squeeze t
    plain = written-paragraphs (split_paragraphs 0 t) ∙ gather-split_paragraphs 0 t
