-- ===== src/Tokens/Additive.antt =====
-- The estimate is additive across a join, on which the packing of text into chunks rests.
use doc_chat_platform.Base.{
  [], arith, List, ℕ, ◌++◌, length, ◌∷◌, ◌≤◌, ◌≡◌, if◌then◌else◌, ◌+◌, append-nil, length-append,
}
use doc_chat_platform.Text.{Text, is_space, open_words, split, push_word}
use doc_chat_platform.Tokens.{estimate_tokens, Tools, default_tools}

-- Joining two texts by a separator never takes more tokens than the three apart.
pub record IsAdditive (tools : Tools) : Type 0 where
  pub count-join :
      (a sep b : Text)
      → tools.count_tokens (a ++ (sep ++ b))
        ≤ tools.count_tokens a + tools.count_tokens sep + tools.count_tokens b

abbrev count_open : Text → ℕ
count_open [] = 0
count_open (c ∷ w) = 1

abbrev closed : Text → ℕ
closed t = length (open_words t).1

length-push_word : (w : Text) (ws : List Text) → length (push_word w ws) ≡ count_open w + length ws
length-push_word [] ws = omega arith
length-push_word (c ∷ w) ws = omega arith

opening : Text → ℕ
opening t = count_open (open_words t).0

words-split : (t : Text) → length (split t) ≡ opening t + closed t
unfolding split opening
words-split t = length-push_word (open_words t).0 (open_words t).1

opening-cons : (c : ℕ) (t : Text) → opening (c ∷ t) ≡ (if is_space c then 0 else 1)
unfolding opening open_words
opening-cons c t = ground arith

closed-cons :
    (c : ℕ) (t : Text) → closed (c ∷ t) ≡ (if is_space c then opening t + closed t else closed t)
unfolding opening open_words
closed-cons c t = ground (arith, length-push_word (open_words t).0 (open_words t).1)

-- A word that the cut goes through is counted on both sides, no other word is counted twice.
words-append :
    (a b : Text)
    → (opening (a ++ b) + closed (a ++ b) ≤ opening a + closed a + (opening b + closed b))
      × (closed (a ++ b) ≤ closed a + (opening b + closed b))
words-append [] b = unfold opening open_words in (omega arith, omega arith)
words-append (c ∷ a) b =
    let ih = words-append a b in
    ground (
      arith,
      opening-cons c a,
      closed-cons c a,
      opening-cons c (a ++ b),
      closed-cons c (a ++ b),
      ih.0,
      ih.1,
    )

pub length-split-append :
    (a b : Text) → length (split (a ++ b)) ≤ length (split a) + length (split b)
length-split-append a b =
    omega (arith, words-split a, words-split b, words-split (a ++ b), words-append a b)

estimate-append : (a b : Text) → estimate_tokens (a ++ b) ≤ estimate_tokens a + estimate_tokens b
unfolding estimate_tokens split
estimate-append [] b = omega arith
estimate-append (c ∷ a) [] = rw append-nil (omega arith)
estimate-append (c ∷ a) (d ∷ b) =
    omega (arith, length-append (c ∷ a) (d ∷ b), length-split-append (c ∷ a) (d ∷ b))

-- The estimate that the program installs by default is additive: joining texts by any separator
-- takes no more estimated tokens than the texts and the separator take one by one.
pub default_tools-IsAdditive : IsAdditive default_tools
default_tools-IsAdditive = record {
  count-join = λ a sep b. omega (arith, estimate-append a (sep ++ b), estimate-append sep b);
}
