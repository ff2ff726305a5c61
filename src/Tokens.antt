-- ===== src/Tokens.antt =====
-- app/pipeline/tokens.py: the estimate of a text's token count, and the counter that a deployment
-- may install in its place. Every stage that sizes text takes the installed tools as an argument.
pub mod Additive
use doc_chat_platform.Base.{
  Bool, ℕ, if◌then◌else◌, ◌*◌, leb, length, ◌&&◌, is_empty, max, ◌+◌, ◌||◌, ◌==◌, ◌/◌,
}
use doc_chat_platform.Text.{Text, split}

-- Characters per token are 3.5 and tokens per word 1.3: the two quotients, rounded up. The sizes
-- are below 2 ^ 50, where the program's floating point gives the same whole numbers.
abbrev pub tokens_by_chars : Text → ℕ
tokens_by_chars t = (2 * length t + 6) / 7

abbrev pub tokens_by_words : Text → ℕ
tokens_by_words t = (13 * length (split t) + 9) / 10

unfoldable pub estimate_tokens : Text → ℕ
estimate_tokens t = if is_empty t then 0 else max 1 (max (tokens_by_chars t) (tokens_by_words t))

-- `_counter`, with the class `\w` of `re` beside it: letters, digits and the underscore of Unicode.
pub record Tools : Type 0 where
  pub count_tokens : Text → ℕ
  pub is_word : ℕ → Bool

-- `set_token_counter`
unfoldable pub set_token_counter : (Text → ℕ) → Tools → Tools
set_token_counter counter tools = record tools { count_tokens = counter }

-- The class `\w` of ASCII.
abbrev pub is_ascii_word : ℕ → Bool
is_ascii_word c =
    (leb b'0' c && leb c b'9')
    || ((leb b'A' c && leb c b'Z') || ((leb b'a' c && leb c b'z') || c == b'_'))

abbrev pub default_tools : Tools
default_tools = record { count_tokens = estimate_tokens; is_word = is_ascii_word }
