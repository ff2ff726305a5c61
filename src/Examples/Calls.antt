-- ===== src/Examples/Calls.antt =====
-- Calls of a provider that fail, and hashes of passwords.
use doc_chat_platform.Security.Verifying.{verify_password-hash_password}
use doc_chat_platform.Security.Encoding.{unb64-b64, IsBytes}
use doc_chat_platform.Text.{decimal, codes, lstrip, is_space}
use doc_chat_platform.Retry.Ending.{Allowed, with_backoff-Allowed, with_backoff_calls}
use doc_chat_platform.Retry.{
  Failure, Jitter, busy_message, with_backoff, Policy, parse_float, server_retry_after, whole,
  is_retryable, absent, number, is_rate_limit, delay_of, rate_limited, returned,
}
use doc_chat_platform.Security.{Hashes, hash_password, unb64, verify_password, Bytes, b64}
use doc_chat_platform.Base.{
  [], none, some, true, false, refl, arith, ok, err, Option, ℕ, length, ◌≤◌, Result, ◌∷◌, ◌≡◌,
  if◌then◌else◌, max, ◌%◌, ◌↔◌, ◌==◌, ◌+◌,
}

abbrev busy_failure : Failure
busy_failure = record {
  code = absent;
  status_code = number 429;
  response_status = absent;
  is_os_error = false;
  class_names = codes "ClientError" ∷ codes "Exception" ∷ [];
  message = codes "429 RESOURCE_EXHAUSTED. Please retry in 53.57s.";
}

abbrev policy : Policy
policy = record {
  interactive = false;
  max_attempts = 3;
  base_delay = whole 1;
  max_delay = whole 60;
}

abbrev jitter : Jitter
jitter = record { uniform = λ n. whole 1; random = λ n. record { units = 1; scale = 2 } }

-- The first call fails, the second one answers.
answers : ℕ → Result Failure ℕ
answers n = if n == 2 then ok 7 else err busy_failure

names_its_wait : server_retry_after busy_failure ≡ some (record { units = 5357; scale = 100 })
unfolding server_retry_after lstrip is_space
names_its_wait = refl

second_call_answers :
    with_backoff policy jitter answers
    ≡ record { outcome = returned 7; calls = 2; sleeps = record { units = 5457; scale = 100 } ∷ [] }
unfolding with_backoff answers is_retryable is_rate_limit server_retry_after delay_of lstrip
    is_space
second_call_answers = refl

-- With a person waiting the first failure is raised.
raised_at_once : with_backoff (record policy { interactive = true }) jitter answers ≡ record {
  outcome = rate_limited (some (record { units = 5357; scale = 100 }));
  calls = 1;
  sleeps = [];
}
unfolding with_backoff answers is_retryable is_rate_limit server_retry_after delay_of lstrip
    is_space
raised_at_once = refl

said_to_the_person :
    busy_message (some (record { units = 5357; scale = 100 }))
    ≡ codes "The AI service is at its request limit right now. Try again in about 54 seconds."
unfolding busy_message decimal
said_to_the_person = refl

two_points : parse_float (codes "1.2.3") ≡ none
unfolding parse_float
two_points = refl

with_backoff-Allowed_example : Allowed policy jitter answers 1 (with_backoff policy jitter answers)
with_backoff-Allowed_example = with_backoff-Allowed policy jitter answers

with_backoff_calls_example :
    let r = with_backoff policy jitter answers in
    (1 ≤ r.calls) × (r.calls ≤ max 1 3) × (length r.sleeps + 1 ≡ r.calls)
with_backoff_calls_example = with_backoff_calls policy jitter answers

-- A scrypt that gives each password its own key, and a SHA-256 that gives a token back.
abbrev pub toy_hashes : Hashes
toy_hashes = record {
  scrypt = λ password salt n r p. some (length password % 256 ∷ 0 ∷ []);
  sha256 = λ t. t;
}

abbrev pub salt : Bytes
salt = 1 ∷ 250 ∷ 7 ∷ 0 ∷ []

encodes : b64 salt ≡ codes "AfoHAA"
unfolding b64
encodes = refl

unb64-b64_example : unb64 (b64 salt) ≡ some salt
unb64-b64_example = unb64-b64 salt (omega arith)

hash_of_secret :
    hash_password toy_hashes salt (codes "secret") ≡ ok (codes "scrypt$16384$8$1$AfoHAA$BgA")
unfolding hash_password b64
hash_of_secret = refl

pub toy_keys :
    (n : ℕ) (key : Bytes)
    → ◌≡◌ {A = Option Bytes} (some (n % 256 ∷ 0 ∷ [])) (some key)
    → IsBytes key
toy_keys n key e =
    let same : key ≡ n % 256 ∷ 0 ∷ [] = cc in rw same (omega arith, (omega arith, tt))

verify_password-hash_password_example :
    (verify_password toy_hashes (codes "public") (codes "scrypt$16384$8$1$AfoHAA$BgA") ≡ true) ↔ (
      toy_hashes.scrypt (codes "public") salt 16384 8 1
      ≡ toy_hashes.scrypt (codes "secret") salt 16384 8 1)
verify_password-hash_password_example =
    verify_password-hash_password toy_hashes salt (codes "secret") (codes "public") (toy_keys 6)
      (omega arith) hash_of_secret
