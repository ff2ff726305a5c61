-- ===== src/Retry.antt =====
-- app/implementations/retry.py: which failures of a provider are worth another attempt, how long
-- the provider asked to wait, and the loop of `with_backoff`. The n-th call's answer, the jitter and
-- the context variable `_interactive` are arguments. Seconds are exact fractions in place of
-- floats. The log lines are left out.
pub mod Ending
pub mod Waiting
use doc_chat_platform.Text.{Text, lstrip, contains, codes, text_eq, lower, decimal}
use doc_chat_platform.Base.{
  [], none, some, true, false, zero, suc, ok, err, Bool, List, Option, ℕ, if◌then◌else◌, ◌*◌, ◌||◌,
  ◌∷◌, ◌^◌, ◌/◌, ltb, is_empty, any, ◌&&◌, Result, ◌+◌, ◌==◌, leb, all, ◌++◌, not, ◌-◌, ◌%◌, max,
  or_option,
}

-- A number of seconds, `units / scale`.
pub record Seconds : Type 0 where
  pub units : ℕ
  pub scale : ℕ

abbrev pub whole : ℕ → Seconds
whole n = record { units = n; scale = 1 }

-- The value of `getattr(exc, name, None)`: nothing or a falsy value, an int that is not 0, or any
-- other object.
pub data Attribute : Type 0 where
  absent : Attribute
  number : ℕ → Attribute
  other : Attribute

pub record Failure : Type 0 where
  pub code : Attribute
  pub status_code : Attribute
  pub response_status : Attribute
  pub is_os_error : Bool
  pub class_names : List Text
  pub message : Text

-- `getattr(exc, "code", None) or getattr(exc, "status_code", None)`
unfoldable pub or_attribute : Attribute → Attribute → Attribute
or_attribute absent b = b
or_attribute (number n) b = number n
or_attribute other b = other

abbrev retryable_status : List ℕ
retryable_status = 408 ∷ 429 ∷ 500 ∷ 502 ∷ 503 ∷ 504 ∷ []

abbrev retryable_text : List Text
retryable_text =
    codes "rate limit"
    ∷ codes "resource exhausted"
    ∷ codes "resource_exhausted"
    ∷ codes "deadline exceeded"
    ∷ codes "unavailable"
    ∷ codes "internal error"
    ∷ codes "overloaded"
    ∷ codes "timeout"
    ∷ codes "connection reset"
    ∷ []

abbrev retryable_types : List Text
retryable_types =
    codes "ReadError"
    ∷ codes "WriteError"
    ∷ codes "ConnectError"
    ∷ codes "CloseError"
    ∷ codes "ConnectTimeout"
    ∷ codes "ReadTimeout"
    ∷ codes "WriteTimeout"
    ∷ codes "PoolTimeout"
    ∷ codes "NetworkError"
    ∷ codes "ProxyError"
    ∷ codes "RemoteProtocolError"
    ∷ codes "TransportError"
    ∷ codes "ServerDisconnectedError"
    ∷ codes "IncompleteRead"
    ∷ []

unfoldable pub status_among : List ℕ → Attribute → Bool
status_among ns (number n) = any (λ m. n == m) ns
status_among ns _ = false

unfoldable pub is_retryable : Failure → Bool
unfolding or_attribute status_among
is_retryable exc =
    status_among retryable_status (or_attribute exc.code exc.status_code)
    || (status_among retryable_status exc.response_status
        || (exc.is_os_error
            || (any (λ name. any (text_eq name) retryable_types) exc.class_names
                || any (λ token. contains token (lower exc.message)) retryable_text)))

unfoldable pub is_rate_limit : Failure → Bool
unfolding or_attribute status_among
is_rate_limit exc =
    status_among (429 ∷ []) (or_attribute exc.code exc.status_code)
    || (contains (codes "resource_exhausted") (lower exc.message)
        || contains (codes "resource exhausted") (lower exc.message))

-- What `re.IGNORECASE` compares: a letter of ASCII in lower case, and the characters that it holds
-- equal to one.
unfoldable pub fold_case : ℕ → ℕ
fold_case c =
    if leb b'A' c && leb c b'Z'
    then c + 32
    else if c == 0x130 || c == 0x131
    then b'i'
    else if c == 0x17f
    then b's'
    else if c == 0x212a
    then b'k'
    else c

-- The text behind a word, given in lower case, that it opens with.
unfoldable pub after_word : Text → Text → Option Text
unfolding fold_case
after_word [] t = some t
after_word (p ∷ ps) [] = none
after_word (p ∷ ps) (c ∷ cs) = if fold_case c == p then after_word ps cs else none

abbrev in_number : ℕ → Bool
in_number c = (leb b'0' c && leb c b'9') || c == b'.'

-- `[0-9.]+` at its longest, and the text behind it
unfoldable pub number_run : Text → Text × Text
number_run [] = ([], [])
number_run (c ∷ cs) = let r = number_run cs in if in_number c then (c ∷ r.0, r.1) else ([], c ∷ cs)

unfoldable pub skip_quote : Text → Text
skip_quote [] = []
skip_quote (c ∷ cs) = if c == 39 || c == 34 then cs else c ∷ cs

unfoldable pub skip_separator : Text → Option Text
skip_separator [] = none
skip_separator (c ∷ cs) = if c == b':' || c == b'=' then some cs else none

-- The group of a match: a run that is not empty, with an `s` behind it.
abbrev pub group_before : Text → Option Text → Option Text
group_before run none = none
group_before run (some rest) = if is_empty run then none else some run

abbrev pub closed_run : Text → Text → Option Text
closed_run run rest = group_before run (after_word (codes "s") rest)

unfoldable pub retry_in_here : Text → Option Text
unfolding after_word number_run
retry_in_here t = from (after_word (codes "retry in ") t)
  where
    from : Option Text → Option Text
    from none = none
    from (some u) = closed_run (number_run u).0 (lstrip (number_run u).1)

unfoldable pub retry_delay_here : Text → Option Text
unfolding after_word number_run skip_quote skip_separator
retry_delay_here t = from (after_word (codes "retrydelay") t)
  where
    value : Option Text → Option Text
    value none = none
    value (some u) = let r = number_run (skip_quote (lstrip u)) in closed_run r.0 r.1

    from : Option Text → Option Text
    from none = none
    from (some u) = value (skip_separator (lstrip (skip_quote u)))

-- `pattern.search(text)`: the group of the first match
unfoldable pub search_group : (Text → Option Text) → Text → Option Text
search_group here [] = here []
search_group here (c ∷ cs) = or_option (here (c ∷ cs)) (search_group here cs)

-- `float(run)`: digits with one point at most, and a digit at least
unfoldable pub fraction : ℕ → ℕ → Text → Option Seconds
fraction n d [] = some (record { units = n; scale = d })
fraction n d (c ∷ cs) = if c == b'.' then none else fraction (n * 10 + (c - 48)) (d * 10) cs

unfoldable pub integral : ℕ → Text → Option Seconds
unfolding fraction
integral n [] = some (whole n)
integral n (c ∷ cs) = if c == b'.' then fraction n 1 cs else integral (n * 10 + (c - 48)) cs

unfoldable pub parse_float : Text → Option Seconds
unfolding integral
parse_float t = if all (λ c. c == b'.') t then none else integral 0 t

-- `min(value, _MAX_SERVER_DELAY)`
unfoldable pub capped : Seconds → Seconds
capped s = if ltb (65 * s.scale) s.units then whole 65 else s

unfoldable pub requested_by : (Text → Option Text) → Text → Option Seconds
unfolding search_group parse_float capped
requested_by here t = from (search_group here t)
  where
    bounded : Option Seconds → Option Seconds
    bounded none = none
    bounded (some s) = some (capped s)

    from : Option Text → Option Seconds
    from none = none
    from (some run) = bounded (parse_float run)

unfoldable pub server_retry_after : Failure → Option Seconds
unfolding requested_by retry_in_here retry_delay_here
server_retry_after exc =
    or_option (requested_by retry_in_here exc.message) (requested_by retry_delay_here exc.message)

-- `round`: to the nearest, and of two to the even one
unfoldable pub round_seconds : Seconds → ℕ
round_seconds s =
    let q = s.units / s.scale in
    let twice = 2 * (s.units % s.scale) in
    if ltb twice s.scale || (twice == s.scale && q % 2 == 0) then q else q + 1

-- The message of `RateLimited(retry_after)`; a wait of 0 is none.
unfoldable pub busy_message : Option Seconds → Text
unfolding round_seconds
busy_message requested = codes "The AI service is at its request limit right now." ++ wait requested
  where
    wait : Option Seconds → Text
    wait none = codes " Try again in a minute."
    wait (some s) =
        if s.units == 0
        then codes " Try again in a minute."
        else codes " Try again in about "
          ++ (decimal (max 1 (round_seconds s)) ++ codes " seconds.")

unfoldable pub add_seconds : Seconds → Seconds → Seconds
add_seconds a b = record {
  units = a.units * b.scale + b.units * a.scale;
  scale = a.scale * b.scale;
}

unfoldable pub times_seconds : Seconds → Seconds → Seconds
times_seconds a b = record { units = a.units * b.units; scale = a.scale * b.scale }

unfoldable pub min_seconds : Seconds → Seconds → Seconds
min_seconds a b = if ltb (b.units * a.scale) (a.units * b.scale) then b else a

-- How a run of `with_backoff` ends. `no_fuel` is no outcome of the program: the loop of the model
-- would end by it, and the theorems exclude it.
pub data Outcome (A : Type 0) : Type 0 where
  returned : A → Outcome A
  raised : Failure → Outcome A
  rate_limited : Option Seconds → Outcome A
  no_fuel : Outcome A

pub record Run (A : Type 0) : Type 0 where
  pub outcome : Outcome A
  pub calls : ℕ
  pub sleeps : List Seconds

-- `random.uniform(0.5, 2.0)` and `random.random()` after the n-th call
pub record Jitter : Type 0 where
  pub uniform : ℕ → Seconds
  pub random : ℕ → Seconds

pub record Policy : Type 0 where
  pub interactive : Bool
  pub max_attempts : ℕ
  pub base_delay : Seconds
  pub max_delay : Seconds

-- What the handler of the loop does with a failure: raise, or sleep and go on.
pub data Verdict : Type 0 where
  fail : Verdict
  busy : Option Seconds → Verdict
  wait : Seconds → Verdict

unfoldable pub requested_wait : Failure → Option Seconds
requested_wait exc = if is_rate_limit exc then server_retry_after exc else none

-- `requested is None or requested > INTERACTIVE_MAX_WAIT or attempt >= 2`
unfoldable pub impatient : Option Seconds → ℕ → Bool
impatient none attempt = true
impatient (some s) attempt = ltb (8 * s.scale) s.units || leb 2 attempt

unfoldable pub delay_of : Policy → Jitter → ℕ → Option Seconds → Seconds
unfolding add_seconds times_seconds min_seconds
delay_of policy jitter attempt (some s) = add_seconds s (jitter.uniform attempt)
delay_of policy jitter attempt none =
    times_seconds
      (min_seconds (times_seconds policy.base_delay (whole (2 ^ (attempt - 1)))) policy.max_delay)
      (add_seconds (record { units = 1; scale = 2 }) (jitter.random attempt))

unfoldable pub verdict : Policy → Jitter → ℕ → Failure → Verdict
unfolding requested_wait impatient
verdict policy jitter attempt exc =
    let limited = is_rate_limit exc in
    let requested = requested_wait exc in
    if limited && (policy.interactive && impatient requested attempt)
    then busy requested
    else if leb policy.max_attempts attempt || not (is_retryable exc)
    then (if limited then busy requested else fail)
    else wait (delay_of policy jitter attempt requested)

module _ {A : Type 0} (policy : Policy) (jitter : Jitter) (answers : ℕ → Result Failure A) where
  abbrev slept : Seconds → Run A → Run A
  slept d r = record r { sleeps = d ∷ r.sleeps }

  abbrev act : ℕ → Failure → Run A → Verdict → Run A
  act attempt exc rest fail = record { outcome = raised exc; calls = attempt; sleeps = [] }
  act attempt exc rest (busy s) = record { outcome = rate_limited s; calls = attempt; sleeps = [] }
  act attempt exc rest (wait d) = slept d rest

  abbrev respond : ℕ → Run A → Result Failure A → Run A
  respond attempt rest (ok a) = record { outcome = returned a; calls = attempt; sleeps = [] }
  respond attempt rest (err exc) = act attempt exc rest (verdict policy jitter attempt exc)

  -- The rounds behind those that `made` counts.
  unfoldable pub attempts_from : ℕ → ℕ → Run A
  unfolding verdict
  attempts_from zero made = record { outcome = no_fuel; calls = made; sleeps = [] }
  attempts_from (suc fuel) made =
      let rest = attempts_from fuel (suc made) in respond (suc made) rest (answers (suc made))

  unfoldable pub with_backoff : Run A
  unfolding attempts_from
  with_backoff = attempts_from (suc policy.max_attempts) 0
