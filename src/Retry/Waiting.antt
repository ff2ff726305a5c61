-- ===== src/Retry/Waiting.antt =====
-- How long `with_backoff` sleeps.
use doc_chat_platform.Retry.Ending.{
  Pause, backing_off, Allowed, in_background, last, with_backoff-Allowed, short, again,
}
use native.Mathlib.Nat.{mul-le-mul_left, mul-le-mul_right, le_of_mul-le-mul_right}
use doc_chat_platform.Text.{Text}
use doc_chat_platform.Retry.{
  requested_by, capped, add_seconds, server_retry_after, Seconds, times_seconds, Failure,
  retry_in_here, retry_delay_here, search_group, parse_float, Policy, min_seconds, Jitter, delay_of,
  Run, with_backoff,
}
use doc_chat_platform.Base.{
  none, some, inl, inr, arith, Option, ℕ, ◌≤◌, ◌+◌, or_option, ◌*◌, if_ind, Option-cases, ltb, ◌<◌,
  Result, All, max,
}

-- At most `n` seconds.
abbrev pub Within : ℕ → Seconds → Type 0
Within n s = s.units ≤ n * s.scale

capped-Within : (s : Seconds) → Within 65 (capped s)
unfolding capped
capped-Within s =
    if_ind (Within 65) (ltb (65 * s.scale) s.units) (λ h. omega arith) (λ h. ground arith)

data Bounded : Option Seconds → Type 0 where
  unsaid : Bounded none
  said : {s : Seconds} → Within 65 s → Bounded (some s)

requested_by-Bounded : (here : Text → Option Text) (t : Text) → Bounded (requested_by here t)
unfolding requested_by
requested_by-Bounded here t = elim (Option-cases (search_group here t)) [
  | inl e ↦ rw e unsaid
  | inr (run, e) ↦ elim (Option-cases (parse_float run)) [
    | inl f ↦ rw e (rw f unsaid)
    | inr (s, f) ↦ rw e (rw f (said (capped-Within s)))
  ]
]

or_option-Bounded : {a b : Option Seconds} → Bounded a → Bounded b → Bounded (or_option a b)
or_option-Bounded unsaid h = h
or_option-Bounded (said k) h = said k

server_retry_after-Bounded : (exc : Failure) → Bounded (server_retry_after exc)
unfolding server_retry_after
server_retry_after-Bounded exc =
    or_option-Bounded (requested_by-Bounded retry_in_here exc.message)
      (requested_by-Bounded retry_delay_here exc.message)

add_seconds-Within :
    (m n : ℕ) (a b : Seconds) → Within m a → Within n b → Within (m + n) (add_seconds a b)
unfolding add_seconds
add_seconds-Within m n a b h k =
    omega (arith, mul-le-mul_right b.scale h, mul-le-mul_right a.scale k)

min_seconds-Within : (n : ℕ) (a b : Seconds) → 0 < b.scale → Within n b → Within n (min_seconds a b)
unfolding min_seconds
min_seconds-Within n a b pos h =
    if_ind (Within n) (ltb (b.units * a.scale) (a.units * b.scale)) (λ _. h)
      (λ g.
        let below : a.units * b.scale ≤ b.units * a.scale = ground arith in
        le_of_mul-le-mul_right {k = b.scale} (omega (arith, below, mul-le-mul_right a.scale h)) pos)

widen : (m n : ℕ) (s : Seconds) → m ≤ n → Within m s → Within n s
widen m n s h k = omega (arith, mul-le-mul_right s.scale h)

-- 0.5 and at most 1 are at most 1.5.
half_and :
    (s : Seconds)
    → Within 1 s
    → let f = add_seconds (record { units = 1; scale = 2 }) s in f.units * 2 ≤ 3 * f.scale
unfolding add_seconds
half_and s h = omega arith

-- At most one and a half times.
half_more-Within :
    (h : ℕ) (a f : Seconds)
    → Within (2 * h) a
    → f.units * 2 ≤ 3 * f.scale
    → Within (3 * h) (times_seconds a f)
unfolding times_seconds
half_more-Within h a f p q = omega (arith, mul-le-mul_left a.units q, mul-le-mul_right f.scale p)

-- What every attempt's jitter keeps to, and the longest delay of the local backoff.
module _ (policy : Policy) (jitter : Jitter) (h : ℕ) (positive : 0 < policy.max_delay.scale)
    (longest : Within (2 * h) policy.max_delay) (uniform_le : (n : ℕ) → Within 2 (jitter.uniform n))
    (random_le : (n : ℕ) → Within 1 (jitter.random n)) where
  delay_of-Within :
      (attempt : ℕ) {o : Option Seconds}
      → Bounded o
      → Within (max 67 (3 * h)) (delay_of policy jitter attempt o)
  unfolding delay_of
  delay_of-Within attempt unsaid = widen (3 * h) _ _ (omega arith) (
      half_more-Within h _ _ (min_seconds-Within (2 * h) _ policy.max_delay positive longest)
        (half_and (jitter.random attempt) (random_le attempt)))
  delay_of-Within attempt (said k) =
      widen 67 _ _ (omega arith) (add_seconds-Within 65 2 _ _ k (uniform_le attempt))

  Pause-Within :
      {attempt : ℕ} {exc : Failure} {d : Seconds}
      → Pause policy jitter attempt exc d
      → Within (max 67 (3 * h)) d
  Pause-Within {attempt} (backing_off l e) = rw e (delay_of-Within attempt unsaid)
  Pause-Within {attempt} {exc} (in_background l i e) =
      rw e (delay_of-Within attempt (server_retry_after-Bounded exc))
  Pause-Within {attempt} (short s l lt e le d) = rw d (delay_of-Within attempt (said (omega arith)))

  Allowed-sleeps :
      {A : Type 0} {answers : ℕ → Result Failure A} {attempt : ℕ} {r : Run A}
      → Allowed policy jitter answers attempt r
      → All (Within (max 67 (3 * h))) r.sleeps
  Allowed-sleeps (last ends c s) = rw s tt
  Allowed-sleeps (again exc d rest e retry lt pause a eq) =
      rw eq (Pause-Within pause, Allowed-sleeps a)

  -- Where the local backoff is capped at `2 * h` seconds (`h` is 30 by default) and the jitter keeps
  -- to its ranges, no sleep of a run is longer than `3 * h` seconds or 67, whichever is more.
  pub with_backoff-sleeps :
      {A : Type 0} (answers : ℕ → Result Failure A)
      → All (Within (max 67 (3 * h))) (with_backoff policy jitter answers).sleeps
  with_backoff-sleeps answers = Allowed-sleeps (with_backoff-Allowed policy jitter answers)
