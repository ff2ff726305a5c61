-- ===== src/Retry/Ending.antt =====
-- How a run of `with_backoff` ends, and after how many calls.

use doc_chat_platform.Retry.{
  impatient, Policy, Jitter, Seconds, Failure, verdict, requested_wait, is_retryable, Verdict,
  is_rate_limit, server_retry_after, delay_of, fail, busy, wait, attempts_from, with_backoff,
  Outcome, Run, returned, respond, act, raised, rate_limited,
}
use doc_chat_platform.Base.{
  none, some, true, false, inl, inr, refl, arith, Bool, Option, ℕ, ◌≡◌, ◌≤◌, leb, ◌&&◌,
  if◌then◌else◌, ◌||◌, ◌*◌, Bool-cases, not, leb→le, if_ind, ◌<◌, [], zero, suc, ok, err, Result,
  ◌+◌, max, ◌∷◌, length,
}

-- Why a failure is the last one of a run.
pub data Reason (policy : Policy) (attempt : ℕ) (exc : Failure) : Type 0 where
  lasting : is_retryable exc ≡ false → Reason policy attempt exc
  out_of_attempts : policy.max_attempts ≤ attempt → Reason policy attempt exc
  too_long :
      policy.interactive ≡ true
      → is_rate_limit exc ≡ true
      → impatient (server_retry_after exc) attempt ≡ true
      → Reason policy attempt exc

-- What is slept after a failure that another attempt follows.
pub data Pause (policy : Policy) (jitter : Jitter) (attempt : ℕ) (exc : Failure) (d : Seconds)
    : Type 0 where
  backing_off :
      is_rate_limit exc ≡ false
      → d ≡ delay_of policy jitter attempt none
      → Pause policy jitter attempt exc d
  in_background :
      is_rate_limit exc ≡ true
      → policy.interactive ≡ false
      → d ≡ delay_of policy jitter attempt (server_retry_after exc)
      → Pause policy jitter attempt exc d
  short :
      (s : Seconds)
      → is_rate_limit exc ≡ true
      → attempt ≤ 1
      → server_retry_after exc ≡ some s
      → s.units ≤ 8 * s.scale
      → d ≡ delay_of policy jitter attempt (some s)
      → Pause policy jitter attempt exc d

data Judged (policy : Policy) (jitter : Jitter) (attempt : ℕ) (exc : Failure) (v : Verdict)
    : Type 0 where
  failing :
      v ≡ fail
      → is_rate_limit exc ≡ false
      → Reason policy attempt exc
      → Judged policy jitter attempt exc v
  being_busy :
      v ≡ busy (server_retry_after exc)
      → is_rate_limit exc ≡ true
      → Reason policy attempt exc
      → Judged policy jitter attempt exc v
  waiting :
      (d : Seconds)
      → v ≡ wait d
      → is_retryable exc ≡ true
      → attempt < policy.max_attempts
      → Pause policy jitter attempt exc d
      → Judged policy jitter attempt exc v

impatient-some :
    (o : Option Seconds) (attempt : ℕ)
    → impatient o attempt ≡ false
    → (s : Seconds) × (o ≡ some s) × (attempt ≤ 1) × (s.units ≤ 8 * s.scale)
unfolding impatient
impatient-some none attempt h = cc
impatient-some (some s) attempt h = (s, refl, ground arith, ground arith)

module _ (policy : Policy) (jitter : Jitter) (attempt : ℕ) (exc : Failure) where
  because :
      (leb policy.max_attempts attempt || not (is_retryable exc)) ≡ true → Reason policy attempt exc
  because h = elim (Bool-cases (leb policy.max_attempts attempt)) [
    | inl e ↦ out_of_attempts (leb→le _ _ e)
    | inr e ↦ lasting (ground (arith, e))
  ]

  paused :
      (limited : Bool)
      → is_rate_limit exc ≡ limited
      → (limited && (policy.interactive && impatient (requested_wait exc) attempt)) ≡ false
      → Pause policy jitter attempt exc (delay_of policy jitter attempt (requested_wait exc))
  unfolding requested_wait
  paused false e h = backing_off e (rw e)
  paused true e h = elim (Bool-cases policy.interactive) [
    | inr b ↦ in_background e b (rw e)
    | inl i ↦
        let c = impatient-some (server_retry_after exc) attempt (ground (arith, e, i)) in
        short c.0 e c.2 c.1 c.3 (rw e (rw c.1))
  ]

  given_up :
      (limited : Bool)
      → is_rate_limit exc ≡ limited
      → Reason policy attempt exc
      → Judged policy jitter attempt exc (if limited then busy (requested_wait exc) else fail)
  unfolding requested_wait
  given_up false e r = failing refl e r
  given_up true e r = being_busy (rw e) e r

  hurried :
      (is_rate_limit exc && (policy.interactive && impatient (requested_wait exc) attempt)) ≡ true
      → Judged policy jitter attempt exc (busy (requested_wait exc))
  unfolding requested_wait
  hurried h =
      let e : is_rate_limit exc ≡ true = ground arith in
      let i : policy.interactive ≡ true = ground arith in
      let long : impatient (server_retry_after exc) attempt ≡ true = ground arith in
      being_busy (rw e) e (too_long i e long)

  verdict-Judged : Judged policy jitter attempt exc (verdict policy jitter attempt exc)
  unfolding verdict
  verdict-Judged =
      if_ind (Judged policy jitter attempt exc)
        (is_rate_limit exc && (policy.interactive && impatient (requested_wait exc) attempt))
        hurried
        (λ h.
          if_ind (Judged policy jitter attempt exc)
            (leb policy.max_attempts attempt || not (is_retryable exc))
            (λ g. given_up (is_rate_limit exc) refl (because g))
            (λ g. waiting _ refl (ground arith) (ground arith) (paused (is_rate_limit exc) refl h)))

-- How the call whose answer is the last one ends the run.
pub data EndsAs {A : Type 0} (policy : Policy) (attempt : ℕ) (answer : Result Failure A)
    : Outcome A → Type 0 where
  by_answer :
      {o : Outcome A} (a : A) → answer ≡ ok a → o ≡ returned a → EndsAs policy attempt answer o
  by_failure :
      {o : Outcome A} (exc : Failure)
      → answer ≡ err exc
      → is_rate_limit exc ≡ false
      → Reason policy attempt exc
      → o ≡ raised exc
      → EndsAs policy attempt answer o
  by_rate_limit :
      {o : Outcome A} (exc : Failure)
      → answer ≡ err exc
      → is_rate_limit exc ≡ true
      → Reason policy attempt exc
      → o ≡ rate_limited (server_retry_after exc)
      → EndsAs policy attempt answer o

-- The runs that are allowed from the call `attempt` on.
pub data Allowed {A : Type 0} (policy : Policy) (jitter : Jitter) (answers : ℕ → Result Failure A)
    : ℕ → Run A → Type 0 where
  last :
      {attempt : ℕ} {r : Run A}
      → EndsAs policy attempt (answers attempt) r.outcome
      → r.calls ≡ attempt
      → r.sleeps ≡ []
      → Allowed policy jitter answers attempt r
  again :
      {attempt : ℕ} {r : Run A} (exc : Failure) (d : Seconds) (rest : Run A)
      → answers attempt ≡ err exc
      → is_retryable exc ≡ true
      → attempt < policy.max_attempts
      → Pause policy jitter attempt exc d
      → Allowed policy jitter answers (suc attempt) rest
      → r ≡ record rest { sleeps = d ∷ rest.sleeps }
      → Allowed policy jitter answers attempt r

module _ {A : Type 0} (policy : Policy) (jitter : Jitter) (answers : ℕ → Result Failure A) where
  acted-Allowed :
      (attempt : ℕ) (exc : Failure) (rest : Run A) {v : Verdict}
      → answers attempt ≡ err exc
      → Judged policy jitter attempt exc v
      → (attempt < policy.max_attempts → Allowed policy jitter answers (suc attempt) rest)
      → Allowed policy jitter answers attempt (act policy jitter answers attempt exc rest v)
  acted-Allowed attempt exc rest e (failing v l r) k =
      rw v (last (by_failure exc e l r refl) refl refl)
  acted-Allowed attempt exc rest e (being_busy v l r) k =
      rw v (last (by_rate_limit exc e l r refl) refl refl)
  acted-Allowed attempt exc rest e (waiting d v retry lt pause) k =
      rw v (again exc d rest e retry lt pause (k lt) refl)

  respond-Allowed :
      (attempt : ℕ) (rest : Run A) (answer : Result Failure A)
      → answers attempt ≡ answer
      → (attempt < policy.max_attempts → Allowed policy jitter answers (suc attempt) rest)
      → Allowed policy jitter answers attempt (respond policy jitter answers attempt rest answer)
  respond-Allowed attempt rest (ok a) e k = last (by_answer a e refl) refl refl
  respond-Allowed attempt rest (err exc) e k =
      acted-Allowed attempt exc rest e (verdict-Judged policy jitter attempt exc) k

  attempts_from-Allowed :
      (fuel made : ℕ)
      → made < suc policy.max_attempts
      → suc policy.max_attempts ≤ made + fuel
      → Allowed policy jitter answers (suc made) (attempts_from policy jitter answers fuel made)
  unfolding attempts_from
  attempts_from-Allowed zero made lt le = absurd (omega arith)
  attempts_from-Allowed (suc fuel) made lt le =
      respond-Allowed (suc made) (attempts_from policy jitter answers fuel (suc made))
        (answers (suc made)) refl
        (λ h. attempts_from-Allowed fuel (suc made) (omega arith) (omega arith))

  -- A run of `with_backoff` calls the operation until a call answers, or fails for a reason to give
  -- up: the failure is a lasting one, the attempts are used up, or a person is waiting and the
  -- provider names no wait, a wait over 8 seconds, or fails a second time. It then returns that
  -- answer, or raises that failure, as RateLimited with the provider's wait if it is a rate limit.
  -- Each failure before is a transient one, and is slept on: by the local backoff, for the wait that
  -- the provider names and the jitter, or, with a person waiting, only after the first call. The
  -- loop is never cut off by its fuel.
  pub with_backoff-Allowed : Allowed policy jitter answers 1 (with_backoff policy jitter answers)
  unfolding with_backoff
  with_backoff-Allowed =
      attempts_from-Allowed (suc policy.max_attempts) 0 (omega arith) (omega arith)

  Allowed-calls :
      {attempt : ℕ} {r : Run A}
      → Allowed policy jitter answers attempt r
      → attempt ≤ max 1 policy.max_attempts
      → (attempt ≤ r.calls)
        × (r.calls ≤ max 1 policy.max_attempts)
        × (length r.sleeps + attempt ≡ r.calls)
  Allowed-calls (last ends c s) h = (omega (arith, c), omega (arith, c), rw s (omega (arith, c)))
  Allowed-calls (again exc d rest e retry lt pause r eq) h =
      let ih = Allowed-calls r (omega arith) in
      rw eq (omega (arith, ih), omega (arith, ih), omega (arith, ih))

  -- `with_backoff` ends after one call at least and `max_attempts` calls at most, or one call where
  -- `max_attempts` is 0, and has slept once between two calls.
  pub with_backoff_calls :
      let r = with_backoff policy jitter answers in
      (1 ≤ r.calls) × (r.calls ≤ max 1 policy.max_attempts) × (length r.sleeps + 1 ≡ r.calls)
  with_backoff_calls = Allowed-calls with_backoff-Allowed (omega arith)
