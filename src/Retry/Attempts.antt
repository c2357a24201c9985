-- ===== src/Retry/Attempts.antt =====
-- How often a retry policy lets an operation be repeated.
use xkit.Prelude.{
  ℕ, ◌+◌, ◌-◌, ◌<◌, ◌≡◌, refl, Bool, true, false, ◌&&◌, ◌||◌, Option, none, some, List, [], ◌∷◌, ℤ,
  pos, pos_part, if◌then◌else◌, min, max, arith,
}
use xkit.Retry.{
  Link, RetryPolicy, fixed_retry, always_retry, never_retry, new_fixed_retry, max_attempts,
  should_retry, retry_if, is_retryable, is_permanent, has_context_error,
}

-- A failure, nil or the chain of an error.
abbrev Failure : Type 0
Failure = Option (List Link)

-- A failure with an error of a context in its chain.
abbrev pub ends_context : Failure → Bool
ends_context none = false
ends_context (some e) = has_context_error e

-- The number of repetitions, where the attempts fail with these errors in turn and `done` failures
-- came before: the callback is asked after each failure, and the first refusal ends the attempts.
pub repetitions : RetryPolicy → (Failure → Bool) → ℕ → List Failure → ℕ
repetitions policy is_recoverable done [] = 0
repetitions policy is_recoverable done (e ∷ es) =
    let rest = repetitions policy is_recoverable (done + 1) es in
    if retry_if policy is_recoverable (pos (done + 1)) e then rest + 1 else 0

-- The number of errors, from the first on, that may be retried.
pub retryable_prefix : (Failure → Bool) → List Failure → ℕ
retryable_prefix is_recoverable [] = 0
retryable_prefix is_recoverable (e ∷ es) =
    let rest = retryable_prefix is_recoverable es in
    if is_recoverable e && is_retryable e then rest + 1 else 0

repetitions-fixed :
    (limit : ℕ) (is_recoverable : Failure → Bool) (done : ℕ) (es : List Failure)
    → 0 < limit
    → repetitions (fixed_retry (pos limit)) is_recoverable done es
      ≡ min (limit - (done + 1)) (retryable_prefix is_recoverable es)
unfolding repetitions retryable_prefix retry_if max_attempts should_retry
repetitions-fixed limit is_recoverable done [] p = omega arith
repetitions-fixed limit is_recoverable done (e ∷ es) p =
    let rest = repetitions-fixed limit is_recoverable (done + 1) es p in ground (arith, rest)

repetitions-always :
    (is_recoverable : Failure → Bool) (done : ℕ) (es : List Failure)
    → repetitions always_retry is_recoverable done es ≡ retryable_prefix is_recoverable es
unfolding repetitions retryable_prefix retry_if max_attempts should_retry
repetitions-always is_recoverable done [] = refl
repetitions-always is_recoverable done (e ∷ es) =
    let rest = repetitions-always is_recoverable (done + 1) es in ground (arith, rest)

repetitions-never :
    (is_recoverable : Failure → Bool) (done : ℕ) (es : List Failure)
    → repetitions never_retry is_recoverable done es ≡ 0
unfolding repetitions retry_if max_attempts should_retry
repetitions-never is_recoverable done [] = refl
repetitions-never is_recoverable done (e ∷ es) = ground arith

-- Whichever errors retry-go holds to be unrecoverable, and whichever errors the attempts end with:
-- FixedRetry of n lets the operation run again after each failure up to the first error that may
-- not be retried, but at most max(1, n) - 1 times; AlwaysRetry up to that error; NeverRetry never.
pub policies_allow :
    (n : ℤ) (is_recoverable : Failure → Bool) (es : List Failure)
    → let wanted = retryable_prefix is_recoverable es in
      (repetitions (new_fixed_retry n) is_recoverable 0 es ≡ min (max 1 (pos_part n) - 1) wanted)
      × (repetitions always_retry is_recoverable 0 es ≡ wanted)
      × (repetitions never_retry is_recoverable 0 es ≡ 0)
unfolding new_fixed_retry
policies_allow n is_recoverable es = ground (
  arith,
  repetitions-fixed (max 1 (pos_part n)) is_recoverable 0 es (omega arith),
  repetitions-always is_recoverable 0 es,
  repetitions-never is_recoverable 0 es,
)

-- No policy retries an error that IsPermanent holds of, or that has one of the errors of a context
-- in its chain.
pub retry_if-permanent :
    (policy : RetryPolicy) (is_recoverable : Failure → Bool) (count : ℤ) (e : Failure)
    → (is_permanent e || ends_context e) ≡ true
    → retry_if policy is_recoverable count e ≡ false
unfolding retry_if should_retry is_retryable is_permanent
retry_if-permanent policy is_recoverable count none h = absurd (ground arith)
retry_if-permanent policy is_recoverable count (some e) h = ground arith
