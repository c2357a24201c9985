-- ===== src/Retry.antt =====
-- pkg/resilience/xretry: the fixed, linear and empty backoffs of backoff.go, on Go's 64-bit
-- integers, and the retry policies of policies.go with the errors of errors.go.
pub mod Linear
pub mod Attempts
mod Examples
use xkit.Prelude.{
  add_64, sub_64, mul_64, div_64, ℕ, ◌+◌, ◌-◌, ◌*◌, ◌/◌, ◌%◌, ◌^◌, ◌<◌, ◌≤◌, Bool, true, false, not,
  ◌&&◌, ◌||◌, Option, none, some, List, [], ◌∷◌, ℤ, pos, negsuc, leb_ℤ, ltb_ℤ, ltb, if◌then◌else◌,
}

pub record LinearBackoff : Type 0 where
  pub initial_delay : ℤ
  pub increment : ℤ
  pub max_delay : ℤ

-- `if value < bound { value = bound }`
abbrev pub at_least : ℤ → ℤ → ℤ
at_least bound value = if ltb_ℤ value bound then bound else value

unfoldable pub new_linear_backoff : ℤ → ℤ → ℤ → LinearBackoff
new_linear_backoff initial_delay increment max_delay =
    let initial = at_least (pos 0) initial_delay in
    record {
      initial_delay = initial;
      increment = at_least (pos 0) increment;
      max_delay = at_least initial max_delay;
    }

-- The end of `NextDelay`.
unfoldable pub linear_delay : LinearBackoff → ℤ → ℤ
linear_delay b attempt =
    let delay = add_64 b.initial_delay (mul_64 b.increment (sub_64 attempt (pos 1))) in
    if ltb_ℤ b.max_delay delay then b.max_delay else delay

-- `NextDelay` after its first test, with attempt >= 1.
unfoldable pub next_delay_from : LinearBackoff → ℤ → ℤ
next_delay_from b attempt =
    let available = sub_64 b.max_delay b.initial_delay in
    if ltb_ℤ (pos 0) b.increment && ltb_ℤ (pos 1) attempt
    then (if ltb_ℤ available (pos 0)
        then b.max_delay
        else if ltb_ℤ (div_64 available b.increment) (sub_64 attempt (pos 1))
        then b.max_delay
        else linear_delay b attempt)
    else linear_delay b attempt

unfoldable pub next_delay : LinearBackoff → ℤ → ℤ
next_delay b attempt = next_delay_from b (at_least (pos 1) attempt)

-- What `errors.Is` and `errors.As` tell apart in the chain of an error, the outermost first: the two
-- errors of a context, the two types of this package, and all else.
pub data Link : Type 0 where
  canceled deadline_exceeded permanent_error temporary_error other : Link

abbrev is_context_error : Link → Bool
is_context_error canceled = true
is_context_error deadline_exceeded = true
is_context_error _ = false

abbrev pub has_context_error : List Link → Bool
has_context_error [] = false
has_context_error (l ∷ ls) = is_context_error l || has_context_error ls

-- `errors.As(err, &re)` and then `re.Retryable()`.
abbrev as_retryable : List Link → Option Bool
as_retryable [] = none
as_retryable (permanent_error ∷ ls) = some false
as_retryable (temporary_error ∷ ls) = some true
as_retryable (_ ∷ ls) = as_retryable ls

-- `none` is the nil error.
unfoldable pub is_retryable : Option (List Link) → Bool
is_retryable none = false
is_retryable (some e) =
    if has_context_error e then false else elim (as_retryable e) [ none ↦ true | some b ↦ b ]

unfoldable pub is_permanent : Option (List Link) → Bool
is_permanent none = false
is_permanent (some e) = elim (as_retryable e) [ none ↦ false | some b ↦ not b ]

-- FixedRetryPolicy, AlwaysRetryPolicy and NeverRetryPolicy.
pub data RetryPolicy : Type 0 where
  fixed_retry : ℤ → RetryPolicy
  always_retry never_retry : RetryPolicy

unfoldable pub new_fixed_retry : ℤ → RetryPolicy
new_fixed_retry n = fixed_retry (at_least (pos 1) n)

unfoldable pub max_attempts : RetryPolicy → ℤ
max_attempts (fixed_retry n) = n
max_attempts always_retry = pos 0
max_attempts never_retry = pos 1

unfoldable pub should_retry : RetryPolicy → ℤ → Option (List Link) → Bool
unfolding is_retryable
should_retry (fixed_retry n) attempt e = if leb_ℤ n attempt then false else is_retryable e
should_retry always_retry attempt e = is_retryable e
should_retry never_retry attempt e = false

-- The `RetryIf` callback of `buildOptions` at the failure number `count`. Whether retry-go marked
-- the error as unrecoverable is a parameter.
unfoldable pub retry_if : RetryPolicy → (Option (List Link) → Bool) → ℤ → Option (List Link) → Bool
unfolding should_retry max_attempts
retry_if policy is_recoverable count e =
    if not (is_recoverable e)
    then false
    else if ltb_ℤ (pos 0) (max_attempts policy) && leb_ℤ (max_attempts policy) count
    then false
    else should_retry policy count e
