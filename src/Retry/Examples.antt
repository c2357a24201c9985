-- ===== src/Retry/Examples.antt =====
-- Runs of the backoffs and policies.
use xkit.Prelude.{◌+◌, ◌^◌, ◌≡◌, Bool, true, Option, some, List, [], ◌∷◌, pos, negsuc, arith, min}
use xkit.Retry.{
  Link, temporary_error, other, new_linear_backoff, next_delay, new_fixed_retry, always_retry,
  never_retry,
}
use xkit.Retry.Linear.{next_delay-linear}
use xkit.Retry.Attempts.{repetitions, retryable_prefix, policies_allow}

-- The formula is beyond int64 here, and the delay is the greatest one.
next_delay-linear_example :
    next_delay (new_linear_backoff (negsuc 4) (pos (2 ^ 62)) (pos (2 ^ 62 + 7))) (pos 9)
    ≡ pos (2 ^ 62 + 7)
next_delay-linear_example =
    next_delay-linear (negsuc 4) (pos (2 ^ 62)) (pos (2 ^ 62 + 7)) (pos 9) (omega arith)
      (omega arith) (omega arith) (omega arith)

abbrev errors : List (Option (List Link))
errors = some (other ∷ []) ∷ some (temporary_error ∷ other ∷ []) ∷ some (other ∷ []) ∷ []

abbrev every_error : Option (List Link) → Bool
every_error e = true

policies_allow_example :
    let wanted = retryable_prefix every_error errors in
    (repetitions (new_fixed_retry (pos 2)) every_error 0 errors ≡ min 1 wanted)
    × (repetitions always_retry every_error 0 errors ≡ wanted)
    × (repetitions never_retry every_error 0 errors ≡ 0)
policies_allow_example = policies_allow (pos 2) every_error errors
