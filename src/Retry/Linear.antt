-- ===== src/Retry/Linear.antt =====
-- The linear backoff against its formula: the 64-bit arithmetic of `NextDelay` never wraps around.
use xkit.Prelude.{
  div_64, add_64-pos, sub_64-pos, mul_64-pos, quotient_fits, quotient_exceeded, max_int64,
  pos_part-bound, ℕ, zero, suc, ◌+◌, ◌-◌, ◌*◌, ◌/◌, ◌^◌, ◌<◌, ◌≤◌, ◌≡◌, ap, ◌∙◌, false, ◌&&◌, ℤ,
  pos, pos_part, ◌≤ℤ◌, ltb_ℤ, ltb, min, max, arith, Bool-cases, inl, inr,
}
use xkit.Retry.{
  LinearBackoff, at_least, new_linear_backoff, linear_delay, next_delay, next_delay_from,
}

below_two : (n : ℕ) → ltb 1 (suc n) ≡ false → n ≡ 0
below_two n h = ground arith

product-flat :
    (increment attempt : ℕ)
    → (ltb_ℤ (pos 0) (pos increment) && ltb_ℤ (pos 1) (pos attempt)) ≡ false
    → increment * (attempt - 1) ≡ 0
product-flat zero attempt flat = omega arith
product-flat (suc increment) zero flat = omega arith
product-flat (suc increment) (suc attempt) flat =
    rw (below_two attempt (ground arith)) (omega arith)

-- A backoff with no negative field.
abbrev natural : ℕ → ℕ → ℕ → LinearBackoff
natural initial increment limit = record {
  initial_delay = pos initial;
  increment = pos increment;
  max_delay = pos limit;
}

module _ (initial increment limit attempt : ℕ) where
  linear_delay-natural :
      0 < attempt
      → attempt < 2 ^ 63
      → increment < 2 ^ 63
      → initial + increment * (attempt - 1) < 2 ^ 63
      → linear_delay (natural initial increment limit) (pos attempt)
        ≡ pos (min limit (initial + increment * (attempt - 1)))
  unfolding linear_delay
  linear_delay-natural p h k l =
      rw
        (
          sub_64-pos attempt 1 p h,
          mul_64-pos increment (attempt - 1) k (omega arith) (omega arith),
          add_64-pos initial (increment * (attempt - 1)) l,
        )
        (ground arith)

  abbrev formula : ℤ
  formula = pos (min limit (initial + increment * (attempt - 1)))

  module _ (p : 0 < attempt) (small_attempt : attempt < 2 ^ 63)
      (small_increment : increment < 2 ^ 63) (ordered : initial ≤ limit)
      (small_limit : limit < 2 ^ 63) where
    next_delay_from-flat :
        increment * (attempt - 1) ≡ 0
        → linear_delay (natural initial increment limit) (pos attempt) ≡ formula
    next_delay_from-flat e = linear_delay-natural p small_attempt small_increment (omega (arith, e))

    next_delay_from-steps :
        0 < increment
        → 1 < attempt
        → next_delay_from (natural initial increment limit) (pos attempt) ≡ formula
    unfolding next_delay_from div_64
    next_delay_from-steps q r =
        elim (Bool-cases (ltb ((limit - initial) / increment) (attempt - 1))) [
          | inl past ↦
              rw
                (sub_64-pos attempt 1 p small_attempt, sub_64-pos limit initial ordered small_limit)
                (ground (
                  arith,
                  quotient_exceeded (attempt - 1) (limit - initial) increment q (ground arith),
                ))
          | inr within ↦
              let fits = quotient_fits (attempt - 1) (limit - initial) increment q (ground arith) in
              rw
                (sub_64-pos attempt 1 p small_attempt, sub_64-pos limit initial ordered small_limit)
                (ground (
                  arith,
                  linear_delay-natural p small_attempt small_increment (omega (arith, fits)),
                ))
        ]

    next_delay_from-flat_steps :
        (ltb_ℤ (pos 0) (pos increment) && ltb_ℤ (pos 1) (pos attempt)) ≡ false
        → next_delay_from (natural initial increment limit) (pos attempt) ≡ formula
    unfolding next_delay_from
    next_delay_from-flat_steps flat =
        let none = product-flat increment attempt flat in ground (arith, next_delay_from-flat none)

    next_delay_from-natural :
        next_delay_from (natural initial increment limit) (pos attempt) ≡ formula
    next_delay_from-natural =
        elim (Bool-cases (ltb_ℤ (pos 0) (pos increment) && ltb_ℤ (pos 1) (pos attempt))) [
          | inl steps ↦ next_delay_from-steps (ground arith) (ground arith)
          | inr flat ↦ next_delay_from-flat_steps flat
        ]

new_linear_backoff-natural :
    (initial increment limit : ℤ)
    → new_linear_backoff initial increment limit
      ≡ natural (pos_part initial) (pos_part increment) (max (pos_part initial) (pos_part limit))
unfolding new_linear_backoff
new_linear_backoff-natural initial increment limit = ground arith

max-pred : (n : ℕ) → max 1 n - 1 ≡ n - 1
max-pred n = omega arith

at_least_one : (n : ℤ) → at_least (pos 1) n ≡ pos (max 1 (pos_part n))
at_least_one n = ground arith

-- In int64, which is what the code computes in, a linear backoff returns exactly the smaller of its
-- greatest delay and `initial + increment * (attempt - 1)`, computed without any wrap-around, where
-- negative arguments of the constructor count as 0, the greatest delay is at least the initial one,
-- and an attempt below 1 counts as 1.
pub next_delay-linear :
    (initial increment limit attempt : ℤ)
    → initial ≤ℤ max_int64
    → increment ≤ℤ max_int64
    → limit ≤ℤ max_int64
    → attempt ≤ℤ max_int64
    → next_delay (new_linear_backoff initial increment limit) attempt
      ≡ pos (
          min
            (max (pos_part initial) (pos_part limit))
            (pos_part initial + pos_part increment * (pos_part attempt - 1)))
unfolding next_delay
next_delay-linear initial increment limit attempt h k l m =
    rw (new_linear_backoff-natural initial increment limit, at_least_one attempt)
      (next_delay_from-natural (pos_part initial) (pos_part increment)
          (max (pos_part initial) (pos_part limit)) (max 1 (pos_part attempt)) (omega arith)
          (omega (arith, pos_part-bound attempt m)) (pos_part-bound increment k) (omega arith)
          (omega (arith, pos_part-bound initial h, pos_part-bound limit l))
        ∙ ap
            (λ (d : ℕ). pos (
              min (max (pos_part initial) (pos_part limit))
                (pos_part initial + pos_part increment * d)))
            (max-pred (pos_part attempt)))
