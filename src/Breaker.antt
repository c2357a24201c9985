-- ===== src/Breaker.antt =====
-- pkg/resilience/xbreaker/policies.go: when a circuit breaker trips. The counts are those of
-- gobreaker, uint32. The float64 operations are parameters.
pub mod Trips
mod Examples
use xkit.Prelude.{
  ℕ, ◌-◌, ◌%◌, ◌^◌, ◌+◌, Bool, true, false, ◌||◌, ◌==◌, leb, ltb, if◌then◌else◌, Option, none, some,
  List, [], ◌∷◌,
}

-- gobreaker's Counts.
pub record Counts : Type 0 where
  pub requests : ℕ
  pub total_successes : ℕ
  pub total_failures : ℕ
  pub total_exclusions : ℕ
  pub consecutive_successes : ℕ
  pub consecutive_failures : ℕ

-- `a - b` on uint32.
abbrev pub sub_32 : ℕ → ℕ → ℕ
sub_32 a c = (a + (2 ^ 32 - c)) % 2 ^ 32

-- float64: its 0 and 1, `a < b`, `a >= b` and `float64(n) / float64(m)`.
pub record Floats (F : Type 0) : Type 0 where
  pub zero_float : F
  pub one_float : F
  pub less : F → F → Bool
  pub at_least : F → F → Bool
  pub divide : ℕ → ℕ → F

pub record RatioPolicy (F : Type 0) : Type 0 where
  pub ratio : F
  pub min_requests : ℕ

mutual
  -- The policies of the package, and any other one that a caller implements.
  pub data TripPolicy (F : Type 0) : Type 0 where
    consecutive_failures_policy failure_count_policy : ℕ → TripPolicy F
    failure_ratio_policy slow_call_ratio_policy : RatioPolicy F → TripPolicy F
    composite_policy : Policies F → TripPolicy F
    never_trip always_trip : TripPolicy F
    custom : (Counts → Bool) → TripPolicy F

  -- What a composite policy holds: it has no nil policy.
  pub data Policies (F : Type 0) : Type 0 where
    no_more : Policies F
    policy_then : TripPolicy F → Policies F → Policies F

-- `if threshold < 1 { threshold = 1 }`
abbrev positive_threshold : ℕ → ℕ
positive_threshold n = if ltb n 1 then 1 else n

module _ {F : Type 0} where
  unfoldable pub new_consecutive_failures : ℕ → TripPolicy F
  new_consecutive_failures threshold = consecutive_failures_policy (positive_threshold threshold)

  unfoldable pub new_failure_count : ℕ → TripPolicy F
  new_failure_count threshold = failure_count_policy (positive_threshold threshold)

  -- The loop of `NewCompositePolicy`, over policies that may be nil.
  unfoldable pub filtered : List (Option (TripPolicy F)) → Policies F
  filtered [] = no_more
  filtered (none ∷ rest) = filtered rest
  filtered (some p ∷ rest) = policy_then p (filtered rest)

  unfoldable pub new_composite_policy : List (Option (TripPolicy F)) → TripPolicy F
  new_composite_policy policies = composite_policy (filtered policies)

-- The number of requests that a ratio is taken of.
unfoldable pub effective_requests : Counts → ℕ
effective_requests counts =
    if leb counts.total_exclusions counts.requests
    then sub_32 counts.requests counts.total_exclusions
    else counts.requests

module _ {F : Type 0} (floats : Floats F) where
  unfoldable pub new_ratio_policy : F → ℕ → RatioPolicy F
  new_ratio_policy ratio min_requests =
      let from_zero = if floats.less ratio floats.zero_float then floats.zero_float else ratio in
      let clamped =
        if floats.less floats.one_float from_zero then floats.one_float else from_zero in
      record { ratio = clamped; min_requests = min_requests }

  unfoldable pub ratio_ready_to_trip : RatioPolicy F → Counts → Bool
  unfolding effective_requests
  ratio_ready_to_trip p counts =
      let effective = effective_requests counts in
      if effective == 0 || ltb effective p.min_requests
      then false
      else floats.at_least (floats.divide counts.total_failures effective) p.ratio

  unfoldable mutual
    pub ready_to_trip : TripPolicy F → Counts → Bool
    ready_to_trip (consecutive_failures_policy threshold) counts =
        leb threshold counts.consecutive_failures
    ready_to_trip (failure_count_policy threshold) counts = leb threshold counts.total_failures
    ready_to_trip (failure_ratio_policy p) counts = ratio_ready_to_trip p counts
    ready_to_trip (slow_call_ratio_policy p) counts = ratio_ready_to_trip p counts
    ready_to_trip (composite_policy policies) counts = any_ready policies counts
    ready_to_trip never_trip counts = false
    ready_to_trip always_trip counts = ltb 0 counts.total_failures
    ready_to_trip (custom test) counts = test counts

    -- The loop of `CompositePolicy.ReadyToTrip`.
    pub any_ready : Policies F → Counts → Bool
    any_ready no_more counts = false
    any_ready (policy_then p rest) counts =
        let ready = any_ready rest counts in if ready_to_trip p counts then true else ready
