-- ===== src/Breaker/Trips.antt =====
-- policies.go: when the policies that the constructors make trip, in exact arithmetic.
use xkit.Prelude.{
  ℕ, ◌+◌, ◌≤◌, ◌<◌, ◌^◌, ◌≡◌, refl, ◌⊎◌, ◌↔◌, inl, inr, Bool, Bool-cases, true, false, ◌||◌, ◌==◌,
  ltb, max, Option, none, some, List, [], ◌∷◌, if◌then◌else◌, arith,
}
use xkit.Breaker.{
  Counts, Floats, TripPolicy, failure_ratio_policy, slow_call_ratio_policy, never_trip, always_trip,
  custom, new_consecutive_failures, new_failure_count, new_ratio_policy, filtered,
  new_composite_policy, effective_requests, ratio_ready_to_trip, ready_to_trip, any_ready,
}

mutual
  -- A use of the constructors of the package.
  pub data Wanted (F : Type 0) : Type 0 where
    consecutive failure_count : ℕ → Wanted F
    failure_ratio slow_calls : F → ℕ → Wanted F
    any_of : Wants F → Wanted F
    never always : Wanted F
    other : (Counts → Bool) → Wanted F

  -- The arguments of a composite policy, nil ones among them.
  pub data Wants (F : Type 0) : Type 0 where
    nothing_more : Wants F
    nil_then : Wants F → Wants F
    want_then : Wanted F → Wants F → Wants F

module _ {F : Type 0} (floats : Floats F) where
  unfoldable mutual
    unfolding new_consecutive_failures new_failure_count new_ratio_policy new_composite_policy
        filtered

    pub made : Wanted F → TripPolicy F
    made (consecutive n) = new_consecutive_failures n
    made (failure_count n) = new_failure_count n
    made (failure_ratio r n) = failure_ratio_policy (new_ratio_policy floats r n)
    made (slow_calls r n) = slow_call_ratio_policy (new_ratio_policy floats r n)
    made (any_of ws) = new_composite_policy (arguments ws)
    made never = never_trip
    made always = always_trip
    made (other test) = custom test

    pub arguments : Wants F → List (Option (TripPolicy F))
    arguments nothing_more = []
    arguments (nil_then ws) = none ∷ arguments ws
    arguments (want_then w ws) = some (made w) ∷ arguments ws

  -- Of the `m` requests that were not excluded there is one, there are `n`, and the failures are at
  -- least the ratio, of which less than 0 counts as 0 and more than 1 as 1.
  abbrev pub IsFrequent : F → ℕ → ℕ → Counts → Type 0
  IsFrequent r n m c =
      (1 ≤ m)
      × (n ≤ m)
      × (floats.at_least (floats.divide c.total_failures m) (
            if floats.less r floats.zero_float
            then floats.zero_float
            else if floats.less floats.one_float r
            then floats.one_float
            else r)
          ≡ true)

  unfoldable mutual
    pub Trips : Wanted F → Counts → ℕ → Type 0
    Trips (consecutive n) c m = max 1 n ≤ c.consecutive_failures
    Trips (failure_count n) c m = max 1 n ≤ c.total_failures
    Trips (failure_ratio r n) c m = IsFrequent r n m c
    Trips (slow_calls r n) c m = IsFrequent r n m c
    Trips (any_of ws) c m = SomeTrips ws c m
    Trips never c m = ⊥
    Trips always c m = 1 ≤ c.total_failures
    Trips (other test) c m = test c ≡ true

    pub SomeTrips : Wants F → Counts → ℕ → Type 0
    SomeTrips nothing_more c m = ⊥
    SomeTrips (nil_then ws) c m = SomeTrips ws c m
    SomeTrips (want_then w ws) c m = Trips w c m ⊎ SomeTrips ws c m

  -- The number of requests that count: those that were not excluded, or all where more are said to be
  -- excluded than there are.
  abbrev pub Counted : Counts → ℕ → Type 0
  Counted c m =
      (c.requests ≡ m + c.total_exclusions) ⊎ ((c.requests < c.total_exclusions) × (m ≡ c.requests))

  effective_requests-Counted :
      (c : Counts) (m : ℕ) → c.requests < 2 ^ 32 → Counted c m → effective_requests c ≡ m
  unfolding effective_requests
  effective_requests-Counted c m small (inl e) = ground (arith, e)
  effective_requests-Counted c m small (inr (h, e)) = ground (arith, e)

  abbrev limited : F → F
  limited r =
      if floats.less r floats.zero_float
      then floats.zero_float
      else if floats.less floats.one_float r
      then floats.one_float
      else r

  new_ratio_policy-limited :
      (r : F) (n : ℕ)
      → floats.less floats.one_float floats.zero_float ≡ false
      → new_ratio_policy floats r n ≡ record { ratio = limited r; min_requests = n }
  unfolding new_ratio_policy
  new_ratio_policy-limited r n ordered = elim (Bool-cases (floats.less r floats.zero_float)) [
    | inl below ↦ rw (below, ordered) refl
    | inr above ↦ rw above refl
  ]

  -- The test of a ratio, by its parts.
  enough :
      (n m : ℕ) (b : Bool)
      → ((if m == 0 || ltb m n then false else b) ≡ true) ↔ ((1 ≤ m) × (n ≤ m) × (b ≡ true))
  enough n m b = ground arith

  module _ (c : Counts) (m : ℕ) (small : c.requests < 2 ^ 32) (counted : Counted c m)
      (ordered : floats.less floats.one_float floats.zero_float ≡ false) where
    ratio-IsFrequent :
        (r : F) (n : ℕ)
        → (ratio_ready_to_trip floats (new_ratio_policy floats r n) c ≡ true) ↔ IsFrequent r n m c
    unfolding ratio_ready_to_trip
    ratio-IsFrequent r n =
        rw (new_ratio_policy-limited r n ordered, effective_requests-Counted c m small counted)
          (enough n m (floats.at_least (floats.divide c.total_failures m) (limited r)))

    mutual
      unfolding ready_to_trip made Trips new_consecutive_failures new_failure_count
          new_composite_policy filtered

      Trips-by : (w : Wanted F) → (ready_to_trip floats (made w) c ≡ true) ↔ Trips w c m
      Trips-by (consecutive n) = ground arith
      Trips-by (failure_count n) = ground arith
      Trips-by (failure_ratio r n) = ratio-IsFrequent r n
      Trips-by (slow_calls r n) = ratio-IsFrequent r n
      Trips-by (any_of ws) = SomeTrips-by ws
      Trips-by never = ground arith
      Trips-by always = ground arith
      Trips-by (other test) = ground arith

      SomeTrips-by :
          (ws : Wants F) → (any_ready floats (filtered (arguments ws)) c ≡ true) ↔ SomeTrips ws c m
      SomeTrips-by nothing_more = ground arith
      SomeTrips-by (nil_then ws) = SomeTrips-by ws
      SomeTrips-by (want_then w ws) = ground (arith, Trips-by w, SomeTrips-by ws)
