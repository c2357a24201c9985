-- ===== src/Breaker/Examples.antt =====
-- Runs of the policies, with fractions in place of float64.
use xkit.Prelude.{ℕ, ◌*◌, ◌≡◌, refl, true, leb, ltb}
use xkit.Breaker.{Counts, Floats, RatioPolicy, effective_requests, ratio_ready_to_trip}
use xkit.Breaker.Trips.{
  Wanted, failure_ratio, any_of, never, nothing_more, nil_then, want_then, Trips,
}

-- A numerator and a denominator.
abbrev Fraction : Type 0
Fraction = ℕ × ℕ

abbrev fractions : Floats Fraction
fractions = record {
  zero_float = (0, 1);
  one_float = (1, 1);
  less = λ x y. ltb (x.0 * y.1) (y.0 * x.1);
  at_least = λ x y. leb (y.0 * x.1) (x.0 * y.1);
  divide = λ n m. (n, m);
}

abbrev half : RatioPolicy Fraction
half = record { ratio = (1, 2); min_requests = 4 }

abbrev tally : ℕ → Counts
tally failures = record {
  requests = 10;
  total_successes = 2;
  total_failures = failures;
  total_exclusions = 4;
  consecutive_successes = 0;
  consecutive_failures = 1;
}

-- A nil policy, a ratio of a half of at least four requests, and one that never trips.
abbrev mixed : Wanted Fraction
mixed = any_of (nil_then (want_then (failure_ratio (1, 2) 4) (want_then never nothing_more)))

half_trips : ratio_ready_to_trip fractions half (tally 3) ≡ true
unfolding ratio_ready_to_trip effective_requests
half_trips = refl
