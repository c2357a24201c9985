-- ===== src/Mac/Reverse.antt =====
-- `RangeReverse` and `RangeReverseWithIndex` of iter.go.
use xkit.Prelude.{ℕ, zero, suc, ◌+◌, ◌-◌, ◌<◌, ◌≡◌, Bool, List, [], ◌∷◌, ok, arith}
use xkit.Mac.{Addr, IsBytes, addr_eq, prev}
use xkit.Mac.Value.{value, of_value, of_value-value, value-of_value, of_value-IsBytes}
use xkit.Mac.Step.{prev-value}
use xkit.Mac.Iter.{
  advance_unless, range_reverse_loop, range_reverse_fuel, range_reverse,
  range_reverse_with_index_loop, range_reverse_with_index_fuel, range_reverse_with_index,
  range_count, rounds,
}
use xkit.Mac.Ranges.{
  for_each, after_yield-ap, addr_eq-of_value, above-value, range_count-value, lt_rounds,
}

-- The `n` addresses from number `v` downwards, without and with their indices from `i` on.
unfoldable pub down : ℕ → ℕ → List Addr
down zero v = []
down (suc n) v = of_value v ∷ down n (v - 1)

unfoldable pub down_indexed : ℕ → ℕ → ℕ → List (ℕ × Addr)
down_indexed zero i v = []
down_indexed (suc n) i v = (i, of_value v) ∷ down_indexed n (i + 1) (v - 1)

prev-of_value : (v : ℕ) → 0 < v → v < 281474976710656 → prev (of_value v) ≡ ok (of_value (v - 1))
prev-of_value v p lt =
    ground (arith, prev-value (of_value v) (of_value-IsBytes v), value-of_value v lt)

module _ {S : Type 0} where
  range_reverse_loop-for_each :
      (fuel n v : ℕ) (from : Addr) (yield : Addr → S → Bool × S) (s : S)
      → IsBytes from
      → v < 281474976710656
      → value from + n ≡ v
      → n < fuel
      → range_reverse_loop fuel from (of_value v) yield s ≡ for_each (down (suc n) v) yield s
  unfolding range_reverse_loop for_each down
  range_reverse_loop-for_each zero n v from yield s h fits e lt = absurd (omega arith)
  range_reverse_loop-for_each (suc fuel) zero v from yield s h fits e lt =
      after_yield-ap (yield (of_value v) s)
        (λ s'.
          advance_unless (addr_eq (of_value v) from) (prev (of_value v)) s'
            (λ a. range_reverse_loop fuel from a yield s'))
        (λ s'. s') (λ s'. rw (addr_eq-of_value v from fits h) (ground arith))
  range_reverse_loop-for_each (suc fuel) (suc n) v from yield s h fits e lt =
      after_yield-ap (yield (of_value v) s)
        (λ s'.
          advance_unless (addr_eq (of_value v) from) (prev (of_value v)) s'
            (λ a. range_reverse_loop fuel from a yield s'))
        (for_each (down (suc n) (v - 1)) yield)
        (λ s'.
          rw (addr_eq-of_value v from fits h, prev-of_value v (omega arith) fits)
            (ground (arith, range_reverse_loop-for_each fuel n (v - 1) from yield s' h)))

  range_reverse_with_index_loop-for_each :
      (fuel n i v : ℕ) (from : Addr) (yield : ℕ × Addr → S → Bool × S) (s : S)
      → IsBytes from
      → v < 281474976710656
      → value from + n ≡ v
      → n < fuel
      → range_reverse_with_index_loop fuel from i (of_value v) yield s
        ≡ for_each (down_indexed (suc n) i v) yield s
  unfolding range_reverse_with_index_loop for_each down_indexed
  range_reverse_with_index_loop-for_each zero n i v from yield s h fits e lt = absurd (omega arith)
  range_reverse_with_index_loop-for_each (suc fuel) zero i v from yield s h fits e lt =
      after_yield-ap (yield (i, of_value v) s)
        (λ s'.
          advance_unless (addr_eq (of_value v) from) (prev (of_value v)) s'
            (λ a. range_reverse_with_index_loop fuel from (i + 1) a yield s'))
        (λ s'. s') (λ s'. rw (addr_eq-of_value v from fits h) (ground arith))
  range_reverse_with_index_loop-for_each (suc fuel) (suc n) i v from yield s h fits e lt =
      after_yield-ap (yield (i, of_value v) s)
        (λ s'.
          advance_unless (addr_eq (of_value v) from) (prev (of_value v)) s'
            (λ a. range_reverse_with_index_loop fuel from (i + 1) a yield s'))
        (for_each (down_indexed (suc n) (i + 1) (v - 1)) yield)
        (λ s'.
          rw (addr_eq-of_value v from fits h, prev-of_value v (omega arith) fits)
            (ground (
              arith,
              range_reverse_with_index_loop-for_each fuel n (i + 1) (v - 1) from yield s' h,
            )))

  -- On byte arrays `RangeReverse` calls any consumer with exactly the `RangeCount` addresses from
  -- `to` down to `from`, until the consumer stops.
  pub range_reverse-for_each :
      (from to : Addr) (yield : Addr → S → Bool × S) (s : S)
      → IsBytes from
      → IsBytes to
      → range_reverse from to yield s ≡ for_each (down (range_count from to) (value to)) yield s
  unfolding range_reverse range_reverse_fuel for_each down
  range_reverse-for_each from to yield s h k =
      rw (above-value from to h k, range_count-value from to h k)
        (ground (
          arith,
          of_value-value to k,
          lt_rounds (value to - value from) (omega arith),
          range_reverse_loop-for_each rounds (value to - value from) (value to) from yield s h,
        ))

  -- On byte arrays `RangeReverseWithIndex` calls any consumer with the addresses of `RangeReverse`,
  -- numbered from 0, until the consumer stops.
  pub range_reverse_with_index-for_each :
      (from to : Addr) (yield : ℕ × Addr → S → Bool × S) (s : S)
      → IsBytes from
      → IsBytes to
      → range_reverse_with_index from to yield s
        ≡ for_each (down_indexed (range_count from to) 0 (value to)) yield s
  unfolding range_reverse_with_index range_reverse_with_index_fuel for_each down_indexed
  range_reverse_with_index-for_each from to yield s h k =
      rw (above-value from to h k, range_count-value from to h k)
        (ground (
          arith,
          of_value-value to k,
          lt_rounds (value to - value from) (omega arith),
          range_reverse_with_index_loop-for_each rounds (value to - value from) 0 (value to) from
              yield s h,
        ))
