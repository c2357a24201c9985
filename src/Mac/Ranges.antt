-- ===== src/Mac/Ranges.antt =====
-- The iterators of iter.go against the list of the addresses between two numbers.
use xkit.Prelude.{
  ℕ, zero, suc, ◌+◌, ◌-◌, ◌*◌, ◌<◌, ◌≡◌, refl, Bool, true, false, List, [], ◌∷◌, ok, ◌==◌, arith,
  pos, ltb_ℤ, ltb, ◌^◌, bit_or-eq-add, if◌then◌else◌,
}
use xkit.Mac.{Addr, IsBytes, addr_eq, compare_addr, next}
use xkit.Mac.Value.{value, of_value, of_value-value, value-of_value, of_value-IsBytes}
use xkit.Mac.Order.{compare_addr-value}
use xkit.Mac.Step.{next-value, addr_eq-value}
use xkit.Mac.Iter.{
  after_yield, advance_unless, range_loop, range_fuel, range, rounds, addr_to_uint64, range_count,
}

-- The `n` addresses from number `v` upwards.
unfoldable pub up : ℕ → ℕ → List Addr
up zero v = []
up (suc n) v = of_value v ∷ up n (v + 1)

pub next-of_value : (v : ℕ) → v + 1 < 281474976710656 → next (of_value v) ≡ ok (of_value (v + 1))
next-of_value v lt =
    ground (arith, next-value (of_value v) (of_value-IsBytes v), value-of_value v (omega arith))

pub addr_eq-of_value :
    (v : ℕ) (a : Addr) → v < 281474976710656 → IsBytes a → addr_eq (of_value v) a ≡ (v == value a)
addr_eq-of_value v a lt h =
    ground (arith, addr_eq-value (of_value v) a (of_value-IsBytes v) h, value-of_value v lt)

-- The same, each with its index, the first of which is `i`.
unfoldable pub up_indexed : ℕ → ℕ → ℕ → List (ℕ × Addr)
up_indexed zero i v = []
up_indexed (suc n) i v = (i, of_value v) ∷ up_indexed n (i + 1) (v + 1)

addr_to_uint64-value : (a : Addr) → IsBytes a → addr_to_uint64 a ≡ value a
unfolding addr_to_uint64
addr_to_uint64-value a h = ground (
  arith,
  bit_or-eq-add 40 a.b0 (a.b1 * 2 ^ 32) (omega arith),
  bit_or-eq-add 32 (a.b0 * 256 + a.b1) (a.b2 * 2 ^ 24) (omega arith),
  bit_or-eq-add 24 (a.b0 * 65536 + a.b1 * 256 + a.b2) (a.b3 * 2 ^ 16) (omega arith),
  bit_or-eq-add 16 (a.b0 * 16777216 + a.b1 * 65536 + a.b2 * 256 + a.b3) (a.b4 * 2 ^ 8)
      (omega arith),
  bit_or-eq-add 8 (a.b0 * 4294967296 + a.b1 * 16777216 + a.b2 * 65536 + a.b3 * 256 + a.b4) a.b5
      h.fits5,
)

-- `Compare(from, to) > 0` is the order of the numbers.
pub above-value :
    (from to : Addr)
    → IsBytes from
    → IsBytes to
    → ltb_ℤ (pos 0) (compare_addr from to) ≡ ltb (value to) (value from)
above-value from to h k = ground (arith, compare_addr-value from to h k)

-- `RangeCount` on byte arrays: the distance and one, or 0 for an empty range; no wrap-around occurs.
pub range_count-value :
    (from to : Addr)
    → IsBytes from
    → IsBytes to
    → range_count from to ≡ (if ltb (value to) (value from) then 0 else suc (value to - value from))
unfolding range_count
range_count-value from to h k =
    rw (above-value from to h k, addr_to_uint64-value from h, addr_to_uint64-value to k)
      (ground arith)

pub lt_rounds : (v : ℕ) → v < 281474976710656 → v < rounds
unfolding rounds
lt_rounds v h = h

module _ {S : Type 0} where
  -- An iterator over a list: it stops where the consumer does.
  unfoldable pub for_each {ℓ} : {A : Type ℓ} → List A → (A → S → Bool × S) → S → S
  for_each [] yield s = s
  for_each (a ∷ rest) yield s = after_yield (yield a s) (for_each rest yield)

  pub after_yield-ap :
      (r : Bool × S) (f g : S → S) → ((s : S) → f s ≡ g s) → after_yield r f ≡ after_yield r g
  after_yield-ap (false, s) f g e = refl
  after_yield-ap (true, s) f g e = e s

  range_loop-for_each :
      (fuel n v : ℕ) (to : Addr) (yield : Addr → S → Bool × S) (s : S)
      → IsBytes to
      → v + n ≡ value to
      → n < fuel
      → range_loop fuel to (of_value v) yield s ≡ for_each (up (suc n) v) yield s
  unfolding range_loop for_each up
  range_loop-for_each zero n v to yield s h e lt = absurd (omega arith)
  range_loop-for_each (suc fuel) zero v to yield s h e lt =
      after_yield-ap (yield (of_value v) s)
        (λ s'.
          advance_unless (addr_eq (of_value v) to) (next (of_value v)) s'
            (λ a. range_loop fuel to a yield s'))
        (λ s'. s') (λ s'. rw (addr_eq-of_value v to (omega arith) h) (ground arith))
  range_loop-for_each (suc fuel) (suc n) v to yield s h e lt =
      after_yield-ap (yield (of_value v) s)
        (λ s'.
          advance_unless (addr_eq (of_value v) to) (next (of_value v)) s'
            (λ a. range_loop fuel to a yield s'))
        (for_each (up (suc n) (v + 1)) yield)
        (λ s'.
          rw (addr_eq-of_value v to (omega arith) h, next-of_value v (omega arith))
            (ground (arith, range_loop-for_each fuel n (v + 1) to yield s' h)))

  -- The iterator `Range` calls any consumer with exactly the `RangeCount` addresses from `from` on, upwards, one
  -- after the other, until the consumer stops.
  pub range-for_each :
      (from to : Addr) (yield : Addr → S → Bool × S) (s : S)
      → IsBytes from
      → IsBytes to
      → range from to yield s ≡ for_each (up (range_count from to) (value from)) yield s
  unfolding range range_fuel for_each up
  range-for_each from to yield s h k =
      rw (above-value from to h k, range_count-value from to h k)
        (ground (
          arith,
          of_value-value from h,
          lt_rounds (value to - value from) (omega arith),
          range_loop-for_each rounds (value to - value from) (value from) to yield s k,
        ))
