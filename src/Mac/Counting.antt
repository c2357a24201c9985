-- ===== src/Mac/Counting.antt =====
-- `RangeN`, `RangeWithIndex`, `Count` and `CollectN` of iter.go.
use mathlib.Core.List.{append-nil, append_assoc}
use xkit.Prelude.{
  ℕ, zero, suc, ◌+◌, ◌-◌, ◌<◌, ◌≡◌, refl, sym, ap, ◌∙◌, subst, not, min, Bool, true, false, ◌&&◌,
  some, List, [], ◌∷◌, ◌++◌, ℤ, pos, negsuc, pos_part, leb_ℤ, err, ltb, ltb_ℤ, length, take, arith,
}
use xkit.Mac.{Addr, IsBytes, overflow, addr_eq, next}
use xkit.Mac.Value.{value, of_value, of_value-value, value-of_value, of_value-IsBytes}
use xkit.Mac.Step.{next-value}
use xkit.Mac.Iter.{
  advance_unless, range, range_n_loop, range_n, range_with_index_loop, range_with_index_fuel,
  range_with_index, range_count, rounds, collect_yield, collect_n, count,
}
use xkit.Mac.Ranges.{
  up, up_indexed, for_each, after_yield-ap, next-of_value, addr_eq-of_value, above-value,
  range_count-value, lt_rounds, range-for_each,
}

next-of_value_last : next (of_value 281474976710655) ≡ err overflow
next-of_value_last = ground (
  arith,
  next-value (of_value 281474976710655) (of_value-IsBytes 281474976710655),
  value-of_value 281474976710655 (omega arith),
)

module _ {S : Type 0} where
  range_n_loop-for_each :
      (n m v : ℕ) (yield : Addr → S → Bool × S) (s : S)
      → v < 281474976710656
      → m ≡ min n (281474976710656 - v)
      → range_n_loop n (of_value v) yield s ≡ for_each (up m v) yield s
  unfolding range_n_loop for_each up
  range_n_loop-for_each zero zero v yield s h e = refl
  range_n_loop-for_each zero (suc m) v yield s h e = absurd (omega arith)
  range_n_loop-for_each (suc n) zero v yield s h e = absurd (omega arith)
  range_n_loop-for_each (suc zero) (suc zero) v yield s h e =
      after_yield-ap (yield (of_value v) s) (λ s'. s') (λ s'. s') (λ s'. refl)
  range_n_loop-for_each (suc zero) (suc (suc m)) v yield s h e = absurd (omega arith)
  range_n_loop-for_each (suc (suc n)) (suc zero) v yield s h e =
      let last : v ≡ 281474976710655 = omega arith in
      after_yield-ap (yield (of_value v) s)
        (λ s'.
          advance_unless (not (ltb 0 (suc n))) (next (of_value v)) s'
            (λ a. range_n_loop (suc n) a yield s'))
        (λ s'. s') (λ s'. rw (last, next-of_value_last) (ground arith))
  range_n_loop-for_each (suc (suc n)) (suc (suc m)) v yield s h e =
      after_yield-ap (yield (of_value v) s)
        (λ s'.
          advance_unless (not (ltb 0 (suc n))) (next (of_value v)) s'
            (λ a. range_n_loop (suc n) a yield s'))
        (for_each (up (suc m) (v + 1)) yield)
        (λ s'. rw (next-of_value v (omega arith)) (
          ground (
            arith,
            range_n_loop-for_each (suc n) (suc m) (v + 1) yield s' (omega arith) (omega arith),
          )))

  -- `RangeN` at a count `n` calls any consumer with `n` addresses from `start` on, upwards, or with
  -- those up to the last address if there are fewer; a negative count yields none.
  pub range_n-for_each :
      (start : Addr) (n : ℤ) (yield : Addr → S → Bool × S) (s : S)
      → IsBytes start
      → range_n start n yield s
        ≡ for_each (up (min (pos_part n) (281474976710656 - value start)) (value start)) yield s
  unfolding range_n for_each up
  range_n-for_each start (negsuc n) yield s h =
      (let e : min 0 (281474976710656 - value start) ≡ 0 = omega arith in rw e)
  range_n-for_each start (pos n) yield s h =
      let m = min n (281474976710656 - value start) in
      subst (λ a. range_n_loop n a yield s ≡ for_each (up m (value start)) yield s)
        (of_value-value start h)
        (range_n_loop-for_each n m (value start) yield s (omega arith) refl)

  range_with_index_loop-for_each :
      (fuel n i v : ℕ) (to : Addr) (yield : ℕ × Addr → S → Bool × S) (s : S)
      → IsBytes to
      → v + n ≡ value to
      → n < fuel
      → range_with_index_loop fuel to i (of_value v) yield s
        ≡ for_each (up_indexed (suc n) i v) yield s
  unfolding range_with_index_loop for_each up_indexed
  range_with_index_loop-for_each zero n i v to yield s h e lt = absurd (omega arith)
  range_with_index_loop-for_each (suc fuel) zero i v to yield s h e lt =
      after_yield-ap (yield (i, of_value v) s)
        (λ s'.
          advance_unless (addr_eq (of_value v) to) (next (of_value v)) s'
            (λ a. range_with_index_loop fuel to (i + 1) a yield s'))
        (λ s'. s') (λ s'. rw (addr_eq-of_value v to (omega arith) h) (ground arith))
  range_with_index_loop-for_each (suc fuel) (suc n) i v to yield s h e lt =
      after_yield-ap (yield (i, of_value v) s)
        (λ s'.
          advance_unless (addr_eq (of_value v) to) (next (of_value v)) s'
            (λ a. range_with_index_loop fuel to (i + 1) a yield s'))
        (for_each (up_indexed (suc n) (i + 1) (v + 1)) yield)
        (λ s'.
          rw (addr_eq-of_value v to (omega arith) h, next-of_value v (omega arith))
            (ground (arith, range_with_index_loop-for_each fuel n (i + 1) (v + 1) to yield s' h)))

  -- `RangeWithIndex` calls any consumer with the addresses of `Range`, numbered from 0.
  pub range_with_index-for_each :
      (from to : Addr) (yield : ℕ × Addr → S → Bool × S) (s : S)
      → IsBytes from
      → IsBytes to
      → range_with_index from to yield s
        ≡ for_each (up_indexed (range_count from to) 0 (value from)) yield s
  unfolding range_with_index range_with_index_fuel for_each up_indexed
  range_with_index-for_each from to yield s h k =
      rw (above-value from to h k, range_count-value from to h k)
        (ground (
          arith,
          of_value-value from h,
          lt_rounds (value to - value from) (omega arith),
          range_with_index_loop-for_each rounds (value to - value from) 0 (value from) to yield s k,
        ))

for_each-count :
    {A : Type 0} (xs : List A) (n : ℕ) → for_each xs (λ a m. (true, m + 1)) n ≡ n + length xs
unfolding for_each
for_each-count [] n = omega arith
for_each-count (x ∷ xs) n = omega (arith, for_each-count xs (n + 1))

length-up : (n v : ℕ) → length (up n v) ≡ n
unfolding up
length-up zero v = refl
length-up (suc n) v = ap suc (length-up n (v + 1))

-- Counting what `Range` yields gives `RangeCount`.
pub count-range :
    (from to : Addr)
    → IsBytes from
    → IsBytes to
    → count (some (range from to)) ≡ range_count from to
unfolding count
count-range from to h k = rw (range-for_each from to (λ a m. (true, m + 1)) 0 h k) (
    omega (
      arith,
      for_each-count (up (range_count from to) (value from)) 0,
      length-up (range_count from to) (value from),
    ))

-- What `CollectN` keeps of a list.
abbrev kept : ℤ → List Addr → List Addr
kept (pos zero) xs = xs
kept (pos (suc m)) xs = take (suc m) xs
kept (negsuc n) xs = xs

collect_all :
    (max_count : ℤ) (xs : List Addr) (c : ℕ) (r : List Addr)
    → ltb_ℤ (pos 0) max_count ≡ false
    → (for_each xs (collect_yield max_count) (c, r)).1 ≡ r ++ xs
unfolding for_each
collect_all max_count [] c r f = sym (append-nil r)
collect_all max_count (x ∷ xs) c r f =
    rw f (collect_all max_count xs (c + 1) (r ++ x ∷ []) f ∙ append_assoc r (x ∷ []) xs)

abbrev is_full : ℤ → ℕ → Bool
is_full max_count c = ltb_ℤ (pos 0) max_count && leb_ℤ max_count (pos c)

is_full_now : (m c : ℕ) → c + 0 ≡ suc m → is_full (pos (suc m)) c ≡ true
is_full_now m c e = ground arith

is_full_later : (m c k : ℕ) → c + suc k ≡ suc m → is_full (pos (suc m)) c ≡ false
is_full_later m c k e = ground arith

collect_some :
    (m : ℕ) (xs : List Addr) (c k : ℕ) (r : List Addr)
    → c + k ≡ suc m
    → (for_each xs (collect_yield (pos (suc m))) (c, r)).1 ≡ r ++ take k xs
unfolding for_each
collect_some m [] c zero r e = sym (append-nil r)
collect_some m [] c (suc k) r e = sym (append-nil r)
collect_some m (x ∷ xs) c zero r e = rw (is_full_now m c e) (sym (append-nil r))
collect_some m (x ∷ xs) c (suc k) r e =
    rw (is_full_later m c k e) (
      collect_some m xs (c + 1) k (r ++ x ∷ []) (omega arith) ∙ append_assoc r (x ∷ []) (take k xs))

kept-collect :
    (max_count : ℤ) (xs : List Addr)
    → (for_each xs (collect_yield max_count) (0, [])).1 ≡ kept max_count xs
kept-collect (pos zero) xs = collect_all (pos 0) xs 0 [] (ground arith)
kept-collect (pos (suc m)) xs = collect_some m xs 0 (suc m) [] (omega arith)
kept-collect (negsuc n) xs = collect_all (negsuc n) xs 0 [] (ground arith)

-- `CollectN` over `Range` gives the addresses of the range in order: all of them when the bound is
-- 0 or negative, else the first `max_count`.
pub collect_n-range :
    (from to : Addr) (max_count : ℤ)
    → IsBytes from
    → IsBytes to
    → collect_n (some (range from to)) max_count
      ≡ kept max_count (up (range_count from to) (value from))
unfolding collect_n
collect_n-range from to max_count h k =
    ap (λ (p : ℕ × List Addr). p.1) (range-for_each from to (collect_yield max_count) (0, []) h k)
    ∙ kept-collect max_count (up (range_count from to) (value from))
