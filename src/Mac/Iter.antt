-- ===== src/Mac/Iter.antt =====
-- pkg/util/xmac/iter.go. An iterator calls `yield` with each address; the consumer keeps a state,
-- and answers whether it wants more. The loops with no counter take fuel.
use xkit.Prelude.{
  ℕ, zero, suc, ◌+◌, ◌-◌, ◌*◌, ◌%◌, ◌^◌, Bool, true, false, not, Option, none, some, List, [], ◌∷◌,
  ◌++◌, ◌&&◌, ℤ, pos, negsuc, ok, err, ltb, leb_ℤ, ltb_ℤ, if◌then◌else◌, bit_or, Result,
}
use xkit.Mac.{Addr, Error, addr_eq, compare_addr, next, prev}

-- `yield(x) bool` of Go, in state-passing form.
abbrev pub Yield : Type 0 → Type 0 → Type 0
Yield A S = A → S → Bool × S

-- `iter.Seq[A]` at a consumer with state `S`.
abbrev pub Seq : Type 0 → Type 0 → Type 0
Seq A S = Yield A S → S → S

-- There are 2^48 addresses, and no loop visits one twice.
unfoldable pub rounds : ℕ
rounds = 2 ^ 48

module _ {S : Type 0} where
  -- A call of `yield`, and what follows if it asks for more.
  abbrev pub after_yield : Bool × S → (S → S) → S
  after_yield (false, s) more = s
  after_yield (true, s) more = more s

  -- The step of the loops: on to the next address, or the end on its error.
  abbrev pub advance : Result Error Addr → S → (Addr → S) → S
  advance (err e) s more = s
  advance (ok a) s more = more a

  -- The loops end at their last address.
  abbrev pub advance_unless : Bool → Result Error Addr → S → (Addr → S) → S
  advance_unless true r s more = s
  advance_unless false r s more = advance r s more

  unfoldable pub range_loop : ℕ → Addr → Addr → Seq Addr S
  range_loop zero to current yield s = s
  range_loop (suc fuel) to current yield s = after_yield (yield current s) (λ s'.
      advance_unless (addr_eq current to) (next current) s' (λ a. range_loop fuel to a yield s'))

  unfoldable pub range_fuel : ℕ → Addr → Addr → Seq Addr S
  unfolding range_loop
  range_fuel fuel from to yield s =
      if ltb_ℤ (pos 0) (compare_addr from to) then s else range_loop fuel to from yield s

  unfoldable pub range : Addr → Addr → Seq Addr S
  range from to = range_fuel rounds from to

  -- `RangeN`: its loop counts `remaining` down.
  unfoldable pub range_n_loop : ℕ → Addr → Seq Addr S
  range_n_loop zero current yield s = s
  range_n_loop (suc remaining) current yield s = after_yield (yield current s) (λ s'.
      advance_unless (not (ltb 0 remaining)) (next current) s'
        (λ a. range_n_loop remaining a yield s'))

  unfoldable pub range_n : Addr → ℤ → Seq Addr S
  unfolding range_n_loop
  range_n start (pos n) yield s = range_n_loop n start yield s
  range_n start (negsuc n) yield s = s

  unfoldable pub range_with_index_loop : ℕ → Addr → ℕ → Addr → Seq (ℕ × Addr) S
  range_with_index_loop zero to index current yield s = s
  range_with_index_loop (suc fuel) to index current yield s =
      after_yield (yield (index, current) s) (λ s'.
        advance_unless (addr_eq current to) (next current) s'
          (λ a. range_with_index_loop fuel to (index + 1) a yield s'))

  unfoldable pub range_with_index_fuel : ℕ → Addr → Addr → Seq (ℕ × Addr) S
  unfolding range_with_index_loop
  range_with_index_fuel fuel from to yield s =
      if ltb_ℤ (pos 0) (compare_addr from to)
      then s
      else range_with_index_loop fuel to 0 from yield s

  unfoldable pub range_with_index : Addr → Addr → Seq (ℕ × Addr) S
  range_with_index from to = range_with_index_fuel rounds from to

  unfoldable pub range_reverse_loop : ℕ → Addr → Addr → Seq Addr S
  range_reverse_loop zero from current yield s = s
  range_reverse_loop (suc fuel) from current yield s = after_yield (yield current s) (λ s'.
      advance_unless (addr_eq current from) (prev current) s'
        (λ a. range_reverse_loop fuel from a yield s'))

  unfoldable pub range_reverse_fuel : ℕ → Addr → Addr → Seq Addr S
  unfolding range_reverse_loop
  range_reverse_fuel fuel from to yield s =
      if ltb_ℤ (pos 0) (compare_addr from to) then s else range_reverse_loop fuel from to yield s

  unfoldable pub range_reverse : Addr → Addr → Seq Addr S
  range_reverse from to = range_reverse_fuel rounds from to

  unfoldable pub range_reverse_with_index_loop : ℕ → Addr → ℕ → Addr → Seq (ℕ × Addr) S
  range_reverse_with_index_loop zero from index current yield s = s
  range_reverse_with_index_loop (suc fuel) from index current yield s =
      after_yield (yield (index, current) s) (λ s'.
        advance_unless (addr_eq current from) (prev current) s'
          (λ a. range_reverse_with_index_loop fuel from (index + 1) a yield s'))

  unfoldable pub range_reverse_with_index_fuel : ℕ → Addr → Addr → Seq (ℕ × Addr) S
  unfolding range_reverse_with_index_loop
  range_reverse_with_index_fuel fuel from to yield s =
      if ltb_ℤ (pos 0) (compare_addr from to)
      then s
      else range_reverse_with_index_loop fuel from 0 to yield s

  unfoldable pub range_reverse_with_index : Addr → Addr → Seq (ℕ × Addr) S
  range_reverse_with_index from to = range_reverse_with_index_fuel rounds from to

-- `addrToUint64`: shifts in a `uint64`, joined by `|`.
unfoldable pub addr_to_uint64 : Addr → ℕ
addr_to_uint64 a =
    bit_or
      (bit_or
        (bit_or
          (bit_or (bit_or (a.b0 * 2 ^ 40 % 2 ^ 64) (a.b1 * 2 ^ 32 % 2 ^ 64))
            (a.b2 * 2 ^ 24 % 2 ^ 64))
          (a.b3 * 2 ^ 16 % 2 ^ 64))
        (a.b4 * 2 ^ 8 % 2 ^ 64))
      a.b5

-- `uint64` subtraction wraps.
unfoldable pub range_count : Addr → Addr → ℕ
unfolding addr_to_uint64
range_count from to =
    if ltb_ℤ (pos 0) (compare_addr from to)
    then 0
    else (addr_to_uint64 to + 2 ^ 64 - addr_to_uint64 from + 1) % 2 ^ 64

-- The body of the loop of `CollectN`: the state is `count` and `result`.
abbrev pub collect_yield : ℤ → Yield Addr (ℕ × List Addr)
collect_yield max_count a (count, result) =
    if ltb_ℤ (pos 0) max_count && leb_ℤ max_count (pos count)
    then (false, (count, result))
    else (true, (count + 1, result ++ a ∷ []))

-- A nil sequence yields nothing.
unfoldable pub collect_n : Option (Seq Addr (ℕ × List Addr)) → ℤ → List Addr
collect_n none max_count = []
collect_n (some seq) max_count = (seq (collect_yield max_count) (0, [])).1

unfoldable pub count : Option (Seq Addr ℕ) → ℕ
count none = 0
count (some seq) = seq (λ a n. (true, n + 1)) 0
