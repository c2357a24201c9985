-- ===== src/Mac/Order.antt =====
-- `Compare` of addr.go against the order of the 48-bit numbers.
use native.Mathlib.Nat.{pow-suc}
use xkit.Prelude.{
  ℕ, zero, suc, ◌+◌, ◌*◌, ◌^◌, ◌<◌, ◌≡◌, refl, ◌↔◌, ◌⊎◌, inl, inr, ap, arith, ℤ, pos, negsuc, ltb,
  if◌then◌else◌,
}
use xkit.Mac.{Addr, IsBytes, byte_at, compare_from, compare_addr}
use xkit.Mac.Value.{value}
use xkit.Mac.Bytes.{byte_at-lt}

-- `r` tells how `x` lies to `y`.
abbrev Tells : ℤ → ℕ → ℕ → Type 0
Tells r x y = ((r ≡ negsuc 0) × (x < y)) ⊎ ((r ≡ pos 0) × (x ≡ y)) ⊎ ((r ≡ pos 1) × (y < x))

lt_by_digit : (w x y u v : ℕ) → u < w → x < y → x * w + u < y * w + v
lt_by_digit w x y u v hu h = grind arith

-- One digit decides, or leaves it to the rest, where the rests are below its weight.
Tells-digit :
    (w x y u v : ℕ) (r : ℤ)
    → u < w
    → v < w
    → Tells r u v
    → Tells (if ltb x y then negsuc 0 else if ltb y x then pos 1 else r) (x * w + u) (y * w + v)
Tells-digit w x y u v r hu hv h =
    ground
      (arith, lt_by_digit w x y u v, lt_by_digit w y x v u, ap (λ (t : ℕ). t * w) {x = x} {y = y})

-- The number that `rounds` bytes from byte `i` on spell.
tail_value : ℕ → ℕ → Addr → ℕ
tail_value zero i a = 0
tail_value (suc rounds) i a = byte_at a i * 256 ^ rounds + tail_value rounds (i + 1) a

tail_value-lt : (rounds i : ℕ) (a : Addr) → IsBytes a → tail_value rounds i a < 256 ^ rounds
unfolding tail_value
tail_value-lt zero i a h = omega arith
tail_value-lt (suc r) i a h =
    let below =
      lt_by_digit (256 ^ r) (byte_at a i) 256 (tail_value r (i + 1) a) 0
        (tail_value-lt r (i + 1) a h) (byte_at-lt a i h) in
    omega (arith, pow-suc 256 r)

compare_from-Tells :
    (rounds i : ℕ) (a c : Addr)
    → IsBytes a
    → IsBytes c
    → Tells (compare_from rounds i a c) (tail_value rounds i a) (tail_value rounds i c)
unfolding compare_from tail_value
compare_from-Tells zero i a c h k = inr (inl (refl, refl))
compare_from-Tells (suc r) i a c h k =
    Tells-digit (256 ^ r) (byte_at a i) (byte_at c i) _ _ _ (tail_value-lt r (i + 1) a h)
      (tail_value-lt r (i + 1) c k) (compare_from-Tells r (i + 1) a c h k)

tail_value-value : (a : Addr) → tail_value 6 0 a ≡ value a
unfolding tail_value
tail_value-value a = omega arith

compare_addr-Tells :
    (a c : Addr) → IsBytes a → IsBytes c → Tells (compare_addr a c) (value a) (value c)
unfolding compare_addr
compare_addr-Tells a c h k =
    rw (← tail_value-value a, ← tail_value-value c) (compare_from-Tells 6 0 a c h k)

-- On byte arrays `Compare` is -1, 0 or 1 exactly as the number of the first address lies below, at
-- or above that of the second.
pub compare_addr-value :
    (a c : Addr)
    → IsBytes a
    → IsBytes c
    → ((compare_addr a c ≡ negsuc 0) ↔ (value a < value c))
      × ((compare_addr a c ≡ pos 0) ↔ (value a ≡ value c))
      × ((compare_addr a c ≡ pos 1) ↔ (value c < value a))
compare_addr-value a c h k = ground (arith, compare_addr-Tells a c h k)
