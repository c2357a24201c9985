-- ===== src/Prelude/Int64.antt =====
-- Go's int64.
use native.Mathlib.Nat.{div-add-mod', mul-le-mul_right, mod-lt}
use native.Mathlib.Omega.{arith}
use Prim.Native.Nat.{ℕ, ◌+◌, ◌-◌, ◌*◌, ◌/◌, ◌%◌, ◌^◌, ◌<◌, ◌≤◌}
use mathlib.Core.Path.{◌≡◌}
use xkit.Prelude.Tests.{ltb, if◌then◌else◌}
use xkit.Prelude.Int.{ℤ, pos, negsuc, pos_part, ◌≤ℤ◌}

-- The representation of an int64 as a number below 2 ^ 64, and back.
abbrev pub unsigned : ℤ → ℕ
unsigned (pos n) = n % 2 ^ 64
unsigned (negsuc n) = 2 ^ 64 - 1 - n % 2 ^ 64

abbrev pub signed : ℕ → ℤ
signed n = if ltb n (2 ^ 63) then pos n else negsuc (2 ^ 64 - 1 - n)

-- `a + b`, `a - b` and `a * b` on int64, which wrap around.
unfoldable pub add_64 : ℤ → ℤ → ℤ
add_64 a c = signed ((unsigned a + unsigned c) % 2 ^ 64)

unfoldable pub sub_64 : ℤ → ℤ → ℤ
sub_64 a c = signed ((unsigned a + (2 ^ 64 - unsigned c)) % 2 ^ 64)

unfoldable pub mul_64 : ℤ → ℤ → ℤ
mul_64 a c = signed ((unsigned a * unsigned c) % 2 ^ 64)

-- `a / b`, which truncates towards 0. The one quotient that overflows is -2 ^ 63 / -1, and b > 0
-- where this is used.
unfoldable pub div_64 : ℤ → ℤ → ℤ
div_64 (pos a) (pos c) = pos (a / c)
div_64 (pos a) (negsuc c) = signed ((2 ^ 64 - a / (c + 1)) % 2 ^ 64)
div_64 (negsuc a) (pos c) = signed ((2 ^ 64 - (a + 1) / c) % 2 ^ 64)
div_64 (negsuc a) (negsuc c) = signed (((a + 1) / (c + 1)) % 2 ^ 64)

pub add_64-pos : (a c : ℕ) → a + c < 2 ^ 63 → add_64 (pos a) (pos c) ≡ pos (a + c)
unfolding add_64
add_64-pos a c h = ground arith

pub sub_64-pos : (a c : ℕ) → c ≤ a → a < 2 ^ 63 → sub_64 (pos a) (pos c) ≡ pos (a - c)
unfolding sub_64
sub_64-pos a c h k = ground arith

pub small : (n : ℕ) → n < 2 ^ 63 → n % 2 ^ 64 ≡ n
small n h = omega arith

succ_le : {a c : ℕ} → a < c → a + 1 ≤ c
succ_le h = omega arith

pub mul_64-pos :
    (a c : ℕ) → a < 2 ^ 63 → c < 2 ^ 63 → a * c < 2 ^ 63 → mul_64 (pos a) (pos c) ≡ pos (a * c)
unfolding mul_64
mul_64-pos a c h k l = rw (small a h, small c k) (ground arith)

module _ (n c d : ℕ) (positive : 0 < d) where
  pub quotient_fits : n ≤ c / d → d * n ≤ c
  quotient_fits h = omega (arith, div-add-mod' c d, mul-le-mul_right d h)

  pub quotient_exceeded : c / d < n → c < d * n
  quotient_exceeded h =
      omega (arith, div-add-mod' c d, mod-lt c positive, mul-le-mul_right d (succ_le h))

abbrev pub max_int64 : ℤ
max_int64 = pos (2 ^ 63 - 1)

pub pos_part-bound : (z : ℤ) → z ≤ℤ max_int64 → pos_part z < 2 ^ 63
pos_part-bound (pos n) h = omega arith
pos_part-bound (negsuc n) h = omega arith
