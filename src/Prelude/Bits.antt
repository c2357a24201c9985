-- ===== src/Prelude/Bits.antt =====
-- Where the low `k` bits of `x` are clear and `y` has no others, `x | y` is the sum.
use Prim.Native.Nat.{ℕ, zero, suc, ◌+◌, ◌*◌, ◌/◌, ◌%◌, ◌^◌, ◌≤◌, ◌<◌, max}
use Prim.Native.Nat.{bit_or, digits, bit_or-bitwise}
use native.Mathlib.Nat.{pow-suc, le_refl}
use mathlib.Core.Path.{◌≡◌, refl, ap, ◌∙◌}
use native.Mathlib.Omega.{arith}

-- `bit_or` means this recursion on binary digits, at the fuel `x`.
abbrev join : ℕ → ℕ → ℕ → ℕ
join = digits (λ y. y) max

join-clear : (fuel x : ℕ) → x ≤ fuel → join fuel x 0 ≡ x
join-clear zero zero fits = refl
join-clear zero (suc x) fits = absurd (omega arith)
join-clear (suc fuel) zero fits = refl
join-clear (suc fuel) (suc x) fits = omega (arith, join-clear fuel (suc x / 2) (omega arith))

half_shift : (k q x : ℕ) → x ≡ q * 2 ^ suc k → x / 2 ≡ q * 2 ^ k
half_shift k q x e = omega (arith, e, ap (λ (p : ℕ). q * p) (pow-suc 2 k))

even_shift : (k q x : ℕ) → x ≡ q * 2 ^ suc k → x % 2 ≡ 0
even_shift k q x e = omega (arith, e, ap (λ (p : ℕ). q * p) (pow-suc 2 k))

join-fields : (k q fuel x y : ℕ) → x ≡ q * 2 ^ k → y < 2 ^ k → x ≤ fuel → join fuel x y ≡ x + y
join-fields zero q fuel x zero e small fits = omega (arith, join-clear fuel x fits)
join-fields zero q fuel x (suc y) e small fits = absurd (omega arith)
join-fields (suc k) q zero zero y e small fits = omega arith
join-fields (suc k) q zero (suc x) y e small fits = absurd (omega arith)
join-fields (suc k) q (suc fuel) zero y e small fits = omega arith
join-fields (suc k) q (suc fuel) (suc x) y e small fits = omega (
  arith,
  even_shift k q (suc x) e,
  join-fields k q fuel (suc x / 2) (y / 2) (half_shift k q (suc x) e) (omega (arith, pow-suc 2 k))
      (omega arith),
)

pub bit_or-eq-add : (k q r : ℕ) → r < 2 ^ k → bit_or (q * 2 ^ k) r ≡ q * 2 ^ k + r
bit_or-eq-add k q r small =
    bit_or-bitwise (q * 2 ^ k) r
    ∙ join-fields k q (q * 2 ^ k) (q * 2 ^ k) r refl small (le_refl (q * 2 ^ k))
