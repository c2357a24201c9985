-- ===== src/Mac/Step.antt =====
-- `Next` and `Prev` of addr.go as the successor and the predecessor of the 48-bit number.
use xkit.Prelude.{
  ℕ, zero, suc, ◌+◌, ◌-◌, ◌*◌, ◌%◌, ◌≤◌, ◌<◌, ◌≡◌, refl, ap, arith, Bool, true, false, not, Result,
  ok, err, ◌==◌, if◌then◌else◌, Bool-cases, inl, inr, subst, ==_iff,
}
use xkit.Mac.{
  Addr, Error, IsBytes, byte_at, set_byte, overflow, underflow, zero_addr, broadcast_addr, addr_eq,
  next_from, prev_from, next, prev,
}
use xkit.Mac.Value.{value, of_value, of_value-value, value_injective}
use xkit.Mac.Bytes.{
  weight, byte_at-lt, byte_at-set_byte, set_byte-IsBytes, value-set_byte, weight-suc,
}

-- What is added at some byte, and what comes of it.
abbrev Adds : ℕ → Addr → Result Error Addr → Type 0
Adds w a (ok c) = IsBytes c × (value c ≡ value a + w)
Adds w a (err e) = (e ≡ overflow) × (281474976710656 ≤ value a + w)

Adds-if :
    (w : ℕ) (a c : Addr) (b : Bool) (rest : Result Error Addr)
    → (b ≡ true → Adds w a (ok c))
    → (b ≡ false → Adds w a rest)
    → Adds w a (if b then ok c else rest)
Adds-if w a c true rest p q = p refl
Adds-if w a c false rest p q = q refl

Adds-carry :
    (v w : ℕ) (a c : Addr) (r : Result Error Addr)
    → value c + v ≡ value a + w
    → Adds v c r
    → Adds w a r
Adds-carry v w a c (ok d) e h = omega arith
Adds-carry v w a c (err x) e h = (h.0, omega arith)

-- The last byte that is written: one more, with no wrap.
no_carry :
    (b v w x y : ℕ)
    → v ≡ (b + 1) % 256
    → b < 256
    → not (v == 0) ≡ true
    → x + b * w ≡ y + v * w
    → x ≡ y + w
no_carry b v w x y e lt t h =
    let e' : v ≡ b + 1 = ground arith in omega (arith, ap (λ (t : ℕ). t * w) e')

-- A byte that wraps to 0 has lost 255 of its weight.
carry :
    (b v w x y : ℕ)
    → v ≡ (b + 1) % 256
    → b < 256
    → not (v == 0) ≡ false
    → x + b * w ≡ y + v * w
    → x + 256 * w ≡ y + w
carry b v w x y e lt t h =
    let zero_v : v ≡ 0 = ground arith in
    let full : b ≡ 255 = omega arith in
    omega (arith, ap (λ (t : ℕ). t * w) zero_v, ap (λ (t : ℕ). t * w) full)

next_from-Adds : (i : ℕ) (a : Addr) → i ≤ 6 → IsBytes a → Adds (weight i) a (next_from i a)
unfolding next_from
next_from-Adds zero a le h = (refl, omega arith)
next_from-Adds (suc i) a le h =
    let w = weight (suc i) in
    let v = (byte_at a i + 1) % 256 in
    let c = set_byte a i v in
    let new = byte_at-set_byte a i v in
    let moved = value-set_byte a i v in
    let fits = byte_at-lt a i h in
    let IsBytes-c = set_byte-IsBytes a i v h (omega arith) in
    Adds-if w a c _ _
      (λ t. (IsBytes-c, no_carry (byte_at a i) v w _ _ refl fits (rw new at t) moved))
      (λ f.
        Adds-carry (weight i) w a c _
          (rw (weight-suc i le) (carry (byte_at a i) v w _ _ refl fits (rw new at f) moved))
          (next_from-Adds i c (omega arith) IsBytes-c))

-- What is taken at some byte, and what comes of it.
abbrev Takes : ℕ → Addr → Result Error Addr → Type 0
Takes w a (ok c) = IsBytes c × (value c + w ≡ value a)
Takes w a (err e) = (e ≡ underflow) × (value a < w)

Takes-if :
    (w : ℕ) (a c : Addr) (b : Bool) (rest : Result Error Addr)
    → (b ≡ true → Takes w a (ok c))
    → (b ≡ false → Takes w a rest)
    → Takes w a (if b then ok c else rest)
Takes-if w a c true rest p q = p refl
Takes-if w a c false rest p q = q refl

Takes-borrow :
    (v w : ℕ) (a c : Addr) (r : Result Error Addr)
    → value c + w ≡ value a + v
    → Takes v c r
    → Takes w a r
Takes-borrow v w a c (ok d) e h = omega arith
Takes-borrow v w a c (err x) e h = (h.0, omega arith)

no_borrow : (b w x y : ℕ) → not (b == 0) ≡ true → x + b * w ≡ y + (b - 1) * w → x + w ≡ y
no_borrow b w x y t h =
    let e : b ≡ b - 1 + 1 = ground arith in omega (arith, ap (λ (t : ℕ). t * w) e)

-- A byte that borrows goes from 0 to 255.
borrow : (b w x y : ℕ) → not (b == 0) ≡ false → x + b * w ≡ y + 255 * w → x + w ≡ y + 256 * w
borrow b w x y f h = let e : b ≡ 0 = ground arith in omega (arith, ap (λ (t : ℕ). t * w) e)

prev_from-Takes : (i : ℕ) (a : Addr) → i ≤ 6 → IsBytes a → Takes (weight i) a (prev_from i a)
unfolding prev_from
prev_from-Takes zero a le h = (refl, omega arith)
prev_from-Takes (suc i) a le h =
    let w = weight (suc i) in
    let b = byte_at a i in
    let fits = byte_at-lt a i h in
    let full = set_byte a i 255 in
    let IsBytes-full = set_byte-IsBytes a i 255 h (omega arith) in
    Takes-if w a (set_byte a i (b - 1)) _ _
      (λ t. (
        set_byte-IsBytes a i (b - 1) h (omega arith),
        no_borrow b w _ _ t (value-set_byte a i (b - 1)),
      ))
      (λ f.
        Takes-borrow (weight i) w a full _
          (rw (weight-suc i le) (borrow b w _ _ f (value-set_byte a i 255)))
          (prev_from-Takes i full (omega arith) IsBytes-full))

Adds-one :
    (a : Addr) (r : Result Error Addr)
    → IsBytes a
    → Adds 1 a r
    → r ≡ (if value a == 0xffffffffffff then err overflow else ok (of_value (value a + 1)))
Adds-one a (ok c) h k = ground (arith, of_value-value c k.0)
Adds-one a (err e) h k = ground arith

Takes-one :
    (a : Addr) (r : Result Error Addr)
    → Takes 1 a r
    → r ≡ (if value a == 0 then err underflow else ok (of_value (value a - 1)))
Takes-one a (ok c) k = ground (arith, of_value-value c k.0)
Takes-one a (err e) k = ground arith

addr_eq-eq : (a c : Addr) → addr_eq a c ≡ true → a ≡ c
addr_eq-eq a c h = ground arith

addr_eq_refl : (a : Addr) → addr_eq a a ≡ true
addr_eq_refl a = ground arith

-- Two arrays of bytes are equal exactly when their numbers are.
pub addr_eq-value : (a c : Addr) → IsBytes a → IsBytes c → addr_eq a c ≡ (value a == value c)
addr_eq-value a c h k = elim (Bool-cases (addr_eq a c)) [
  | inl e ↦ ground (arith, ap value (addr_eq-eq a c e))
  | inr e ↦ elim (Bool-cases (value a == value c)) [
    | inl t ↦ rw t (
        subst (λ x. addr_eq a x ≡ true) (value_injective a c h k ((==_iff _ _).0 t))
          (addr_eq_refl a))
    | inr f ↦ rw (e, f)
  ]
]

-- On a byte array `Next` is the successor of the number, and fails exactly at the last one.
pub next-value :
    (a : Addr)
    → IsBytes a
    → next a ≡ (if value a == 0xffffffffffff then err overflow else ok (of_value (value a + 1)))
unfolding next
next-value a h =
    rw (addr_eq-value a broadcast_addr h (omega arith))
      (ground (arith, Adds-one a (next_from 6 a) h (next_from-Adds 6 a (omega arith) h)))

-- On a byte array `Prev` is the predecessor of the number, and fails exactly at zero.
pub prev-value :
    (a : Addr)
    → IsBytes a
    → prev a ≡ (if value a == 0 then err underflow else ok (of_value (value a - 1)))
unfolding prev
prev-value a h =
    rw (addr_eq-value a zero_addr h (omega arith))
      (ground (arith, Takes-one a (prev_from 6 a) (prev_from-Takes 6 a (omega arith) h)))
