-- ===== src/Mac.antt =====
-- pkg/util/xmac: 48-bit MAC addresses (addr.go, special.go, validate.go).
pub mod Value
mod Bytes
pub mod Order
pub mod Step
pub mod Format
pub mod Parse
pub mod RoundTrip
pub mod Soundness
pub mod Iter
pub mod Ranges
pub mod Counting
pub mod Reverse
pub mod Encoding
mod Examples
use xkit.Prelude.{
  ℕ, zero, suc, ◌+◌, ◌-◌, ◌*◌, ◌%◌, ◌≤◌, ◌<◌, ◌≡◌, Bool, true, false, not, ◌&&◌, ◌||◌, List, [],
  ◌∷◌, ℤ, pos, negsuc, Result, ok, err, ltb, ◌==◌, if◌then◌else◌, bit_and,
}

-- The error values of the package that its functions wrap.
pub data Error : Type 0 where
  empty invalid_format invalid_length overflow underflow nil_receiver unsupported_type : Error

-- The array `bytes [6]byte`, field `b0` the most significant.
pub record Addr : Type 0 where
  pub b0 : ℕ
  pub b1 : ℕ
  pub b2 : ℕ
  pub b3 : ℕ
  pub b4 : ℕ
  pub b5 : ℕ

-- Go's `byte` is below 256.
pub record IsBytes (a : Addr) : Type 0 where
  pub fits0 : a.b0 < 256
  pub fits1 : a.b1 < 256
  pub fits2 : a.b2 < 256
  pub fits3 : a.b3 < 256
  pub fits4 : a.b4 < 256
  pub fits5 : a.b5 < 256

-- `a.bytes[i]`; an index above 5 is not reached by the code.
abbrev pub byte_at : Addr → ℕ → ℕ
byte_at a zero = a.b0
byte_at a (suc zero) = a.b1
byte_at a (suc (suc zero)) = a.b2
byte_at a (suc (suc (suc zero))) = a.b3
byte_at a (suc (suc (suc (suc zero)))) = a.b4
byte_at a (suc (suc (suc (suc (suc i))))) = a.b5

-- `a.bytes[i] = v`
abbrev pub set_byte : Addr → ℕ → ℕ → Addr
set_byte a zero v = record a { b0 = v }
set_byte a (suc zero) v = record a { b1 = v }
set_byte a (suc (suc zero)) v = record a { b2 = v }
set_byte a (suc (suc (suc zero))) v = record a { b3 = v }
set_byte a (suc (suc (suc (suc zero)))) v = record a { b4 = v }
set_byte a (suc (suc (suc (suc (suc i))))) v = record a { b5 = v }

abbrev pub zero_addr : Addr
zero_addr = record { b0 = 0; b1 = 0; b2 = 0; b3 = 0; b4 = 0; b5 = 0 }

abbrev pub broadcast_addr : Addr
broadcast_addr = record { b0 = 255; b1 = 255; b2 = 255; b3 = 255; b4 = 255; b5 = 255 }

-- Go's `==` on two arrays.
abbrev pub addr_eq : Addr → Addr → Bool
addr_eq a c =
    a.b0 == c.b0 && a.b1 == c.b1 && a.b2 == c.b2 && a.b3 == c.b3 && a.b4 == c.b4 && a.b5 == c.b5

unfoldable pub is_valid : Addr → Bool
is_valid a = not (addr_eq a zero_addr)

-- `for i := range 6`: `rounds` are left, and `i` is the index.
compare_from : ℕ → ℕ → Addr → Addr → ℤ
compare_from zero i a c = pos 0
compare_from (suc rounds) i a c =
    let rest = compare_from rounds (i + 1) a c in
    if ltb (byte_at a i) (byte_at c i)
    then negsuc 0
    else if ltb (byte_at c i) (byte_at a i)
    then pos 1
    else rest

unfoldable pub compare_addr : Addr → Addr → ℤ
unfolding compare_from
compare_addr a c = compare_from 6 0 a c

-- `for i := 5; i >= 0; i--`: the argument is `i + 1`.
next_from : ℕ → Addr → Result Error Addr
next_from zero a = err overflow
next_from (suc i) a =
    let a' = set_byte a i ((byte_at a i + 1) % 256) in
    let rest = next_from i a' in if not (byte_at a' i == 0) then ok a' else rest

unfoldable pub next : Addr → Result Error Addr
unfolding next_from
next a = if addr_eq a broadcast_addr then err overflow else next_from 6 a

prev_from : ℕ → Addr → Result Error Addr
prev_from zero a = err underflow
prev_from (suc i) a =
    let rest = prev_from i (set_byte a i 0xff) in
    if not (byte_at a i == 0) then ok (set_byte a i (byte_at a i - 1)) else rest

unfoldable pub prev : Addr → Result Error Addr
unfolding prev_from
prev a = if addr_eq a zero_addr then err underflow else prev_from 6 a

unfoldable pub hardware_addr : Addr → List ℕ
unfolding is_valid
hardware_addr a = if not (is_valid a) then [] else a.b0 ∷ a.b1 ∷ a.b2 ∷ a.b3 ∷ a.b4 ∷ a.b5 ∷ []

-- validate.go
unfoldable pub is_zero : Addr → Bool
is_zero a = addr_eq a zero_addr

unfoldable pub is_broadcast : Addr → Bool
is_broadcast a = addr_eq a broadcast_addr

unfoldable pub is_unicast : Addr → Bool
unfolding is_valid
is_unicast a = is_valid a && bit_and a.b0 0x01 == 0

unfoldable pub is_multicast : Addr → Bool
unfolding is_valid
is_multicast a = is_valid a && bit_and a.b0 0x01 == 1

unfoldable pub is_locally_administered : Addr → Bool
unfolding is_valid
is_locally_administered a = is_valid a && bit_and a.b0 0x02 == 0x02

unfoldable pub is_universally_administered : Addr → Bool
unfolding is_valid
is_universally_administered a = is_valid a && bit_and a.b0 0x02 == 0

unfoldable pub oui : Addr → List ℕ
unfolding is_valid
oui a = if not (is_valid a) then 0 ∷ 0 ∷ 0 ∷ [] else a.b0 ∷ a.b1 ∷ a.b2 ∷ []

unfoldable pub nic : Addr → List ℕ
unfolding is_valid
nic a = if not (is_valid a) then 0 ∷ 0 ∷ 0 ∷ [] else a.b3 ∷ a.b4 ∷ a.b5 ∷ []

-- special.go
unfoldable pub is_special : Addr → Bool
unfolding is_zero is_broadcast
is_special a = is_zero a || is_broadcast a

unfoldable pub is_usable : Addr → Bool
unfolding is_valid is_special
is_usable a = is_valid a && not (is_special a)
