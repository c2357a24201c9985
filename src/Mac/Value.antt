-- ===== src/Mac/Value.antt =====
-- An address as the 48-bit number that its bytes spell.
use xkit.Prelude.{ℕ, ◌+◌, ◌*◌, ◌/◌, ◌%◌, ◌^◌, ◌<◌, ◌≡◌, arith}
use xkit.Mac.{Addr, IsBytes}

abbrev pub value : Addr → ℕ
value a =
    a.b0 * 1099511627776 + a.b1 * 4294967296 + a.b2 * 16777216 + a.b3 * 65536 + a.b4 * 256 + a.b5

-- The bytes of a number.
unfoldable pub of_value : ℕ → Addr
of_value v = record {
  b0 = v / 1099511627776 % 256;
  b1 = v / 4294967296 % 256;
  b2 = v / 16777216 % 256;
  b3 = v / 65536 % 256;
  b4 = v / 256 % 256;
  b5 = v % 256;
}

pub addr_count : ℕ
addr_count = 2 ^ 48

pub of_value-value : (a : Addr) → IsBytes a → of_value (value a) ≡ a
unfolding of_value
of_value-value a h = ground arith

pub value-of_value : (v : ℕ) → v < 2 ^ 48 → value (of_value v) ≡ v
unfolding of_value
value-of_value v h = omega arith

pub of_value-IsBytes : (v : ℕ) → IsBytes (of_value v)
unfolding of_value
of_value-IsBytes v = omega arith

pub value_injective : (a c : Addr) → IsBytes a → IsBytes c → value a ≡ value c → a ≡ c
value_injective a c h k e = ground arith
