-- ===== src/Mac/Bytes.antt =====
-- Reading and writing one byte of an address, and the weight of a byte in its number.
use xkit.Prelude.{ℕ, zero, suc, ◌+◌, ◌*◌, ◌<◌, ◌≡◌, refl, arith}
use xkit.Mac.{Addr, IsBytes, byte_at, set_byte}
use xkit.Mac.Value.{value}

-- The weight of the last of the first `i` bytes.
abbrev pub weight : ℕ → ℕ
weight zero = 281474976710656
weight (suc zero) = 1099511627776
weight (suc (suc zero)) = 4294967296
weight (suc (suc (suc zero))) = 16777216
weight (suc (suc (suc (suc zero)))) = 65536
weight (suc (suc (suc (suc (suc zero))))) = 256
weight (suc (suc (suc (suc (suc (suc i)))))) = 1

pub byte_at-lt : (a : Addr) (i : ℕ) → IsBytes a → byte_at a i < 256
byte_at-lt a (suc (suc (suc (suc (suc i))))) h = h.fits5
byte_at-lt a _ h = omega arith

pub byte_at-set_byte : (a : Addr) (i v : ℕ) → byte_at (set_byte a i v) i ≡ v
byte_at-set_byte a (suc (suc (suc (suc (suc i))))) v = refl
byte_at-set_byte a _ v = refl

pub set_byte-IsBytes : (a : Addr) (i v : ℕ) → IsBytes a → v < 256 → IsBytes (set_byte a i v)
set_byte-IsBytes a (suc (suc (suc (suc (suc i))))) v h lt = omega arith
set_byte-IsBytes a _ v h lt = omega arith

pub value-set_byte :
    (a : Addr) (i v : ℕ)
    → value (set_byte a i v) + byte_at a i * weight (suc i) ≡ value a + v * weight (suc i)
value-set_byte a (suc (suc (suc (suc (suc i))))) v = omega arith
value-set_byte a _ v = omega arith

pub weight-suc : (i : ℕ) → i < 6 → weight i ≡ 256 * weight (suc i)
weight-suc (suc (suc (suc (suc (suc zero))))) h = refl
weight-suc (suc (suc (suc (suc (suc (suc i)))))) h = absurd (omega arith)
weight-suc _ h = refl
