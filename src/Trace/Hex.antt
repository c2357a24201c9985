-- ===== src/Trace/Hex.antt =====
-- trace.go: hexadecimal texts and their lower case; the flags that are sent.
use xkit.Prelude.{
  ℕ, zero, suc, ◌+◌, ◌≡◌, refl, sym, ap, ◌∙◌, Bool, true, false, ◌==◌, leb, [], ◌∷◌, ◌++◌, length,
  take, drop, arith, take-append,
}
use xkit.Trace.{
  Bytes, is_hex, all_hex, is_valid_hex, lower, to_lower, all_zero, is_valid_id,
  is_valid_trace_flags, hex_val, hex_byte, digits_of, normalize_v00_trace_flags,
}

is_hex-lower : (c : ℕ) → is_hex c ≡ true → is_hex (lower c) ≡ true
unfolding is_hex lower
is_hex-lower c h = ground arith

lower-lower : (c : ℕ) → lower (lower c) ≡ lower c
unfolding lower
lower-lower c = ground arith

lower-zero : (c : ℕ) → (lower c == 48) ≡ (c == 48)
unfolding lower
lower-zero c = ground arith

all_hex-to_lower : (s : Bytes) → all_hex s ≡ true → all_hex (to_lower s) ≡ true
unfolding all_hex to_lower
all_hex-to_lower [] h = refl
all_hex-to_lower (c ∷ s) h = ground (arith, is_hex-lower c, all_hex-to_lower s)

is_valid_hex-to_lower : (s : Bytes) → is_valid_hex s ≡ true → is_valid_hex (to_lower s) ≡ true
unfolding is_valid_hex to_lower
is_valid_hex-to_lower [] h = h
is_valid_hex-to_lower (c ∷ s) h = all_hex-to_lower (c ∷ s) h

all_zero-to_lower : (s : Bytes) → all_zero (to_lower s) ≡ all_zero s
unfolding all_zero to_lower
all_zero-to_lower [] = refl
all_zero-to_lower (c ∷ s) = rw (lower-zero c, all_zero-to_lower s) refl

pub length-to_lower : (s : Bytes) → length (to_lower s) ≡ length s
unfolding to_lower
length-to_lower [] = refl
length-to_lower (c ∷ s) = ap suc (length-to_lower s)

pub to_lower-to_lower : (s : Bytes) → to_lower (to_lower s) ≡ to_lower s
unfolding to_lower
to_lower-to_lower [] = refl
to_lower-to_lower (c ∷ s) = rw (lower-lower c, to_lower-to_lower s) refl

pub is_valid_id-to_lower :
    (n : ℕ) (id : Bytes) → is_valid_id n id ≡ true → is_valid_id n (to_lower id) ≡ true
unfolding is_valid_id
is_valid_id-to_lower n id h =
    ground (arith, length-to_lower id, is_valid_hex-to_lower id, all_zero-to_lower id)

pub is_valid_id-length : (n : ℕ) (id : Bytes) → is_valid_id n id ≡ true → length id ≡ n
unfolding is_valid_id
is_valid_id-length n id h = ground arith

-- The flags that are sent are 00 or 01, of which the lower case and the sampled bit are themselves.
pub to_lower-digits_of : (b : Bool) → to_lower (digits_of b) ≡ digits_of b
unfolding to_lower lower
to_lower-digits_of true = refl
to_lower-digits_of false = refl

pub digits_of-valid : (b : Bool) → is_valid_trace_flags (digits_of b) ≡ true
unfolding is_valid_trace_flags is_valid_hex all_hex is_hex
digits_of-valid true = refl
digits_of-valid false = refl

pub hex_byte-digits_of : (b : Bool) → leb (hex_byte (digits_of b)) 1 ≡ true
unfolding hex_byte hex_val
hex_byte-digits_of true = refl
hex_byte-digits_of false = refl

pub normalize-digits_of : (b : Bool) → normalize_v00_trace_flags (digits_of b) ≡ digits_of b
unfolding normalize_v00_trace_flags hex_byte hex_val
normalize-digits_of true = refl
normalize-digits_of false = refl

pub drop_past : (m k : ℕ) (xs ys : Bytes) → length xs + k ≡ m → drop m (xs ++ ys) ≡ drop k ys
drop_past m k [] ys h = ap (λ (j : ℕ). drop j ys) (omega arith)
drop_past zero k (x ∷ xs) ys h = absurd (omega arith)
drop_past (suc m) k (x ∷ xs) ys h = drop_past m k xs ys (omega arith)

pub take_part : (n : ℕ) (xs ys : Bytes) → length xs ≡ n → take n (xs ++ ys) ≡ xs
take_part n xs ys h = ap (λ (m : ℕ). take m (xs ++ ys)) (sym h) ∙ take-append xs ys

pub length-digits_of : (b : Bool) → length (digits_of b) ≡ 2
length-digits_of true = refl
length-digits_of false = refl

pub take-digits_of : (b : Bool) → take 2 (digits_of b) ≡ digits_of b
take-digits_of true = refl
take-digits_of false = refl
