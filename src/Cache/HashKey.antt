-- ===== src/Cache/HashKey.antt =====
-- loader_impl.go: hashFieldKey. Texts are the bytes of their UTF-8, `b':'` is 58 and `b'0'` is 48.
use xkit.Prelude.{
  ℕ, zero, suc, ◌+◌, ◌*◌, ◌/◌, ◌%◌, ◌<◌, ◌≤◌, ◌≡◌, refl, sym, ap, ◌∙◌, inl, inr, ltb, [], ◌∷◌, ◌++◌,
  length, if◌then◌else◌, Bool-cases, All, arith, if-elim, ◌-◌,
}
use xkit.Cache.{Bytes}

-- strconv.Itoa of a length, the last digit last; the number itself is fuel enough.
unfoldable pub digits : ℕ → ℕ → Bytes
digits zero n = (48 + n % 10) ∷ []
digits (suc fuel) n =
    let before = digits fuel (n / 10) in
    if ltb n 10 then (48 + n % 10) ∷ [] else before ++ (48 + n % 10) ∷ []

abbrev pub itoa : ℕ → Bytes
itoa n = digits n n

unfoldable pub hash_field_key : Bytes → Bytes → Bytes
unfolding digits
hash_field_key k f = itoa (length k) ++ 58 ∷ (k ++ 58 ∷ f)

-- The number that digits stand for.
value_of : ℕ → Bytes → ℕ
value_of acc [] = acc
value_of acc (c ∷ cs) = value_of (acc * 10 + (c - 48)) cs

value_of-snoc :
    (acc c : ℕ) (xs : Bytes) → value_of acc (xs ++ c ∷ []) ≡ value_of acc xs * 10 + (c - 48)
unfolding value_of
value_of-snoc acc c [] = refl
value_of-snoc acc c (x ∷ xs) = value_of-snoc (acc * 10 + (x - 48)) c xs

digits-value_of : (fuel n : ℕ) → n ≤ fuel → value_of 0 (digits fuel n) ≡ n
unfolding digits value_of
digits-value_of zero n h = omega arith
digits-value_of (suc fuel) n h = elim (Bool-cases (ltb n 10)) [
  | inl small ↦ rw small (ground arith)
  | inr large ↦ rw large (
      value_of-snoc 0 (48 + n % 10) (digits fuel (n / 10))
      ∙ ground (arith, digits-value_of fuel (n / 10)))
]

abbrev IsDigit : ℕ → Type 0
IsDigit c = c < 58

All-append : (xs ys : Bytes) → All IsDigit xs → All IsDigit ys → All IsDigit (xs ++ ys)
All-append [] ys h k = k
All-append (x ∷ xs) ys (h, hs) k = (h, All-append xs ys hs k)

digits-IsDigit : (fuel n : ℕ) → All IsDigit (digits fuel n)
unfolding digits
digits-IsDigit zero n = (omega arith, tt)
digits-IsDigit (suc fuel) n =
    if-elim (All IsDigit) (ltb n 10) _ _ (λ h. (omega arith, tt))
      (λ h. All-append (digits fuel (n / 10)) _ (digits-IsDigit fuel (n / 10)) (omega arith, tt))

cons-injective : (x y : ℕ) (xs ys : Bytes) → x ∷ xs ≡ y ∷ ys → (x ≡ y) × (xs ≡ ys)
cons-injective x y xs ys e = (cc, cc)

-- The first colon ends the digits.
split_digits :
    (xs ys r s : Bytes)
    → All IsDigit xs
    → All IsDigit ys
    → xs ++ 58 ∷ r ≡ ys ++ 58 ∷ s
    → (xs ≡ ys) × (r ≡ s)
split_digits [] [] r s h k e = (refl, (cons-injective 58 58 r s e).1)
split_digits [] (y ∷ ys) r s h (k, ks) e =
    absurd (omega (arith, (cons-injective 58 y r (ys ++ 58 ∷ s) e).0))
split_digits (x ∷ xs) [] r s (h, hs) k e =
    absurd (omega (arith, (cons-injective x 58 (xs ++ 58 ∷ r) s e).0))
split_digits (x ∷ xs) (y ∷ ys) r s (h, hs) (k, ks) e =
    let (p, q) = cons-injective x y (xs ++ 58 ∷ r) (ys ++ 58 ∷ s) e in
    let (same, rest) = split_digits xs ys r s hs ks q in (cc, rest)

split_length :
    (xs ys r s : Bytes) → length xs ≡ length ys → xs ++ 58 ∷ r ≡ ys ++ 58 ∷ s → (xs ≡ ys) × (r ≡ s)
split_length [] [] r s len e = (refl, (cons-injective 58 58 r s e).1)
split_length [] (y ∷ ys) r s len e = absurd (omega arith)
split_length (x ∷ xs) [] r s len e = absurd (omega arith)
split_length (x ∷ xs) (y ∷ ys) r s len e =
    let (p, q) = cons-injective x y (xs ++ 58 ∷ r) (ys ++ 58 ∷ s) e in
    let (same, rest) = split_length xs ys r s (omega arith) q in (cc, rest)

-- Different fields of hashes have different keys, whatever bytes their names contain.
pub hash_field_key-injective :
    (k f k' f' : Bytes) → hash_field_key k f ≡ hash_field_key k' f' → (k ≡ k') × (f ≡ f')
unfolding hash_field_key
hash_field_key-injective k f k' f' e =
    let (numbers, rest) =
      split_digits (itoa (length k)) (itoa (length k')) (k ++ 58 ∷ f) (k' ++ 58 ∷ f')
        (digits-IsDigit (length k) (length k)) (digits-IsDigit (length k') (length k')) e in
    let len : length k ≡ length k' =
      sym (digits-value_of (length k) (length k) (omega arith))
      ∙ ap (value_of 0) numbers
      ∙ digits-value_of (length k') (length k') (omega arith) in
    split_length k k' f f' len rest
