-- ===== src/Debug/Header.antt =====
-- The header of a message: what `parseHeader` accepts is what `encode` writes.
use xkit.Prelude.{
  ℕ, ◌/◌, ◌%◌, ◌<◌, ◌≤◌, ◌≡◌, ◌↔◌, inl, inr, ap, ◌∙◌, sym, not, ◌==◌, ltb, [], ◌∷◌, length, All,
  Bool-cases, if◌then◌else◌, Result, ok, err, arith,
}
use xkit.Debug.{Error, invalid_message, Bytes}
use xkit.Debug.Codec.{
  new_codec, uint16, uint32, put_uint32, header, parse_header, check_length, safe_int_to_uint32,
}

abbrev pub IsByte : ℕ → Type 0
IsByte n = n < 256

uint32-put_uint32 :
    (n : ℕ)
    → n < 4294967296
    → uint32 (n / 16777216 % 256) (n / 65536 % 256) (n / 256 % 256) (n % 256) ≡ n
uint32-put_uint32 n h = omega arith

-- Two lists of four bytes with equal elements.
four :
    (a b c d a' b' c' d' : ℕ)
    → a ≡ a'
    → b ≡ b'
    → c ≡ c'
    → d ≡ d'
    → a ∷ b ∷ c ∷ d ∷ [] ≡ a' ∷ b' ∷ c' ∷ d' ∷ []
four a b c d a' b' c' d' p q r s = cc

put_uint32-uint32 :
    (a b c d : ℕ)
    → IsByte a
    → IsByte b
    → IsByte c
    → IsByte d
    → put_uint32 (uint32 a b c d) ≡ a ∷ b ∷ c ∷ d ∷ []
put_uint32-uint32 a b c d ha hb hc hd =
    four _ _ _ _ a b c d (omega arith) (omega arith) (omega arith) (omega arith)

check_length-within :
    (msg_type n : ℕ) → n ≤ 1048576 → check_length msg_type n (ok 1048576) ≡ ok (msg_type, n)
check_length-within msg_type n h = ground arith

-- The header that `encode` writes for a payload within the limit is read back.
pub parse_header-header :
    (msg_type n : ℕ) → n ≤ 1048576 → parse_header new_codec (header msg_type n) ≡ ok (msg_type, n)
unfolding parse_header safe_int_to_uint32
parse_header-header msg_type n h =
    rw (uint32-put_uint32 n (omega arith)) (check_length-within msg_type n h)

check_length-ok :
    (msg_type x t n : ℕ)
    → check_length msg_type x (ok 1048576) ≡ ok (t, n)
    → (msg_type ≡ t) × (x ≡ n) × (n ≤ 1048576)
check_length-ok msg_type x t n e = elim (Bool-cases (ltb 1048576 x)) [
  | inl above ↦ absurd (ground arith)
  | inr within ↦ ground arith
]

-- The tests of the first three bytes.
magic_test :
    (m m' v : ℕ) (r : Result Error (ℕ × ℕ)) (x : ℕ × ℕ)
    → IsByte m
    → IsByte m'
    → (if not (uint16 m m' == 56073)
        then err invalid_message
        else if not (v == 1)
        then err invalid_message
        else r)
      ≡ ok x
    → (m ≡ 219) × (m' ≡ 9) × (v ≡ 1) × (r ≡ ok x)
magic_test m m' v r x hm hm' e = elim (Bool-cases (uint16 m m' == 56073)) [
  | inl magic ↦ elim (Bool-cases (v == 1)) [
    | inl version ↦ ground arith
    | inr other ↦ absurd (ground arith)
  ]
  | inr other ↦ absurd (ground arith)
]

header_bytes :
    (m m' v ty t n : ℕ) (l : Bytes)
    → m ≡ 219
    → m' ≡ 9
    → v ≡ 1
    → ty ≡ t
    → l ≡ put_uint32 n
    → m ∷ m' ∷ v ∷ ty ∷ l ≡ header t n
header_bytes m m' v ty t n l p q r s e = cc

parse_header-ok :
    (h : Bytes) (t n : ℕ)
    → All IsByte h
    → length h ≡ 8
    → parse_header new_codec h ≡ ok (t, n)
    → (h ≡ header t n) × (n ≤ 1048576)
unfolding parse_header safe_int_to_uint32
parse_header-ok (m ∷ m' ∷ v ∷ ty ∷ a ∷ b ∷ c ∷ d ∷ []) t n
      (hm, (hm', (hv, (hty, (ha, (hb, (hc, (hd, u)))))))) len e =
    let (p, q, r, checked) =
      magic_test m m' v (check_length ty (uint32 a b c d) (ok 1048576)) (t, n) hm hm' e in
    let (s, x, within) = check_length-ok ty (uint32 a b c d) t n checked in
    (
      header_bytes m m' v ty t n (a ∷ b ∷ c ∷ d ∷ []) p q r s
          (sym (put_uint32-uint32 a b c d ha hb hc hd) ∙ ap put_uint32 x),
      within,
    )
parse_header-ok _ t n bytes len e = absurd (omega arith)

-- Eight bytes are accepted as the header of a message of a type and a length exactly if they are what
-- is written for these, and the length is within the limit.
pub parse_header_iff :
    (h : Bytes) (t n : ℕ)
    → All IsByte h
    → length h ≡ 8
    → (parse_header new_codec h ≡ ok (t, n)) ↔ ((h ≡ header t n) × (n ≤ 1048576))
parse_header_iff h t n bytes len = (
  parse_header-ok h t n bytes len,
  λ ((e, within) : (h ≡ header t n) × (n ≤ 1048576)).
      ap (parse_header new_codec) e ∙ parse_header-header t n within,
)
