-- ===== src/Debug/RoundTrip.antt =====
-- What is encoded and sent over a connection is read back, message by message.
use xkit.Prelude.{
  ℕ, zero, suc, ◌+◌, ◌-◌, ◌<◌, ◌≤◌, ◌≡◌, ◌==◌, not, inl, inr, refl, ap, ◌∙◌, sym, Bool, leb, ltb,
  none, some, List, [], ◌∷◌, ◌++◌, map, length, take, All, Bool-cases, ltb→lt, Option-cases,
  if◌then◌else◌, Result, ok, err, arith, length-append, take-append, take-past, length-take,
  drop-append, append_assoc, ◌>>=◌,
}
use xkit.Debug.{Error, marshal_failed, read_payload, Bytes}
use xkit.Debug.Codec.{
  of_header_error, Json, Reader, new_codec, header, encode, encode_payload, safe_int_to_uint32,
  decode, after_header, decode_header, decode_payload, read_full, why_short,
}
use xkit.Debug.Header.{parse_header-header}

abbrev pub reader : Bytes → Bool → Reader
reader bytes fails = record { bytes = bytes; fails = fails }

-- A prefix is no longer than the whole.
reads :
    (xs ys : Bytes) {B : Type 0} (a b : B)
    → (if leb (length xs) (length (xs ++ ys)) then a else b) ≡ a
reads xs ys a b = ground (arith, length-append xs ys)

read_full-append :
    (xs ys : Bytes) (fails : Bool)
    → read_full (length xs) (reader (xs ++ ys) fails) ≡ (ok xs, reader ys fails)
unfolding read_full
read_full-append xs ys fails = rw (take-append xs ys, drop-append xs ys) (reads xs ys _ _)

encode_payload-ok :
    (t : ℕ) (payload m : Bytes)
    → encode_payload new_codec t payload ≡ ok m
    → (m ≡ header t (length payload) ++ payload) × (length payload ≤ 1048576)
unfolding encode_payload safe_int_to_uint32
encode_payload-ok t payload m e = elim (Bool-cases (ltb 1048576 (length payload))) [
  | inl above ↦ absurd (ground arith)
  | inr within ↦ ground arith
]

read_full-short :
    (n : ℕ) (bytes : Bytes) (fails : Bool)
    → length bytes < n
    → read_full n (reader bytes fails) ≡ (err (why_short (reader bytes fails)), reader [] fails)
unfolding read_full
read_full-short n bytes fails h = ground arith

decode_header-header :
    (t n : ℕ) (ys : Bytes) (fails : Bool)
    → n ≤ 1048576
    → decode_header new_codec (reader (header t n ++ ys) fails) ≡ (ok (t, n), reader ys fails)
unfolding decode_header
decode_header-header t n ys fails within =
    rw (read_full-append (header t n) ys fails, parse_header-header t n within) refl

same_type : (t : ℕ) {B : Type 0} (a b : B) → (if not (t == t) then a else b) ≡ b
same_type t a b = ground arith

ok_or_err : {E B : Type 0} (b : B) (e : E) → ◌≡◌ {A = Result E B} (ok b) (err e) → ⊥
ok_or_err b e q = cc

-- Both parts of a message and what follows it were written.
pub bind-ok :
    {E B C : Type 0} (r : Result E B) (f : B → Result E C) (c : C)
    → (r >>= f) ≡ ok c
    → (b : B) × (r ≡ ok b) × (f b ≡ ok c)
bind-ok (ok b) f c e = (b, refl, e)
bind-ok (err x) f c e = absurd (cc)

pub ok_injective : {E B : Type 0} (a b : B) → ◌≡◌ {A = Result E B} (ok a) (ok b) → a ≡ b
ok_injective a b e = cc

module _ {A : Type 0} (json : Json A) where
  -- A value that JSON reads back from its own text.
  abbrev pub IsReadBack : A → Type 0
  IsReadBack x = (p : Bytes) → json.marshal x ≡ some p → json.unmarshal p ≡ some x

  decode_payload-append :
      (t : ℕ) (p ys : Bytes) (fails : Bool) (x : A)
      → json.unmarshal p ≡ some x
      → decode_payload json (reader (p ++ ys) fails) (length p) t t ≡ (ok x, reader ys fails)
  unfolding decode_payload
  decode_payload-append t p ys fails x e = rw (read_full-append p ys fails, e) (same_type t _ _)

  decode-message :
      (t : ℕ) (p ys : Bytes) (fails : Bool) (x : A)
      → length p ≤ 1048576
      → json.unmarshal p ≡ some x
      → decode json new_codec t (reader (header t (length p) ++ p ++ ys) fails)
        ≡ (ok x, reader ys fails)
  unfolding decode
  decode-message t p ys fails x within e =
      ap (after_header json t) (decode_header-header t (length p) (p ++ ys) fails within)
      ∙ decode_payload-append t p ys fails x e

  encode-none :
      (t : ℕ) (x : A) → json.marshal x ≡ none → encode json new_codec t x ≡ err marshal_failed
  unfolding encode
  encode-none t x q = rw (q, encode) refl

  encode-some :
      (t : ℕ) (x : A) (p : Bytes)
      → json.marshal x ≡ some p
      → encode json new_codec t x ≡ encode_payload new_codec t p
  unfolding encode
  encode-some t x p q = rw (q, encode) refl

  encode-ok :
      (t : ℕ) (x : A) (m : Bytes)
      → encode json new_codec t x ≡ ok m
      → (p : Bytes) × (json.marshal x ≡ some p)
        × (m ≡ header t (length p) ++ p)
        × (length p ≤ 1048576)
  encode-ok t x m e = elim (Option-cases (json.marshal x)) [
    | inl q ↦ absurd (ok_or_err _ _ (sym e ∙ encode-none t x q))
    | inr (p, q) ↦
        let (is, within) = encode_payload-ok t p m (sym (encode-some t x p q) ∙ e) in
        (p, q, is, within)
  ]

  pub decode-encode :
      (t : ℕ) (x : A) (m ys : Bytes) (fails : Bool)
      → IsReadBack x
      → encode json new_codec t x ≡ ok m
      → decode json new_codec t (reader (m ++ ys) fails) ≡ (ok x, reader ys fails)
  decode-encode t x m ys fails back e =
      let (p, q, is, within) = encode-ok t x m e in
      rw is (decode-message t p ys fails x within (back p q))

  -- The messages of one type, one after another on a connection.
  abbrev pub encode_all : ℕ → List A → Result Error Bytes
  encode_all t [] = ok []
  encode_all t (x ∷ xs) = encode json new_codec t x >>= λ m. encode_all t xs >>= λ ms. ok (m ++ ms)

  abbrev pub decode_all : ℕ → ℕ → Reader → List (Result Error A) × Reader
  decode_all t zero r = ([], r)
  decode_all t (suc n) r =
      let (x, r') = decode json new_codec t r in let (xs, r'') = decode_all t n r' in (x ∷ xs, r'')

  pub decode_all-encode_all :
      (t : ℕ) (xs : List A) (stream rest : Bytes) (fails : Bool)
      → All IsReadBack xs
      → encode_all t xs ≡ ok stream
      → decode_all t (length xs) (reader (stream ++ rest) fails) ≡ (map ok xs, reader rest fails)
  decode_all-encode_all t [] stream rest fails back e = rw (sym (ok_injective _ _ e)) refl
  decode_all-encode_all t (x ∷ xs) stream rest fails (back, backs) e =
      let (m, first, e') = bind-ok (encode json new_codec t x) _ stream e in
      let (ms, others, e'') = bind-ok (encode_all t xs) _ stream e' in
      rw
        (
          sym (ok_injective _ _ e''),
          append_assoc m ms rest,
          decode-encode t x m (ms ++ rest) fails back first,
          decode_all-encode_all t xs ms rest fails backs others,
        )
        refl

  decode_payload-short :
      (t n : ℕ) (p : Bytes) (fails : Bool)
      → length p < n
      → decode_payload json (reader p fails) n t t
        ≡ (err (read_payload (why_short (reader p fails))), reader [] fails)
  unfolding decode_payload
  decode_payload-short t n p fails h = rw (read_full-short n p fails h) (same_type t _ _)

  decode-no_header :
      (t : ℕ) (bytes : Bytes) (fails : Bool)
      → length bytes < 8
      → (x : Error) × ((decode json new_codec t (reader bytes fails)).0 ≡ err x)
  unfolding decode
  decode-no_header t bytes fails h = (
    of_header_error (why_short (reader bytes fails)),
    rw (decode_header, read_full-short 8 bytes fails h) refl,
  )

  decode-no_payload :
      (t n : ℕ) (p : Bytes) (fails : Bool)
      → n ≤ 1048576
      → length p < n
      → (decode json new_codec t (reader (header t n ++ p) fails)).0
        ≡ err (read_payload (why_short (reader p fails)))
  unfolding decode
  decode-no_payload t n p fails within short =
      ap (λ (r : Result Error A × Reader). r.0)
        (ap (after_header json t) (decode_header-header t n p fails within)
          ∙ decode_payload-short t n p fails short)

  -- A connection that ends within a message gives an error and no message.
  pub decode-cut :
      (t k : ℕ) (x : A) (m : Bytes) (fails : Bool)
      → encode json new_codec t x ≡ ok m
      → k < length m
      → (y : Error) × ((decode json new_codec t (reader (take k m) fails)).0 ≡ err y)
  decode-cut t k x m fails e h =
      let (p, q, is, within) = encode-ok t x m e in
      let size : length m ≡ 8 + length p = omega (arith, ap length is) in
      elim (Bool-cases (ltb k 8)) [
        | inl in_header ↦
            decode-no_header t (take k m) fails
              (omega (arith, length-take k m (omega arith), ltb→lt k 8 in_header))
        | inr beyond ↦
            let rest = k - 8 in
            let cut : take k m ≡ header t (length p) ++ take rest p =
              ap (take k) is ∙ take-past (header t (length p)) p rest k (ground arith) in
            let short : length (take rest p) < length p =
              ground (arith, length-take rest p (ground arith)) in
            (
              read_payload (why_short (reader (take rest p) fails)),
              rw cut (decode-no_payload t (length p) (take rest p) fails within short),
            )
      ]
