-- ===== src/Mac/Encoding.antt =====
-- pkg/util/xmac/encoding.go: the codecs of encoding and database/sql. A method on a nil pointer is
-- the case `none`; the error leaves the receiver as it was, so the new receiver is the result.
use xkit.Prelude.{
  ℕ, ◌≡◌, refl, true, false, not, Option, none, some, List, [], ◌∷◌, Result, ok, err, ◌==◌,
  if◌then◌else◌, length, arith, Bool-cases, inl, inr,
}
use xkit.Mac.{
  Addr, Error, IsBytes, nil_receiver, invalid_length, unsupported_type, zero_addr, is_valid,
}
use xkit.Mac.Format.{
  hex_lower, marshal_colon_bytes, high_digit, low_digit, format_with_sep, format_string, to_string,
}
use xkit.Mac.Parse.{copy_bytes, parse}
use xkit.Mac.RoundTrip.{parse-format_string}

unfoldable pub marshal_binary : Addr → List ℕ
marshal_binary a = a.b0 ∷ a.b1 ∷ a.b2 ∷ a.b3 ∷ a.b4 ∷ a.b5 ∷ []

unfoldable pub unmarshal_binary : Option Addr → List ℕ → Result Error Addr
unfolding copy_bytes
unmarshal_binary none bytes = err nil_receiver
unmarshal_binary (some a) bytes =
    if not (length bytes == 6) then err invalid_length else ok (copy_bytes bytes)

unfoldable pub marshal_text : Addr → List ℕ
unfolding is_valid marshal_colon_bytes
marshal_text a = if not (is_valid a) then [] else marshal_colon_bytes a

-- A driver value: NULL, a string or bytes, or another type.
pub data DriverValue : Type 0 where
  null : DriverValue
  text : List ℕ → DriverValue
  bytes : List ℕ → DriverValue
  other : DriverValue

unfoldable pub sql_value : Addr → DriverValue
unfolding is_valid to_string
sql_value a = if not (is_valid a) then null else text (to_string a)

unfoldable pub marshal_json : Addr → List ℕ
unfolding is_valid
marshal_json a =
    if not (is_valid a)
    then b'"' ∷ b'"' ∷ []
    else b'"'
      ∷ high_digit hex_lower a.b0
      ∷ low_digit hex_lower a.b0
      ∷ b':'
      ∷ high_digit hex_lower a.b1
      ∷ low_digit hex_lower a.b1
      ∷ b':'
      ∷ high_digit hex_lower a.b2
      ∷ low_digit hex_lower a.b2
      ∷ b':'
      ∷ high_digit hex_lower a.b3
      ∷ low_digit hex_lower a.b3
      ∷ b':'
      ∷ high_digit hex_lower a.b4
      ∷ low_digit hex_lower a.b4
      ∷ b':'
      ∷ high_digit hex_lower a.b5
      ∷ low_digit hex_lower a.b5
      ∷ b'"'
      ∷ []

module _ (parse_mac : List ℕ → Option (List ℕ)) where
  -- A text that is not empty is parsed.
  abbrev set_text : List ℕ → Result Error Addr
  set_text s = if length s == 0 then ok zero_addr else parse parse_mac s

  unfoldable pub unmarshal_text : Option Addr → List ℕ → Result Error Addr
  unmarshal_text none s = err nil_receiver
  unmarshal_text (some a) s = set_text s

  -- `Scan`: six bytes are an address as it stands in memory.
  unfoldable pub scan : Option Addr → DriverValue → Result Error Addr
  unfolding copy_bytes
  scan none src = err nil_receiver
  scan (some a) null = ok zero_addr
  scan (some a) (text s) = set_text s
  scan (some a) (bytes v) =
      if length v == 0
      then ok zero_addr
      else if length v == 6
      then ok (copy_bytes v)
      else parse parse_mac v
  scan (some a) other = err unsupported_type

  zero_of_invalid : (a : Addr) → is_valid a ≡ false → a ≡ zero_addr
  unfolding is_valid
  zero_of_invalid a e = ground arith

  marshal_colon_bytes_lem : (a : Addr) → marshal_colon_bytes a ≡ format_with_sep a b':' hex_lower
  unfolding marshal_colon_bytes format_with_sep
  marshal_colon_bytes_lem a = refl

  set_text-format :
      (a : Addr)
      → IsBytes a
      → is_valid a ≡ true
      → set_text (format_with_sep a b':' hex_lower) ≡ ok a
  unfolding format_with_sep
  set_text-format a h e = unfold format_string in rw e at (parse-format_string parse_mac a h 0 e)

  unmarshal_text-marshal_text :
      (a old : Addr) → IsBytes a → unmarshal_text (some old) (marshal_text a) ≡ ok a
  unfolding unmarshal_text marshal_text format_with_sep
  unmarshal_text-marshal_text a old h = elim (Bool-cases (is_valid a)) [
    | inl e ↦ rw e (set_text-format a h e)
    | inr e ↦ rw e (ground (arith, zero_of_invalid a e))
  ]

  scan-sql_value : (a old : Addr) → IsBytes a → scan (some old) (sql_value a) ≡ ok a
  unfolding scan sql_value to_string
  scan-sql_value a old h = elim (Bool-cases (is_valid a)) [
    | inl e ↦ rw e (set_text-format a h e)
    | inr e ↦ rw e (ground (arith, zero_of_invalid a e))
  ]

  -- What `MarshalBinary`, `MarshalText` and `Value` wrote of a byte array, `UnmarshalBinary`,
  -- `UnmarshalText` and `Scan` read back, the zero address too, whatever the receiver held; `Scan`
  -- also takes the six bytes themselves.
  pub codecs_read_back :
      (a old : Addr)
      → IsBytes a
      → (unmarshal_binary (some old) (marshal_binary a) ≡ ok a)
        × (unmarshal_text (some old) (marshal_text a) ≡ ok a)
        × (scan (some old) (sql_value a) ≡ ok a)
        × (scan (some old) (bytes (marshal_binary a)) ≡ ok a)
  codecs_read_back a old h = (
    unfold unmarshal_binary marshal_binary in refl,
    unmarshal_text-marshal_text a old h,
    scan-sql_value a old h,
    unfold scan marshal_binary in refl,
  )
