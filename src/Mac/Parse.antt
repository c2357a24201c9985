-- ===== src/Mac/Parse.antt =====
-- pkg/util/xmac/parse.go. The last resort, `net.ParseMAC` of the standard library, is the parameter
-- `parse_mac`, which returns the address's bytes or fails.
pub mod Trim
use Trim.{trim_space}
use xkit.Prelude.{
  ℕ, zero, suc, ◌+◌, ◌-◌, ◌*◌, ◌%◌, Bool, true, false, not, ◌&&◌, ◌||◌, Option, none, some, List,
  [], ◌∷◌, Result, ok, err, ◌>>=◌, leb, ◌==◌, if◌then◌else◌, bit_or, get_or, length,
}
use xkit.Mac.{Addr, Error, empty, invalid_format, invalid_length, byte_at, set_byte, zero_addr}

unfoldable pub hex_value : ℕ → Option ℕ
hex_value c =
    if leb b'0' c && leb c b'9'
    then some (c - b'0')
    else if leb b'a' c && leb c b'f'
    then some (c - b'a' + 10)
    else if leb b'A' c && leb c b'F'
    then some (c - b'A' + 10)
    else none

unfoldable pub parse_hex_byte : ℕ → ℕ → Result Error ℕ
unfolding hex_value
parse_hex_byte high low = elim (hex_value high) [
  | none ↦ err invalid_format
  | some h ↦ elim (hex_value low) [
    | none ↦ err invalid_format
    | some l ↦ ok (bit_or (h * 16 % 256) l)
  ]
]

-- `strings.ContainsAny(s, ":-.")`
unfoldable pub contains_separator : List ℕ → Bool
contains_separator [] = false
contains_separator (c ∷ s) = (c == b':' || c == b'-' || c == b'.') || contains_separator s

-- The loop of the three parsers: byte `i` of the address is read at `offset i`. The callers have
-- checked the length, so no read is out of range.
unfoldable pub parse_groups : (ℕ → ℕ) → ℕ → ℕ → List ℕ → Addr → Result Error Addr
parse_groups offset zero i s a = ok a
parse_groups offset (suc rounds) i s a = do
  b ← parse_hex_byte (get_or s (offset i) 0) (get_or s (offset i + 1) 0)
  parse_groups offset rounds (i + 1) s (set_byte a i b)

unfoldable pub parse_with_separator : List ℕ → ℕ → Result Error Addr
unfolding parse_groups
parse_with_separator s sep =
    if not (get_or s 5 0 == sep)
      || not (get_or s 8 0 == sep)
      || not (get_or s 11 0 == sep)
      || not (get_or s 14 0 == sep)
    then err invalid_format
    else parse_groups (λ i. i * 3) 6 0 s zero_addr

abbrev pub dot_offsets : List ℕ
dot_offsets = 0 ∷ 2 ∷ 5 ∷ 7 ∷ 10 ∷ 12 ∷ []

unfoldable pub parse_dot : List ℕ → Result Error Addr
unfolding parse_groups
parse_dot s = parse_groups (λ i. get_or dot_offsets i 0) 6 0 s zero_addr

unfoldable pub parse_no_separator : List ℕ → Result Error Addr
unfolding parse_groups
parse_no_separator s = parse_groups (λ i. i * 2) 6 0 s zero_addr

-- `copy(addr.bytes[:], b)` from a zero address.
unfoldable pub copy_bytes : List ℕ → Addr
copy_bytes b = record {
  b0 = get_or b 0 0;
  b1 = get_or b 1 0;
  b2 = get_or b 2 0;
  b3 = get_or b 3 0;
  b4 = get_or b 4 0;
  b5 = get_or b 5 0;
}

unfoldable pub parse_bytes : List ℕ → Result Error Addr
unfolding copy_bytes
parse_bytes b = if not (length b == 6) then err invalid_length else ok (copy_bytes b)

module _ (parse_mac : List ℕ → Option (List ℕ)) where
  unfoldable pub parse_stdlib : List ℕ → Result Error Addr
  unfolding copy_bytes
  parse_stdlib s = elim (parse_mac s) [
    | none ↦ err invalid_format
    | some hw ↦ if not (length hw == 6) then err invalid_length else ok (copy_bytes hw)
  ]

  -- `Parse` on the trimmed text.
  unfoldable pub parse_trimmed : List ℕ → Result Error Addr
  unfolding contains_separator parse_no_separator parse_with_separator parse_dot parse_stdlib
  parse_trimmed s =
      if length s == 0
      then err empty
      else if length s == 12 && not (contains_separator s)
      then parse_no_separator s
      else if length s == 17 && (get_or s 2 0 == b':' || get_or s 2 0 == b'-')
      then parse_with_separator s (get_or s 2 0)
      else if length s == 14 && get_or s 4 0 == b'.' && get_or s 9 0 == b'.'
      then parse_dot s
      else parse_stdlib s

  unfoldable pub parse : List ℕ → Result Error Addr
  unfolding trim_space parse_trimmed
  parse s = parse_trimmed (trim_space s)
