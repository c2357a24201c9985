-- ===== src/Mac/Format.antt =====
-- pkg/util/xmac/format.go: the eight ways to print an address. A text is the list of its bytes.
use xkit.Prelude.{ℕ, ◌/◌, List, [], ◌∷◌, not, leb, ◌==◌, if◌then◌else◌, bit_and, get_or, Bool}
use xkit.Mac.{Addr, is_valid}

-- The constants of type `Format`, a `uint8`.
abbrev pub format_colon : ℕ
format_colon = 0

abbrev pub format_dash : ℕ
format_dash = 1

abbrev pub format_dot : ℕ
format_dot = 2

abbrev pub format_bare : ℕ
format_bare = 3

abbrev pub format_colon_upper : ℕ
format_colon_upper = 4

abbrev pub format_dash_upper : ℕ
format_dash_upper = 5

abbrev pub format_dot_upper : ℕ
format_dot_upper = 6

abbrev pub format_bare_upper : ℕ
format_bare_upper = 7

unfoldable pub format_is_valid : ℕ → Bool
format_is_valid f = leb f format_bare_upper

abbrev pub hex_lower : List ℕ
hex_lower =
    b'0' ∷ b'1' ∷ b'2' ∷ b'3' ∷ b'4' ∷ b'5' ∷ b'6' ∷ b'7' ∷ b'8' ∷ b'9' ∷ b'a' ∷ b'b' ∷ b'c' ∷ b'd'
    ∷ b'e' ∷ b'f' ∷ []

abbrev pub hex_upper : List ℕ
hex_upper =
    b'0' ∷ b'1' ∷ b'2' ∷ b'3' ∷ b'4' ∷ b'5' ∷ b'6' ∷ b'7' ∷ b'8' ∷ b'9' ∷ b'A' ∷ b'B' ∷ b'C' ∷ b'D'
    ∷ b'E' ∷ b'F' ∷ []

-- `hex[b>>4]` and `hex[b&0x0f]`; a byte keeps both indices below 16.
unfoldable pub high_digit : List ℕ → ℕ → ℕ
high_digit hex b = get_or hex (b / 16) 0

unfoldable pub low_digit : List ℕ → ℕ → ℕ
low_digit hex b = get_or hex (bit_and b 0x0f) 0

unfoldable pub format_with_sep : Addr → ℕ → List ℕ → List ℕ
format_with_sep a sep hex =
    high_digit hex a.b0
    ∷ low_digit hex a.b0
    ∷ sep
    ∷ high_digit hex a.b1
    ∷ low_digit hex a.b1
    ∷ sep
    ∷ high_digit hex a.b2
    ∷ low_digit hex a.b2
    ∷ sep
    ∷ high_digit hex a.b3
    ∷ low_digit hex a.b3
    ∷ sep
    ∷ high_digit hex a.b4
    ∷ low_digit hex a.b4
    ∷ sep
    ∷ high_digit hex a.b5
    ∷ low_digit hex a.b5
    ∷ []

unfoldable pub marshal_colon_bytes : Addr → List ℕ
marshal_colon_bytes a =
    high_digit hex_lower a.b0
    ∷ low_digit hex_lower a.b0
    ∷ b':'
    ∷ high_digit hex_lower a.b1
    ∷ low_digit hex_lower a.b1
    ∷ b':'
    ∷ high_digit hex_lower a.b2
    ∷ low_digit hex_lower a.b2
    ∷ b':'
    ∷ high_digit hex_lower a.b3
    ∷ low_digit hex_lower a.b3
    ∷ b':'
    ∷ high_digit hex_lower a.b4
    ∷ low_digit hex_lower a.b4
    ∷ b':'
    ∷ high_digit hex_lower a.b5
    ∷ low_digit hex_lower a.b5
    ∷ []

unfoldable pub format_dot_groups : Addr → List ℕ → List ℕ
format_dot_groups a hex =
    high_digit hex a.b0
    ∷ low_digit hex a.b0
    ∷ high_digit hex a.b1
    ∷ low_digit hex a.b1
    ∷ b'.'
    ∷ high_digit hex a.b2
    ∷ low_digit hex a.b2
    ∷ high_digit hex a.b3
    ∷ low_digit hex a.b3
    ∷ b'.'
    ∷ high_digit hex a.b4
    ∷ low_digit hex a.b4
    ∷ high_digit hex a.b5
    ∷ low_digit hex a.b5
    ∷ []

unfoldable pub format_bare_digits : Addr → List ℕ → List ℕ
format_bare_digits a hex =
    high_digit hex a.b0
    ∷ low_digit hex a.b0
    ∷ high_digit hex a.b1
    ∷ low_digit hex a.b1
    ∷ high_digit hex a.b2
    ∷ low_digit hex a.b2
    ∷ high_digit hex a.b3
    ∷ low_digit hex a.b3
    ∷ high_digit hex a.b4
    ∷ low_digit hex a.b4
    ∷ high_digit hex a.b5
    ∷ low_digit hex a.b5
    ∷ []

-- `FormatString`; a value outside the constants prints as `format_colon`.
unfoldable pub format_string : Addr → ℕ → List ℕ
unfolding is_valid
format_string a f =
    if not (is_valid a)
    then []
    else if f == format_colon
    then format_with_sep a b':' hex_lower
    else if f == format_dash
    then format_with_sep a b'-' hex_lower
    else if f == format_dot
    then format_dot_groups a hex_lower
    else if f == format_bare
    then format_bare_digits a hex_lower
    else if f == format_colon_upper
    then format_with_sep a b':' hex_upper
    else if f == format_dash_upper
    then format_with_sep a b'-' hex_upper
    else if f == format_dot_upper
    then format_dot_groups a hex_upper
    else if f == format_bare_upper
    then format_bare_digits a hex_upper
    else format_with_sep a b':' hex_lower

unfoldable pub to_string : Addr → List ℕ
unfolding is_valid format_string
to_string a = if not (is_valid a) then [] else format_string a format_colon
