-- ===== src/Mac/Examples.antt =====
-- Runs of the package at concrete addresses and texts.
use xkit.Prelude.{
  Bool, ℕ, ◌≡◌, refl, ◌+◌, true, none, some, Option, List, [], ◌∷◌, pos, ok, err, arith,
}
use xkit.Mac.{Addr, IsBytes, compare_addr, next, is_valid, empty}
use xkit.Mac.Value.{value, of_value}
use xkit.Mac.Step.{next-value}
use xkit.Mac.Format.{format_string, format_dot_upper}
use xkit.Mac.Parse.{parse, parse_hex_byte}
use xkit.Mac.RoundTrip.{parse-format_string}
use xkit.Mac.Iter.{range_fuel, rounds, range, range_count, collect_n}
use xkit.Mac.Ranges.{up, for_each, range-for_each}
use xkit.Mac.Encoding.{
  bytes, unmarshal_binary, marshal_binary, unmarshal_text, marshal_text, scan, sql_value,
  codecs_read_back,
}

-- 00:1a:2b:3c:fe:ff and the address two above it.
abbrev host : Addr
host = record { b0 = 0; b1 = 0x1a; b2 = 0x2b; b3 = 0x3c; b4 = 0xfe; b5 = 0xff }

abbrev peer : Addr
peer = record { b0 = 0; b1 = 0x1a; b2 = 0x2b; b3 = 0x3c; b4 = 0xff; b5 = 0x01 }

abbrev no_mac : List ℕ → Option (List ℕ)
no_mac s = none

host-IsBytes : IsBytes host
host-IsBytes = omega arith

peer-IsBytes : IsBytes peer
peer-IsBytes = omega arith

next-host : next host ≡ ok (record peer { b5 = 0 })
unfolding next
next-host = refl

-- " 001A.2B3C.FEFF" and a newline
abbrev dotted : List ℕ
dotted =
    b' ' ∷ b'0' ∷ b'0' ∷ b'1' ∷ b'A' ∷ b'.' ∷ b'2' ∷ b'B' ∷ b'3' ∷ b'C' ∷ b'.' ∷ b'F' ∷ b'E' ∷ b'F'
    ∷ b'F' ∷ 10 ∷ []

parse-dotted : parse no_mac dotted ≡ ok host
unfolding parse parse_hex_byte
parse-dotted = refl

parse-spaces : parse no_mac (b' ' ∷ 9 ∷ []) ≡ err empty
unfolding parse
parse-spaces = refl

collect_three :
    collect_n (some (range host peer)) (pos 0) ≡ host ∷ record peer { b5 = 0 } ∷ peer ∷ []
unfolding collect_n range range_fuel next compare_addr rounds
collect_three = refl

next-value_example : next host ≡ ok (of_value (value host + 1))
next-value_example = next-value host host-IsBytes

is_valid-host : is_valid host ≡ true
unfolding is_valid
is_valid-host = refl

parse-format_string_example : parse no_mac (format_string host format_dot_upper) ≡ ok host
parse-format_string_example =
    parse-format_string no_mac host host-IsBytes format_dot_upper is_valid-host

-- The consumer that keeps what it is given.
abbrev keep : {A : Type 0} → A → List A → Bool × List A
keep a s = (true, a ∷ s)

range-for_each_example :
    range host peer keep [] ≡ for_each (up (range_count host peer) (value host)) keep []
range-for_each_example = range-for_each host peer keep [] host-IsBytes peer-IsBytes

codecs_read_back_example :
    (unmarshal_binary (some peer) (marshal_binary host) ≡ ok host)
    × (unmarshal_text no_mac (some peer) (marshal_text host) ≡ ok host)
    × (scan no_mac (some peer) (sql_value host) ≡ ok host)
    × (scan no_mac (some peer) (bytes (marshal_binary host)) ≡ ok host)
codecs_read_back_example = codecs_read_back no_mac host peer host-IsBytes
