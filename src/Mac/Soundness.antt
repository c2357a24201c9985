-- ===== src/Mac/Soundness.antt =====
-- What `Parse` accepts is an array of bytes.
use xkit.Prelude.{
  ℕ, zero, suc, ◌+◌, ◌<◌, ◌≡◌, Bool, true, false, not, Option, some, List, [], ◌∷◌, Result, ok, err,
  ◌==◌, if◌then◌else◌, get_or, length, arith, All, inl, inr, bit_or-eq-add, Result-cases,
  Option-cases, subst,
}
use xkit.Mac.{Addr, Error, IsBytes, set_byte, zero_addr}
use xkit.Mac.Bytes.{set_byte-IsBytes}
use xkit.Mac.Parse.{
  hex_value, parse_hex_byte, parse_groups, parse_with_separator, parse_dot, parse_no_separator,
  copy_bytes, parse_stdlib, parse_trimmed, parse,
}
use xkit.Mac.Parse.Trim.{trim_space}

-- The address in a result, if there is one, is made of bytes.
pub record Sound (r : Result Error Addr) : Type 0 where
  pub of_ok : (a : Addr) → r ≡ ok a → IsBytes a

ok_injective : (a c : Addr) → (let r : Result Error Addr = ok a in r) ≡ ok c → a ≡ c
ok_injective a c e = cc

Sound-ok : (a : Addr) → IsBytes a → Sound (ok a)
Sound-ok a h = record { of_ok = λ c e. subst IsBytes (ok_injective a c e) h }

Sound-err : (x : Error) → Sound (err x)
Sound-err x = record { of_ok = λ c e. absurd (cc) }

hex_value-lt : (c h : ℕ) → hex_value c ≡ some h → h < 16
unfolding hex_value
hex_value-lt c h e = ground arith

parse_hex_byte-lt : (high low b : ℕ) → parse_hex_byte high low ≡ ok b → b < 256
unfolding parse_hex_byte
parse_hex_byte-lt high low b e = elim (Option-cases (hex_value high)) [
  | inl p ↦ ground arith
  | inr (h, p) ↦ elim (Option-cases (hex_value low)) [
    | inl q ↦ ground arith
    | inr (l, q) ↦ ground (arith, hex_value-lt high h p, hex_value-lt low l q, bit_or-eq-add 4 h l)
  ]
]

parse_groups-Sound :
    (offset : ℕ → ℕ) (rounds i : ℕ) (s : List ℕ) (a : Addr)
    → IsBytes a
    → Sound (parse_groups offset rounds i s a)
unfolding parse_groups
parse_groups-Sound offset zero i s a h = Sound-ok a h
parse_groups-Sound offset (suc rounds) i s a h =
    elim (Result-cases (parse_hex_byte (get_or s (offset i) 0) (get_or s (offset i + 1) 0))) [
      | inl (b, e) ↦ rw e (
          parse_groups-Sound offset rounds (i + 1) s (set_byte a i b)
            (set_byte-IsBytes a i b h (parse_hex_byte-lt _ _ b e)))
      | inr (x, e) ↦ rw e (Sound-err x)
    ]

get_or-lt : (s : List ℕ) (i : ℕ) → All (λ b. b < 256) s → get_or s i 0 < 256
get_or-lt [] i h = omega arith
get_or-lt (b ∷ s) zero h = h.0
get_or-lt (b ∷ s) (suc i) h = get_or-lt s i h.1

copy_bytes-IsBytes : (s : List ℕ) → All (λ b. b < 256) s → IsBytes (copy_bytes s)
unfolding copy_bytes
copy_bytes-IsBytes s h = record {
  fits0 = get_or-lt s 0 h;
  fits1 = get_or-lt s 1 h;
  fits2 = get_or-lt s 2 h;
  fits3 = get_or-lt s 3 h;
  fits4 = get_or-lt s 4 h;
  fits5 = get_or-lt s 5 h;
}

Sound-if : (b : Bool) (r q : Result Error Addr) → Sound r → Sound q → Sound (if b then r else q)
Sound-if true r q h k = h
Sound-if false r q h k = k

zero_addr-IsBytes : IsBytes zero_addr
zero_addr-IsBytes = omega arith

-- The standard library returns bytes.
abbrev pub ReturnsBytes : (List ℕ → Option (List ℕ)) → Type 0
ReturnsBytes parse_mac = (s hw : List ℕ) → parse_mac s ≡ some hw → All (λ b. b < 256) hw

module _ (parse_mac : List ℕ → Option (List ℕ)) (returns_bytes : ReturnsBytes parse_mac) where
  parse_stdlib-Sound : (s : List ℕ) → Sound (parse_stdlib parse_mac s)
  unfolding parse_stdlib
  parse_stdlib-Sound s = elim (Option-cases (parse_mac s)) [
    | inl e ↦ rw (e, parse_stdlib) (Sound-err _)
    | inr (hw, e) ↦
        rw (e, parse_stdlib)
          (Sound-if (not (length hw == 6)) _ _ (Sound-err _)
            (Sound-ok (copy_bytes hw) (copy_bytes-IsBytes hw (returns_bytes s hw e))))
  ]

  loop-Sound : (offset : ℕ → ℕ) (s : List ℕ) → Sound (parse_groups offset 6 0 s zero_addr)
  loop-Sound offset s = parse_groups-Sound offset 6 0 s zero_addr zero_addr-IsBytes

  parse_trimmed-Sound : (s : List ℕ) → Sound (parse_trimmed parse_mac s)
  unfolding parse_trimmed parse_no_separator parse_with_separator parse_dot
  parse_trimmed-Sound s = search (Sound-if, Sound-err, loop-Sound, parse_stdlib-Sound) depth 8

  -- Whatever the text, an address that `Parse` returns has six values below 256, given that the
  -- standard library's parser returns bytes.
  pub parse-IsBytes : (s : List ℕ) (a : Addr) → parse parse_mac s ≡ ok a → IsBytes a
  unfolding parse
  parse-IsBytes s a e = (parse_trimmed-Sound (trim_space s)).of_ok a e
