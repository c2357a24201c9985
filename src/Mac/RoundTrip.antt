-- ===== src/Mac/RoundTrip.antt =====
-- What `FormatString`, `String` and `MarshalText` print, `Parse` reads back.
use xkit.Prelude.{
  ℕ, ◌*◌, ◌<◌, ◌≡◌, refl, Bool, true, false, not, ◌&&◌, Option, List, [], ◌∷◌, Result, ok, err, leb,
  ◌==◌, ◌||◌, ◌+◌, get_or, arith, every_below, every_below-at,
}
use xkit.Mac.{Addr, Error, IsBytes, zero_addr, is_valid}
use xkit.Mac.Format.{
  hex_lower, hex_upper, high_digit, low_digit, format_with_sep, format_dot_groups,
  format_bare_digits, format_string,
}
use xkit.Mac.Parse.{
  parse_hex_byte, contains_separator, parse_groups, parse_with_separator, parse_dot,
  parse_no_separator, dot_offsets, parse_trimmed, parse,
}
use xkit.Mac.Parse.Trim.{IsPlain, trim_space-plain}

-- A digit that is no white space and no separator.
abbrev digit_fits : ℕ → Bool
digit_fits c = leb 48 c && leb c 102 && not (c == b':')

abbrev reads : Result Error ℕ → ℕ → Bool
reads (ok b) c = b == c
reads (err e) c = false

-- What a digit alphabet owes: two digits read back as the byte, and none is a separator.
record IsAlphabet (hex : List ℕ) : Type 0 where
  reads_back : (b : ℕ) → b < 256 → parse_hex_byte (high_digit hex b) (low_digit hex b) ≡ ok b
  high_fits : (b : ℕ) → b < 256 → digit_fits (high_digit hex b) ≡ true
  low_fits : (b : ℕ) → b < 256 → digit_fits (low_digit hex b) ≡ true

reads-eq : (r : Result Error ℕ) (b : ℕ) → reads r b ≡ true → r ≡ ok b
reads-eq (ok c) b h = ground arith
reads-eq (err e) b h = cc

lower_reads :
    every_below (λ b. reads (parse_hex_byte (high_digit hex_lower b) (low_digit hex_lower b)) b) 256
    ≡ true
unfolding every_below parse_hex_byte high_digit low_digit
lower_reads = refl

lower_high : every_below (λ b. digit_fits (high_digit hex_lower b)) 256 ≡ true
unfolding every_below high_digit
lower_high = refl

lower_low : every_below (λ b. digit_fits (low_digit hex_lower b)) 256 ≡ true
unfolding every_below low_digit
lower_low = refl

upper_reads :
    every_below (λ b. reads (parse_hex_byte (high_digit hex_upper b) (low_digit hex_upper b)) b) 256
    ≡ true
unfolding every_below parse_hex_byte high_digit low_digit
upper_reads = refl

upper_high : every_below (λ b. digit_fits (high_digit hex_upper b)) 256 ≡ true
unfolding every_below high_digit
upper_high = refl

upper_low : every_below (λ b. digit_fits (low_digit hex_upper b)) 256 ≡ true
unfolding every_below low_digit
upper_low = refl

hex_lower-IsAlphabet : IsAlphabet hex_lower
hex_lower-IsAlphabet = record {
  reads_back = λ b h. reads-eq _ b (every_below-at _ 256 b lower_reads h);
  high_fits = λ b h. every_below-at _ 256 b lower_high h;
  low_fits = λ b h. every_below-at _ 256 b lower_low h;
}

hex_upper-IsAlphabet : IsAlphabet hex_upper
hex_upper-IsAlphabet = record {
  reads_back = λ b h. reads-eq _ b (every_below-at _ 256 b upper_reads h);
  high_fits = λ b h. every_below-at _ 256 b upper_high h;
  low_fits = λ b h. every_below-at _ 256 b upper_low h;
}

digit_fits-IsPlain : (c : ℕ) → digit_fits c ≡ true → IsPlain c
digit_fits-IsPlain c h = ground arith

abbrev AllFit : List ℕ → Type 0
AllFit [] = Unit
AllFit (c ∷ s) = (digit_fits c ≡ true) × AllFit s

contains_separator-false : (s : List ℕ) → AllFit s → contains_separator s ≡ false
unfolding contains_separator
contains_separator-false [] h = refl
contains_separator-false (c ∷ s) h = ground (arith, contains_separator-false s h.1)

module _ {hex : List ℕ} (alphabet : IsAlphabet hex) (a : Addr) (h : IsBytes a) where
  -- The two digits of byte `b` stand at `o`.
  abbrev At : List ℕ → ℕ → ℕ → Type 0
  At s o b = (get_or s o 0 ≡ high_digit hex b) × (get_or s (o + 1) 0 ≡ low_digit hex b)

  parse_groups-eq :
      (offset : ℕ → ℕ) (s : List ℕ)
      → At s (offset 0) a.b0
      → At s (offset 1) a.b1
      → At s (offset 2) a.b2
      → At s (offset 3) a.b3
      → At s (offset 4) a.b4
      → At s (offset 5) a.b5
      → parse_groups offset 6 0 s zero_addr ≡ ok a
  unfolding parse_groups
  parse_groups-eq offset s p0 p1 p2 p3 p4 p5 = simp (
    p0.0,
    p0.1,
    p1.0,
    p1.1,
    p2.0,
    p2.1,
    p3.0,
    p3.1,
    p4.0,
    p4.1,
    p5.0,
    p5.1,
    alphabet.reads_back a.b0 h.fits0,
    alphabet.reads_back a.b1 h.fits1,
    alphabet.reads_back a.b2 h.fits2,
    alphabet.reads_back a.b3 h.fits3,
    alphabet.reads_back a.b4 h.fits4,
    alphabet.reads_back a.b5 h.fits5,
  )

  first_IsPlain : IsPlain (high_digit hex a.b0)
  first_IsPlain = digit_fits-IsPlain _ (alphabet.high_fits a.b0 h.fits0)

  last_IsPlain : IsPlain (low_digit hex a.b5)
  last_IsPlain = digit_fits-IsPlain _ (alphabet.low_fits a.b5 h.fits5)

  bare_AllFit : AllFit (format_bare_digits a hex)
  unfolding format_bare_digits
  bare_AllFit =
      search (
        alphabet.high_fits, alphabet.low_fits, h.fits0, h.fits1, h.fits2, h.fits3, h.fits4, h.fits5,
      )

  module _ (parse_mac : List ℕ → Option (List ℕ)) where
    parse-format_with_sep :
        (sep : ℕ)
        → (sep == b':' || sep == b'-') ≡ true
        → parse parse_mac (format_with_sep a sep hex) ≡ ok a
    unfolding parse parse_trimmed parse_with_separator format_with_sep
    parse-format_with_sep sep is_sep =
        let s = format_with_sep a sep hex in
        rw (trim_space-plain s first_IsPlain last_IsPlain, is_sep)
          (ground (
            arith,
            parse_groups-eq (λ i. i * 3) s (refl, refl) (refl, refl) (refl, refl) (refl, refl)
                (refl, refl) (refl, refl),
          ))

    parse-format_dot : parse parse_mac (format_dot_groups a hex) ≡ ok a
    unfolding parse parse_trimmed parse_dot format_dot_groups
    parse-format_dot =
        let s = format_dot_groups a hex in
        rw (trim_space-plain s first_IsPlain last_IsPlain) (
          parse_groups-eq (λ i. get_or dot_offsets i 0) s (refl, refl) (refl, refl) (refl, refl)
            (refl, refl) (refl, refl) (refl, refl))

    parse-format_bare : parse parse_mac (format_bare_digits a hex) ≡ ok a
    unfolding parse parse_trimmed parse_no_separator format_bare_digits
    parse-format_bare =
        let s = format_bare_digits a hex in
        rw (trim_space-plain s first_IsPlain last_IsPlain, contains_separator-false s bare_AllFit)
          (parse_groups-eq (λ i. i * 2) s (refl, refl) (refl, refl) (refl, refl) (refl, refl)
            (refl, refl) (refl, refl))

module _ (parse_mac : List ℕ → Option (List ℕ)) (a : Addr) (h : IsBytes a) where
  -- `Parse` returns the address that any format, known or not, printed, if it is not the zero address.
  pub parse-format_string : (f : ℕ) → is_valid a ≡ true → parse parse_mac (format_string a f) ≡ ok a
  unfolding format_string
  parse-format_string f valid = rw valid (
      ground (
        arith,
        parse-format_with_sep hex_lower-IsAlphabet a h parse_mac b':' refl,
        parse-format_with_sep hex_lower-IsAlphabet a h parse_mac b'-' refl,
        parse-format_with_sep hex_upper-IsAlphabet a h parse_mac b':' refl,
        parse-format_with_sep hex_upper-IsAlphabet a h parse_mac b'-' refl,
        parse-format_dot hex_lower-IsAlphabet a h parse_mac,
        parse-format_dot hex_upper-IsAlphabet a h parse_mac,
        parse-format_bare hex_lower-IsAlphabet a h parse_mac,
        parse-format_bare hex_upper-IsAlphabet a h parse_mac,
      ))
