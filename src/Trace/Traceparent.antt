-- ===== src/Trace/Traceparent.antt =====
-- trace.go: what formatTraceparent writes, parseTraceparent reads.
use xkit.Prelude.{
  ℕ, zero, suc, ◌+◌, ◌%◌, ◌≡◌, refl, ap, ◌∙◌, Bool, true, false, not, ◌||◌, ◌==◌, ltb, none, some,
  [], ◌∷◌, ◌++◌, length, length-append, take, drop, get_or, if◌then◌else◌, arith,
}
use xkit.Trace.{
  Bytes, slice, byte_at, has_traceparent_separators, is_valid_traceparent_version, is_v00,
  validate_traceparent_structure, is_valid_trace_id, is_valid_span_id, is_valid_trace_flags,
  is_valid_hex, all_hex, is_hex, lower, hex_byte, digits_of, normalize_v00_trace_flags,
  flags_or_sampled, to_lower, check_fields, parse_traceparent, format_traceparent,
}
use xkit.Trace.Hex.{
  is_valid_id-to_lower, is_valid_id-length, to_lower-digits_of, digits_of-valid, length-digits_of,
  take-digits_of, hex_byte-digits_of, drop_past, take_part,
}

-- A text of version 00, by its parts.
abbrev pub text_of : Bytes → Bytes → Bytes → Bytes
text_of t s f = 48 ∷ 48 ∷ 45 ∷ (t ++ 45 ∷ (s ++ 45 ∷ f))

v00-valid : is_valid_traceparent_version (48 ∷ 48 ∷ []) ≡ true
unfolding is_valid_traceparent_version is_valid_hex all_hex is_hex lower
v00-valid = refl

validate_v00 :
    (w : Bytes)
    → length w ≡ 55
    → slice 0 2 w ≡ 48 ∷ 48 ∷ []
    → has_traceparent_separators w ≡ true
    → validate_traceparent_structure w ≡ true
unfolding validate_traceparent_structure
validate_v00 w len version separators = rw (len, separators, version, v00-valid) refl

module _ (t s f : Bytes) (ht : is_valid_trace_id t ≡ true) (hs : is_valid_span_id s ≡ true)
    (hf : is_valid_trace_flags f ≡ true) (small : ltb 2 (hex_byte f) ≡ false) where
  check_fields-valid : (v00 : Bool) → check_fields v00 t s f ≡ some (t, s, f)
  unfolding check_fields
  check_fields-valid true = rw (ht, hs, hf, small) refl
  check_fields-valid false = rw (ht, hs, hf) refl

  parse_valid :
      (w : Bytes)
      → validate_traceparent_structure w ≡ true
      → slice 3 35 w ≡ t
      → slice 36 52 w ≡ s
      → slice 53 55 w ≡ f
      → parse_traceparent w ≡ some (t, s, f)
  unfolding parse_traceparent
  parse_valid w structure trace_part span_part flags_part =
      let v00 = is_v00 (slice 0 2 w) in
      ap
        (λ (b : Bool).
          if not b then none else check_fields v00 (slice 3 35 w) (slice 36 52 w) (slice 53 55 w))
        structure
      ∙ ap (λ (x : Bytes). check_fields v00 x (slice 36 52 w) (slice 53 55 w)) trace_part
      ∙ ap (λ (x : Bytes). check_fields v00 t x (slice 53 55 w)) span_part
      ∙ ap (check_fields v00 t s) flags_part
      ∙ check_fields-valid v00

module _ (t s : Bytes) (b : Bool) (ht : is_valid_trace_id t ≡ true)
    (hs : is_valid_span_id s ≡ true) where
  text : Bytes
  text = text_of t s (digits_of b)

  length-t : length t ≡ 32
  unfolding is_valid_trace_id
  length-t = is_valid_id-length 32 t ht

  length-s : length s ≡ 16
  unfolding is_valid_span_id
  length-s = is_valid_id-length 16 s hs

  length-text : length text ≡ 55
  unfolding text
  length-text = omega (
    arith,
    length-append t (45 ∷ (s ++ 45 ∷ digits_of b)),
    length-append s (45 ∷ digits_of b),
    length-t,
    length-s,
    length-digits_of b,
  )

  after_t : (m k : ℕ) → 35 + k ≡ m → drop m text ≡ drop k (45 ∷ (s ++ 45 ∷ digits_of b))
  unfolding text
  after_t zero k h = absurd (omega arith)
  after_t (suc zero) k h = absurd (omega arith)
  after_t (suc (suc zero)) k h = absurd (omega arith)
  after_t (suc (suc (suc m))) k h = drop_past m k t _ (omega (arith, length-t))

  after_s : drop 52 text ≡ 45 ∷ digits_of b
  after_s = after_t 52 17 refl ∙ drop_past 16 0 s (45 ∷ digits_of b) (omega (arith, length-s))

  flags_at : drop 53 text ≡ digits_of b
  flags_at = after_t 53 18 refl ∙ drop_past 17 1 s (45 ∷ digits_of b) (omega (arith, length-s))

  trace_part : slice 3 35 text ≡ t
  unfolding text
  trace_part = take_part 32 t _ length-t

  span_part : slice 36 52 text ≡ s
  span_part = ap (take 16) (after_t 36 1 refl) ∙ take_part 16 s _ length-s

  flags_part : slice 53 55 text ≡ digits_of b
  flags_part = ap (take 2) flags_at ∙ take-digits_of b

  separators : has_traceparent_separators text ≡ true
  unfolding text
  separators =
      let p : byte_at text 35 ≡ 45 = ap (λ (r : Bytes). get_or r 0 0) (after_t 35 0 refl) in
      let q : byte_at text 52 ≡ 45 = ap (λ (r : Bytes). get_or r 0 0) after_s in
      ground (arith, p, q)

  version_part : slice 0 2 text ≡ 48 ∷ 48 ∷ []
  unfolding text
  version_part = refl

  structure : validate_traceparent_structure text ≡ true
  unfolding validate_traceparent_structure
  structure = validate_v00 text length-text version_part separators

  parse-text : parse_traceparent text ≡ some (t, s, digits_of b)
  parse-text =
      parse_valid t s (digits_of b) ht hs (digits_of-valid b) (ground (arith, hex_byte-digits_of b))
        text structure trace_part span_part flags_part

-- The sampled bit of the flags that are sent.
unfoldable pub sampled : Bytes → Bool
unfolding hex_byte
sampled f = not (hex_byte (flags_or_sampled f) % 2 == 0)

module _ (t s f : Bytes) (ht : is_valid_trace_id t ≡ true) (hs : is_valid_span_id s ≡ true) where
  pub lower_trace_id : is_valid_trace_id (to_lower t) ≡ true
  unfolding is_valid_trace_id
  lower_trace_id = is_valid_id-to_lower 32 t ht

  pub lower_span_id : is_valid_span_id (to_lower s) ≡ true
  unfolding is_valid_span_id
  lower_span_id = is_valid_id-to_lower 16 s hs

  pub format-text :
      format_traceparent t s f ≡ text_of (to_lower t) (to_lower s) (digits_of (sampled f))
  unfolding format_traceparent sampled normalize_v00_trace_flags
  format-text =
      ap
        (λ (b : Bool).
          if not b || not (is_valid_span_id s)
          then []
          else text_of (to_lower t) (to_lower s) (to_lower (digits_of (sampled f))))
        ht
      ∙ ap
          (λ (b : Bool).
            if not b
            then []
            else text_of (to_lower t) (to_lower s) (to_lower (digits_of (sampled f))))
          hs
      ∙ ap (text_of (to_lower t) (to_lower s)) (to_lower-digits_of (sampled f))

  pub parse-format_any :
      parse_traceparent (format_traceparent t s f)
      ≡ some (to_lower t, to_lower s, normalize_v00_trace_flags (flags_or_sampled f))
  unfolding normalize_v00_trace_flags sampled text
  parse-format_any =
      ap parse_traceparent format-text
      ∙ parse-text (to_lower t) (to_lower s) (sampled f) lower_trace_id lower_span_id
