-- ===== src/Trace/Resolved.antt =====
-- trace.go: resolveTraceparent gives a text that it does not change again.
use xkit.Prelude.{
  ◌≡◌, refl, sym, ap, ◌∙◌, Bool, Bool-cases, inl, inr, true, false, not, ◌&&◌, ltb, Option, none,
  some, [], arith, if-elim, some_injective, subst,
}
use xkit.Trace.{
  Bytes, Fields, slice, is_v00, validate_traceparent_structure, is_valid_trace_id, is_valid_span_id,
  is_valid_trace_flags, is_valid_hex, all_hex, is_hex, hex_byte, hex_val, digits_of,
  normalize_v00_trace_flags, to_lower, check_fields, parse_traceparent, format_traceparent,
  TraceInfo, resolved, resolve_traceparent,
}
use xkit.Trace.Hex.{to_lower-to_lower}
use xkit.Trace.Traceparent.{
  text_of, sampled, format-text, lower_trace_id, lower_span_id, parse-format_any,
}

sampled-digits_of : (b : Bool) → sampled (digits_of b) ≡ b
unfolding sampled is_valid_trace_flags is_valid_hex all_hex is_hex hex_byte hex_val
sampled-digits_of true = refl
sampled-digits_of false = refl

module _ (info : TraceInfo) (t s f : Bytes) (ht : is_valid_trace_id t ≡ true)
    (hs : is_valid_span_id s ≡ true) where
  -- A formatted text is formatted the same from what is parsed of it.
  resolved-format :
      resolved info (parse_traceparent (format_traceparent t s f)) ≡ format_traceparent t s f
  unfolding sampled normalize_v00_trace_flags
  resolved-format =
      let b = sampled f in
      let again : format_traceparent (to_lower t) (to_lower s) (digits_of b)
          ≡ text_of (to_lower t) (to_lower s) (digits_of b) =
        format-text (to_lower t) (to_lower s) (digits_of b) (lower_trace_id t s f ht hs)
          (lower_span_id t s f ht hs)
        ∙ ap (λ (x : Bytes). text_of x (to_lower (to_lower s)) (digits_of (sampled (digits_of b))))
            (to_lower-to_lower t)
        ∙ ap (λ (x : Bytes). text_of (to_lower t) x (digits_of (sampled (digits_of b))))
            (to_lower-to_lower s)
        ∙ ap (λ (x : Bool). text_of (to_lower t) (to_lower s) (digits_of x))
            (sampled-digits_of b) in
      ap (resolved info) (parse-format_any t s f ht hs) ∙ again ∙ sym (format-text t s f ht hs)

format-invalid_trace_id :
    (t s f : Bytes) → is_valid_trace_id t ≡ false → format_traceparent t s f ≡ []
unfolding format_traceparent
format-invalid_trace_id t s f h = rw h refl

format-invalid_span_id :
    (t s f : Bytes) → is_valid_span_id s ≡ false → format_traceparent t s f ≡ []
unfolding format_traceparent
format-invalid_span_id t s f h = elim (Bool-cases (is_valid_trace_id t)) [
  | inl g ↦ rw (g, h) refl
  | inr g ↦ rw g refl
]

parse-empty : parse_traceparent [] ≡ none
unfolding parse_traceparent validate_traceparent_structure
parse-empty = refl

-- The ids that are parsed are valid.
abbrev IsParsed : Fields → Type 0
IsParsed (t, s, f) = (is_valid_trace_id t ≡ true) × (is_valid_span_id s ≡ true)

check_fields-IsParsed :
    (v00 : Bool) (t s f : Bytes) (x : Fields) → check_fields v00 t s f ≡ some x → IsParsed x
unfolding check_fields
check_fields-IsParsed v00 t s f x =
    if-elim (λ (r : Option Fields). r ≡ some x → IsParsed x) (not (is_valid_trace_id t)) none _
      (λ h e. absurd (cc))
      (λ ht.
        if-elim (λ (r : Option Fields). r ≡ some x → IsParsed x) (not (is_valid_span_id s)) none _
          (λ h e. absurd (cc))
          (λ hs.
            if-elim (λ (r : Option Fields). r ≡ some x → IsParsed x) (not (is_valid_trace_flags f))
              none _ (λ h e. absurd (cc))
              (λ hf.
                if-elim (λ (r : Option Fields). r ≡ some x → IsParsed x) (v00 && ltb 2 (hex_byte f))
                  none (some (t, s, f)) (λ h e. absurd (cc))
                  (λ small e.
                    subst IsParsed (some_injective (t, s, f) x e)
                      (ground (arith, ht), ground (arith, hs))))))

parse-IsParsed : (w : Bytes) (x : Fields) → parse_traceparent w ≡ some x → IsParsed x
unfolding parse_traceparent
parse-IsParsed w x =
    if-elim (λ (r : Option Fields). r ≡ some x → IsParsed x)
      (not (validate_traceparent_structure w)) none _ (λ h e. absurd (cc))
      (λ h.
        check_fields-IsParsed (is_v00 (slice 0 2 w)) (slice 3 35 w) (slice 36 52 w) (slice 53 55 w)
          x)

module _ (info : TraceInfo) where
  abbrev again : Bytes → Bytes
  again w = resolved info (parse_traceparent w)

  -- The ids of the information itself.
  format-again :
      again (format_traceparent info.trace_id info.span_id info.trace_flags)
      ≡ format_traceparent info.trace_id info.span_id info.trace_flags
  format-again =
      let t = info.trace_id in
      let s = info.span_id in
      let f = info.trace_flags in
      let unless : format_traceparent t s f ≡ []
          → again (format_traceparent t s f) ≡ format_traceparent t s f =
        λ none_made. ap again none_made ∙ ap (resolved info) parse-empty in
      elim (Bool-cases (is_valid_trace_id t)) [
        | inl ht ↦ elim (Bool-cases (is_valid_span_id s)) [
          | inl hs ↦ resolved-format info t s f ht hs
          | inr hs ↦ unless (format-invalid_span_id t s f hs)
        ]
        | inr ht ↦ unless (format-invalid_trace_id t s f ht)
      ]

  resolved-again :
      (o : Option Fields)
      → parse_traceparent info.traceparent ≡ o
      → again (resolved info o) ≡ resolved info o
  resolved-again none q = format-again
  resolved-again (some (t, s, f)) q =
      let (ht, hs) = parse-IsParsed info.traceparent (t, s, f) q in resolved-format info t s f ht hs

  -- Resolving again what resolveTraceparent gave, empty or not, gives the same.
  pub resolve-resolve :
      resolve_traceparent (record info { traceparent = resolve_traceparent info })
      ≡ resolve_traceparent info
  unfolding resolve_traceparent
  resolve-resolve = resolved-again (parse_traceparent info.traceparent) refl
