-- ===== src/Trace.antt =====
-- pkg/observability/xtrace/trace.go: W3C traceparent texts, as the bytes of their UTF-8.
-- '-' is 45, and '0' to '9', 'A' to 'F' and 'a' to 'f' are 48 to 57, 65 to 70 and 97 to 102.
pub mod Hex
pub mod Resolved
pub mod Traceparent
mod Examples
use xkit.Prelude.{
  ℕ, zero, suc, ◌+◌, ◌*◌, ◌-◌, ◌%◌, ◌≡◌, Bool, true, false, not, ◌&&◌, ◌||◌, ◌==◌, leb, ltb, Option,
  none, some, List, [], ◌∷◌, ◌++◌, length, take, drop, get_or, map, if◌then◌else◌,
}

abbrev pub Bytes : Type 0
Bytes = List ℕ

abbrev pub between : ℕ → ℕ → ℕ → Bool
between low high c = leb low c && leb c high

unfoldable pub is_hex : ℕ → Bool
is_hex c = between 48 57 c || between 97 102 c || between 65 70 c

unfoldable pub all_hex : Bytes → Bool
unfolding is_hex
all_hex [] = true
all_hex (c ∷ s) = is_hex c && all_hex s

-- isValidHex
unfoldable pub is_valid_hex : Bytes → Bool
unfolding all_hex
is_valid_hex [] = false
is_valid_hex (c ∷ s) = all_hex (c ∷ s)

-- strings.ToLower of an ASCII text.
unfoldable pub lower : ℕ → ℕ
lower c = if between 65 90 c then c + 32 else c

unfoldable pub to_lower : Bytes → Bytes
unfolding lower
to_lower [] = []
to_lower (c ∷ s) = lower c ∷ to_lower s

-- id == "00...0", for an id of the length of that text.
unfoldable pub all_zero : Bytes → Bool
all_zero [] = true
all_zero (c ∷ s) = c == 48 && all_zero s

unfoldable pub is_valid_id : ℕ → Bytes → Bool
unfolding is_valid_hex all_zero
is_valid_id n id = length id == n && is_valid_hex id && not (all_zero id)

unfoldable pub is_valid_trace_id : Bytes → Bool
unfolding is_valid_id
is_valid_trace_id = is_valid_id 32

unfoldable pub is_valid_span_id : Bytes → Bool
unfolding is_valid_id
is_valid_span_id = is_valid_id 16

unfoldable pub is_valid_trace_flags : Bytes → Bool
unfolding is_valid_hex
is_valid_trace_flags flags = length flags == 2 && is_valid_hex flags

-- The value of a hexadecimal digit; 0 for any other byte.
unfoldable pub hex_val : ℕ → ℕ
hex_val c =
    if between 48 57 c
    then c - 48
    else if between 97 102 c
    then c - 97 + 10
    else if between 65 70 c
    then c - 65 + 10
    else 0

-- parseHexByte of two hexadecimal digits; `hi<<4 | lo` is the sum, as `lo` is below 16.
unfoldable pub hex_byte : Bytes → ℕ
unfolding hex_val
hex_byte s = hex_val (get_or s 0 0) * 16 + hex_val (get_or s 1 0)

abbrev pub digits_of : Bool → Bytes
digits_of true = 48 ∷ 49 ∷ []
digits_of false = 48 ∷ 48 ∷ []

-- normalizeV00TraceFlags
unfoldable pub normalize_v00_trace_flags : Bytes → Bytes
unfolding hex_byte
normalize_v00_trace_flags flags = digits_of (not (hex_byte flags % 2 == 0))

-- s[low:high]
abbrev pub slice : ℕ → ℕ → Bytes → Bytes
slice low high s = take (high - low) (drop low s)

abbrev pub byte_at : Bytes → ℕ → ℕ
byte_at s i = get_or (drop i s) 0 0

abbrev pub has_traceparent_separators : Bytes → Bool
has_traceparent_separators s = byte_at s 2 == 45 && byte_at s 35 == 45 && byte_at s 52 == 45

-- strings.EqualFold(version, "ff"), for a version of two hexadecimal digits.
abbrev pub is_reserved : Bytes → Bool
is_reserved version = lower (get_or version 0 0) == 102 && lower (get_or version 1 0) == 102

unfoldable pub is_valid_traceparent_version : Bytes → Bool
unfolding is_valid_hex lower
is_valid_traceparent_version version =
    length version == 2 && is_valid_hex version && not (is_reserved version)

abbrev pub is_v00 : Bytes → Bool
is_v00 version = get_or version 0 0 == 48 && get_or version 1 0 == 48

unfoldable pub validate_traceparent_structure : Bytes → Bool
unfolding is_valid_traceparent_version
validate_traceparent_structure s =
    let version = slice 0 2 s in
    if ltb (length s) 55 || not (has_traceparent_separators s)
    then false
    else if not (is_valid_traceparent_version version)
    then false
    else if is_v00 version
    then length s == 55
    else leb (length s) 55 || byte_at s 55 == 45

-- The trace id, the span id and the flags.
abbrev pub Fields : Type 0
Fields = Bytes × Bytes × Bytes

-- parseTraceparent from its test of the trace id on.
unfoldable pub check_fields : Bool → Bytes → Bytes → Bytes → Option Fields
unfolding is_valid_trace_id is_valid_span_id is_valid_trace_flags hex_byte
check_fields v00 trace_id span_id flags =
    if not (is_valid_trace_id trace_id)
    then none
    else if not (is_valid_span_id span_id)
    then none
    else if not (is_valid_trace_flags flags)
    then none
    else if v00 && ltb 2 (hex_byte flags)
    then none
    else some (trace_id, span_id, flags)

unfoldable pub parse_traceparent : Bytes → Option Fields
unfolding validate_traceparent_structure check_fields
parse_traceparent s =
    if not (validate_traceparent_structure s)
    then none
    else check_fields (is_v00 (slice 0 2 s)) (slice 3 35 s) (slice 36 52 s) (slice 53 55 s)

abbrev pub flags_or_sampled : Bytes → Bytes
flags_or_sampled flags = if is_valid_trace_flags flags then flags else 48 ∷ 49 ∷ []

unfoldable pub format_traceparent : Bytes → Bytes → Bytes → Bytes
unfolding is_valid_trace_id is_valid_span_id is_valid_trace_flags normalize_v00_trace_flags to_lower
format_traceparent trace_id span_id flags =
    if not (is_valid_trace_id trace_id) || not (is_valid_span_id span_id)
    then []
    else 48
      ∷ 48
      ∷ 45
      ∷ (to_lower trace_id
          ++ 45
            ∷ (to_lower span_id
                ++ 45 ∷ to_lower (normalize_v00_trace_flags (flags_or_sampled flags))))

pub record TraceInfo : Type 0 where
  pub trace_id : Bytes
  pub span_id : Bytes
  pub request_id : Bytes
  pub trace_flags : Bytes
  pub traceparent : Bytes
  pub tracestate : Bytes

abbrev pub format_fields : Fields → Bytes
format_fields (trace_id, span_id, flags) = format_traceparent trace_id span_id flags

abbrev pub resolved : TraceInfo → Option Fields → Bytes
resolved info none = format_traceparent info.trace_id info.span_id info.trace_flags
resolved info (some fields) = format_fields fields

-- resolveTraceparent; the empty text does not parse.
unfoldable pub resolve_traceparent : TraceInfo → Bytes
unfolding parse_traceparent format_traceparent
resolve_traceparent info = resolved info (parse_traceparent info.traceparent)
