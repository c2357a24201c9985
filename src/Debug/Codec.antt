-- ===== src/Debug/Codec.antt =====
-- protocol_codec.go: the codec of messages, a header of eight bytes and a payload in JSON.
use xkit.Prelude.{
  ℕ, ◌+◌, ◌*◌, ◌/◌, ◌%◌, Bool, not, ◌==◌, leb, ltb, Option, none, some, [], ◌∷◌, ◌++◌, ℤ, pos,
  ltb_ℤ, pos_part, length, take, drop, if◌then◌else◌, Result, ok, err, ◌>>=◌,
}
use xkit.Debug.{
  Error, invalid_message, message_too_large, connection_closed, marshal_failed, unmarshal_failed,
  read_header, read_payload, ReadError, eof, unexpected_eof, connection_failed, Bytes,
  protocol_magic, protocol_version, header_size, max_payload_size, message_type_request,
  message_type_response,
}

-- encoding/json on one type of payload.
pub record Json (A : Type 0) : Type 0 where
  pub marshal : A → Option Bytes
  pub unmarshal : Bytes → Option A

pub record Codec : Type 0 where
  pub payload_limit : ℤ

abbrev pub new_codec : Codec
new_codec = record { payload_limit = max_payload_size }

-- What a connection still delivers, and whether it ends in a failure and not at its end.
pub record Reader : Type 0 where
  pub bytes : Bytes
  pub fails : Bool

-- `io.ReadFull` into a buffer of `n` bytes.
abbrev pub why_short : Reader → ReadError
why_short r =
    if r.fails then connection_failed else if length r.bytes == 0 then eof else unexpected_eof

unfoldable pub read_full : ℕ → Reader → Result ReadError Bytes × Reader
read_full n r =
    if leb n (length r.bytes)
    then (ok (take n r.bytes), record r { bytes = drop n r.bytes })
    else (err (why_short r), record r { bytes = [] })

-- encoding/binary, big-endian
abbrev pub put_uint16 : ℕ → Bytes
put_uint16 v = v / 256 % 256 ∷ v % 256 ∷ []

abbrev pub put_uint32 : ℕ → Bytes
put_uint32 v = v / 16777216 % 256 ∷ v / 65536 % 256 ∷ v / 256 % 256 ∷ v % 256 ∷ []

abbrev pub uint16 : ℕ → ℕ → ℕ
uint16 a b = a * 256 + b

abbrev pub uint32 : ℕ → ℕ → ℕ → ℕ → ℕ
uint32 a b c d = a * 16777216 + b * 65536 + c * 256 + d

unfoldable pub safe_int_to_uint32 : ℤ → Result Error ℕ
safe_int_to_uint32 n =
    if ltb_ℤ n (pos 0)
    then err message_too_large
    else if ltb_ℤ (pos 4294967295) n
    then err message_too_large
    else ok (pos_part n % 4294967296)

abbrev pub header : ℕ → ℕ → Bytes
header msg_type payload_len =
    put_uint16 protocol_magic ++ protocol_version ∷ msg_type ∷ put_uint32 payload_len

-- `encode`, from the bytes of the payload.
unfoldable pub encode_payload : Codec → ℕ → Bytes → Result Error Bytes
unfolding safe_int_to_uint32
encode_payload c msg_type payload =
    if ltb_ℤ c.payload_limit (pos (length payload))
    then err message_too_large
    else safe_int_to_uint32 (pos (length payload)) >>= λ payload_len.
        ok (header msg_type payload_len ++ payload)

-- The length of a header against the largest payload.
abbrev pub check_length : ℕ → ℕ → Result Error ℕ → Result Error (ℕ × ℕ)
check_length msg_type payload_len (err x) = err message_too_large
check_length msg_type payload_len (ok limit) =
    if ltb limit payload_len then err message_too_large else ok (msg_type, payload_len)

unfoldable pub parse_header : Codec → Bytes → Result Error (ℕ × ℕ)
unfolding safe_int_to_uint32
parse_header c (m ∷ m' ∷ version ∷ msg_type ∷ l0 ∷ l1 ∷ l2 ∷ l3 ∷ rest) =
    if not (uint16 m m' == protocol_magic)
    then err invalid_message
    else if not (version == protocol_version)
    then err invalid_message
    else check_length msg_type (uint32 l0 l1 l2 l3) (safe_int_to_uint32 c.payload_limit)
parse_header c _ = err invalid_message

abbrev pub of_header_error : ReadError → Error
of_header_error eof = connection_closed
of_header_error x = read_header x

unfoldable pub decode_header : Codec → Reader → Result Error (ℕ × ℕ) × Reader
unfolding read_full parse_header
decode_header c r =
    let (read, r') = read_full header_size r in
    (elim read [ err x ↦ err (of_header_error x) | ok h ↦ parse_header c h ], r')

module _ {A : Type 0} (json : Json A) where
  unfoldable pub encode : Codec → ℕ → A → Result Error Bytes
  unfolding encode_payload
  encode c msg_type payload = elim (json.marshal payload) [
    | none ↦ err marshal_failed
    | some bytes ↦ encode_payload c msg_type bytes
  ]

  abbrev pub of_json : Option A → Result Error A
  of_json none = err unmarshal_failed
  of_json (some a) = ok a

  abbrev pub of_payload : Result ReadError Bytes → Result Error A
  of_payload (err x) = err (read_payload x)
  of_payload (ok bytes) = of_json (json.unmarshal bytes)

  unfoldable pub decode_payload : Reader → ℕ → ℕ → ℕ → Result Error A × Reader
  unfolding read_full
  decode_payload r payload_len expected msg_type =
      if not (msg_type == expected)
      then (err invalid_message, r)
      else let (read, r') = read_full payload_len r in (of_payload read, r')

  abbrev pub after_header : ℕ → Result Error (ℕ × ℕ) × Reader → Result Error A × Reader
  after_header expected (err x, r) = (err x, r)
  after_header expected (ok (msg_type, payload_len), r) =
      decode_payload r payload_len expected msg_type

  -- `DecodeRequest` and `DecodeResponse`, which expect different types.
  unfoldable pub decode : Codec → ℕ → Reader → Result Error A × Reader
  unfolding decode_header decode_payload
  decode c expected r = after_header expected (decode_header c r)

  unfoldable pub encode_request : Codec → A → Result Error Bytes
  unfolding encode
  encode_request c = encode c message_type_request

  unfoldable pub encode_response : Codec → A → Result Error Bytes
  unfolding encode
  encode_response c = encode c message_type_response

  unfoldable pub decode_request : Codec → Reader → Result Error A × Reader
  unfolding decode
  decode_request c = decode c message_type_request

  unfoldable pub decode_response : Codec → Reader → Result Error A × Reader
  unfolding decode
  decode_response c = decode c message_type_response
