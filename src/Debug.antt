-- ===== src/Debug.antt =====
-- pkg/debug/xdbg: the messages of the debug service, protocol.go. A `[]byte` is a list of numbers.
pub mod Answers
pub mod Codec
pub mod Header
pub mod Registry
pub mod RoundTrip
pub mod Session
pub mod Truncate
mod Examples
mod SessionExamples
use xkit.Prelude.{ℕ, Bool, true, false, List, [], ◌∷◌, ℤ, pos, length}

-- What `io.ReadFull` reports.
pub data ReadError : Type 0 where
  eof unexpected_eof connection_failed : ReadError

pub data Error : Type 0 where
  invalid_message message_too_large connection_closed marshal_failed unmarshal_failed : Error
  read_header read_payload : ReadError → Error

abbrev pub Bytes : Type 0
Bytes = List ℕ

abbrev pub protocol_magic : ℕ
protocol_magic = 56073

abbrev pub protocol_version : ℕ
protocol_version = 1

abbrev pub header_size : ℕ
header_size = 8

abbrev pub max_payload_size : ℤ
max_payload_size = pos 1048576

-- MessageType
abbrev pub message_type_request : ℕ
message_type_request = 1

abbrev pub message_type_response : ℕ
message_type_response = 2

-- Response; strings are the bytes of their UTF-8.
pub record Response : Type 0 where
  pub success : Bool
  pub output : Bytes
  pub error : Bytes
  pub truncated : Bool
  pub original_size : ℕ

abbrev pub new_success_response : Bytes → Response
new_success_response output = record {
  success = true;
  output = output;
  error = [];
  truncated = false;
  original_size = 0;
}

-- NewErrorResponse, of the text of the error.
abbrev pub new_error_response : Bytes → Response
new_error_response text = record {
  success = false;
  output = [];
  error = text;
  truncated = false;
  original_size = 0;
}

abbrev pub new_truncated_response : Bytes → ℕ → Response
new_truncated_response output original_size = record {
  success = true;
  output = output;
  error = [];
  truncated = true;
  original_size = original_size;
}
