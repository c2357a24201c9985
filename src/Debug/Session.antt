-- ===== src/Debug/Session.antt =====
-- session.go: a session reads requests from its connection and answers each. The time, the ends of
-- contexts, free command slots, the commands and the failures of the connection are given with each
-- turn of the loop. The audit log is left out.
use xkit.Prelude.{
  ℕ, Bool, true, false, not, ◌&&◌, ◌||◌, Option, none, some, List, [], ◌∷◌, ◌++◌, String,
  if◌then◌else◌, Result, ok, err,
}
use xkit.Debug.{Bytes, Error, connection_closed, Response, new_error_response}
use xkit.Debug.Codec.{Json, Reader, new_codec, encode_response, decode_request}
use xkit.Debug.Truncate.{output_response}
use xkit.Debug.Registry.{Registry, has, is_allowed}

pub record Request : Type 0 where
  pub command : String
  pub args : List String

-- The errors that are sent.
pub data Failure : Type 0 where
  command_not_found command_forbidden too_many_commands timeout encoding_failed : Failure
  decode_failed : Error → Failure
  command_failed : Bytes → Failure

-- encoding/json on the messages, and the texts of the errors.
pub record Formats : Type 0 where
  pub request_json : Json Request
  pub response_json : Json Response
  pub error_text : Failure → Bytes

pub record Options : Type 0 where
  pub has_read_timeout : Bool
  pub has_write_timeout : Bool
  pub max_output_size : ℕ

-- What a command answers: a panic is recovered to an error.
pub data Outcome : Type 0 where
  finished : Bytes → Outcome
  failed : Bytes → Outcome
  ran_out_of_time : Outcome

pub record Turn : Type 0 where
  pub is_over : Bool
  pub set_read_fails : Bool
  pub clear_read_fails : Bool
  pub has_slot : Bool
  pub execute : String → List String → Outcome
  pub set_write_fails : Bool
  pub write_fails : Bool

-- `written` has the messages that were written whole.
pub record Session : Type 0 where
  pub input : Reader
  pub written : List Bytes
  pub closed : Bool
  pub conn_closed : Bool

abbrev pub new_session : Reader → Session
new_session input = record { input = input; written = []; closed = false; conn_closed = false }

-- `shouldExit`
unfoldable pub should_exit : Turn → Session → Bool
should_exit t s = s.closed || t.is_over

unfoldable pub write_data : Options → Turn → Bytes → Session → Session
write_data o t message s =
    if s.closed
    then s
    else if o.has_write_timeout && t.set_write_fails
    then record s { closed = true }
    else if t.write_fails
    then record s { closed = true }
    else record s { written = s.written ++ message ∷ [] }

-- `Close`, whose error only goes to the audit log.
unfoldable pub close : Session → Session
close s = if s.conn_closed then s else record s { conn_closed = true; closed = true }

-- `handleRequest` up to the answer that it sends, once the command has run.
abbrev pub outcome_response : (Failure → Bytes) → ℕ → Outcome → Response
outcome_response error_text n (finished output) = output_response output n
outcome_response error_text n (failed text) = new_error_response (error_text (command_failed text))
outcome_response error_text n ran_out_of_time = new_error_response (error_text timeout)

module _ (f : Formats) (o : Options) (g : Registry) where
  unfoldable pub respond : Turn → Request → Response
  respond t req =
      if not (has req.command g)
      then new_error_response (f.error_text command_not_found)
      else if not (is_allowed req.command g)
      then new_error_response (f.error_text command_forbidden)
      else if not t.has_slot
      then new_error_response (f.error_text too_many_commands)
      else outcome_response f.error_text o.max_output_size (t.execute req.command req.args)

  abbrev pub write_encoded : Turn → (Session → Session) → Session → Result Error Bytes → Session
  write_encoded t otherwise s (err x) = otherwise s
  write_encoded t otherwise s (ok message) = write_data o t message s

  unfoldable pub send_encoding_error_response : Turn → Session → Session
  unfolding write_data
  send_encoding_error_response t s =
      write_encoded t (λ s'. s') s
        (encode_response f.response_json new_codec
          (new_error_response (f.error_text encoding_failed)))

  unfoldable pub send_response : Turn → Response → Session → Session
  unfolding write_data send_encoding_error_response
  send_response t resp s =
      write_encoded t (send_encoding_error_response t) s
        (encode_response f.response_json new_codec resp)

  unfoldable pub handle_request : Turn → Request → Session → Session
  unfolding respond send_response
  handle_request t req s = send_response t (respond t req) s

  -- `readRequest` from what was decoded. No error of the codec is a `net.Error`, since it wraps them,
  -- so that the answer to a time-out is never reached.
  unfoldable pub after_read : Turn → Result Error Request → Session → Option Request × Session
  unfolding send_response
  after_read t (ok req) s = (if t.clear_read_fails then none else some req, s)
  after_read t (err connection_closed) s = (none, s)
  after_read t (err x) s =
      (none, send_response t (new_error_response (f.error_text (decode_failed x))) s)

  abbrev pub read_decoded :
      Turn → Session → Result Error Request × Reader → Option Request × Session
  read_decoded t s (r, input) = after_read t r (record s { input = input })

  unfoldable pub read_request : Turn → Session → Option Request × Session
  unfolding after_read
  read_request t s =
      if o.has_read_timeout && t.set_read_fails
      then (none, s)
      else read_decoded t s (decode_request f.request_json new_codec s.input)

  abbrev pub after_request : Turn → (Session → Session) → Option Request × Session → Session
  after_request t go_on (none, s) = close s
  after_request t go_on (some req, s) = go_on (handle_request t req s)

  -- `Run`, a turn for each round of its loop; a session without further turns is waiting.
  unfoldable pub run : List Turn → Session → Session
  unfolding read_request handle_request close should_exit
  run [] s = s
  run (t ∷ ts) s = if should_exit t s then close s else after_request t (run ts) (read_request t s)
