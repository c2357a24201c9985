-- ===== src/Debug/SessionExamples.antt =====
-- A session of two requests, and a list of allowed commands.
use xkit.Prelude.{
  zero, suc, ◌≡◌, refl, sym, ap, true, false, Option, none, some, [], ◌∷◌, ◌++◌, str_eq, concat,
  if◌then◌else◌, ok, some_injective,
}
use xkit.GoMap
use xkit.Debug.{Bytes, Response, new_success_response, new_error_response}
use xkit.Debug.Codec.{new_codec, header, encode, encode_response}
use xkit.Debug.RoundTrip.{reader, encode_all, decode_all}
use xkit.Debug.Truncate.{output_response}
use xkit.Debug.Registry.{Registry, new_command_registry, register, is_allowed, has}
use xkit.Debug.Session.{
  Request, Formats, Options, Turn, finished, command_not_found, respond, run, new_session,
}
use xkit.Debug.Answers.{last_resort, answers, run-answers}

abbrev help : Request
help = record { command = "help"; args = [] }

abbrev heap : Request
heap = record { command = "heap"; args = [] }

-- A text for each of the messages that occur.
abbrev of_request : Bytes → Option Request
of_request (suc zero ∷ []) = some help
of_request (suc (suc zero) ∷ []) = some heap
of_request _ = none

abbrev of_response : Bytes → Option Response
of_response (zero ∷ text) = some (new_error_response text)
of_response (suc zero ∷ text) = some (new_success_response text)
of_response _ = none

abbrev small_texts : Formats
small_texts = record {
  request_json = record {
    marshal = λ r. some (if str_eq r.command "help" then 1 ∷ [] else 2 ∷ []);
    unmarshal = of_request;
  };
  response_json = record {
    marshal = λ r. some (if r.success then 1 ∷ r.output else 0 ∷ r.error);
    unmarshal = of_response;
  };
  error_text = λ x. elim x [ command_not_found ↦ 40 ∷ 4 ∷ [] | _ ↦ [] ];
}

abbrev limits : Options
limits = record { has_read_timeout = true; has_write_timeout = true; max_output_size = 100 }

abbrev turn : Turn
turn = record {
  is_over = false;
  set_read_fails = false;
  clear_read_fails = false;
  has_slot = true;
  execute = λ name args. finished (104 ∷ []);
  set_write_fails = false;
  write_fails = false;
}

abbrev only_help : Registry
only_help = register (some "help") new_command_registry

abbrev sent : Bytes
sent = (header 1 1 ++ 1 ∷ []) ++ header 1 1 ++ 2 ∷ []

abbrev smooth :
    (false ≡ false) × (false ≡ false) × (false ≡ false) × (false ≡ false) × (false ≡ false)
smooth = (refl, refl, refl, refl, refl)

answered :
    answers small_texts limits only_help (turn ∷ turn ∷ []) (help ∷ heap ∷ [])
    ≡ new_success_response (104 ∷ []) ∷ new_error_response (40 ∷ 4 ∷ []) ∷ []
unfolding encode_response respond has is_allowed register GoMap.get GoMap.put output_response
answered = refl

requests-sent : encode_all small_texts.request_json 1 (help ∷ heap ∷ []) ≡ ok sent
unfolding encode
requests-sent = refl

last_resort-sent :
    encode_response small_texts.response_json new_codec (last_resort small_texts)
    ≡ ok (header 2 1 ++ 0 ∷ [])
unfolding encode_response
last_resort-sent = refl

run-answers_example :
    (decode_all small_texts.response_json 2 2 (
        reader
          (concat
            (run small_texts limits only_help
              (turn ∷ turn ∷ turn ∷ [])
              (new_session (reader sent false))).written)
          false)
      ≡ (
        ok (new_success_response (104 ∷ [])) ∷ ok (new_error_response (40 ∷ 4 ∷ [])) ∷ [],
        reader [] false,
      ))
    × ((run small_texts limits only_help
          (turn ∷ turn ∷ turn ∷ [])
          (new_session (reader sent false))).conn_closed
        ≡ true)
unfolding encode_response respond has is_allowed register GoMap.get GoMap.put output_response
run-answers_example =
    run-answers small_texts limits only_help (help ∷ heap ∷ []) (turn ∷ turn ∷ []) turn sent
      (header 2 1 ++ 0 ∷ []) refl (smooth, (smooth, tt)) smooth
      (
        (λ p e. ap of_request (sym (some_injective _ _ e))),
        ((λ p e. ap of_request (sym (some_injective _ _ e))), tt),
      )
      (
        (λ p e. ap of_response (sym (some_injective _ _ e))),
        ((λ p e. ap of_response (sym (some_injective _ _ e))), tt),
      )
      requests-sent last_resort-sent
