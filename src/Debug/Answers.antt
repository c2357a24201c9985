-- ===== src/Debug/Answers.antt =====
-- A session whose connection does not fail answers each request once and in order.
use xkit.Prelude.{
  ℕ, ◌≡◌, refl, sym, ap, ◌∙◌, inl, inr, true, false, none, some, List, [], ◌∷◌, ◌++◌, ◌&&◌,
  if◌then◌else◌, map, length, concat, append_assoc, append_nil, All, Result, Result-cases, ok, err,
  arith,
}
use xkit.Debug.{
  Error, Bytes, Response, new_error_response, message_type_request, message_type_response,
}
use xkit.Debug.Codec.{new_codec, encode_response, encode, decode, decode_request}
use xkit.Debug.RoundTrip.{
  reader, IsReadBack, encode_all, decode_all, decode-encode, decode_all-encode_all, bind-ok,
  ok_injective,
}
use xkit.Debug.Registry.{Registry}
use xkit.Debug.Session.{
  Request, Formats, Options, Turn, Session, new_session, encoding_failed, respond, send_response,
  send_encoding_error_response, write_data, write_encoded, handle_request, read_request, after_read,
  read_decoded, after_request, run, close, should_exit,
}

-- A turn in which the connection and the context do not fail.
abbrev pub IsSmooth : Turn → Type 0
IsSmooth t =
    (t.is_over ≡ false)
    × (t.set_read_fails ≡ false)
    × (t.clear_read_fails ≡ false)
    × (t.set_write_fails ≡ false)
    × (t.write_fails ≡ false)

abbrev running : Bytes → List Bytes → Session
running rest ws = record {
  input = reader rest false;
  written = ws;
  closed = false;
  conn_closed = false;
}

module _ (f : Formats) where
  abbrev pub last_resort : Response
  last_resort = new_error_response (f.error_text encoding_failed)

  -- What is sent for an answer: itself, or the error that it cannot be encoded.
  abbrev pub or_last : Response → Result Error Bytes → Response
  or_last r (ok m) = r
  or_last r (err x) = last_resort

  abbrev pub sent_for : Response → Response
  sent_for r = or_last r (encode_response f.response_json new_codec r)

module _ (f : Formats) (o : Options) (g : Registry) where
  abbrev pub answers : List Turn → List Request → List Response
  answers [] xs = []
  answers (t ∷ ts) [] = []
  answers (t ∷ ts) (x ∷ xs) = sent_for f (respond f o g t x) ∷ answers ts xs

  write_data-smooth :
      (t : Turn) (m : Bytes) (rest : Bytes) (ws : List Bytes)
      → IsSmooth t
      → write_data o t m (running rest ws) ≡ running rest (ws ++ m ∷ [])
  unfolding write_data
  write_data-smooth t m rest ws smooth = ground arith

  send_response-smooth :
      (t : Turn) (r : Response) (rest : Bytes) (ws : List Bytes) (m0 : Bytes)
      → IsSmooth t
      → encode_response f.response_json new_codec (last_resort f) ≡ ok m0
      → (m : Bytes) × (encode_response f.response_json new_codec (sent_for f r) ≡ ok m)
        × (send_response f o g t r (running rest ws) ≡ running rest (ws ++ m ∷ []))
  unfolding send_response send_encoding_error_response
  send_response-smooth t r rest ws m0 smooth last =
      elim (Result-cases (encode_response f.response_json new_codec r)) [
        | inl (m, e) ↦ (
          m,
          ap (λ q. encode_response f.response_json new_codec (or_last f r q)) e ∙ e,
          ap (write_encoded f o g t (send_encoding_error_response f o g t) (running rest ws)) e
              ∙ write_data-smooth t m rest ws smooth,
        )
        | inr (y, e) ↦ (
          m0,
          ap (λ q. encode_response f.response_json new_codec (or_last f r q)) e ∙ last,
          ap (write_encoded f o g t (send_encoding_error_response f o g t) (running rest ws)) e
              ∙ ap (write_encoded f o g t (λ s. s) (running rest ws)) last
              ∙ write_data-smooth t m0 rest ws smooth,
        )
      ]

  timely :
      (t : Turn) {A : Type 0} (a b : A)
      → IsSmooth t
      → (if o.has_read_timeout && t.set_read_fails then a else b) ≡ b
  timely t a b smooth = ground arith

  read_request-smooth :
      (t : Turn) (x : Request) (m rest : Bytes) (ws : List Bytes)
      → IsSmooth t
      → IsReadBack f.request_json x
      → encode f.request_json new_codec message_type_request x ≡ ok m
      → read_request f o g t (running (m ++ rest) ws) ≡ (some x, running rest ws)
  unfolding read_request decode_request after_read
  read_request-smooth t x m rest ws smooth back e =
      timely t _ _ smooth
      ∙ ap (read_decoded f o g t (running (m ++ rest) ws))
          (decode-encode f.request_json 1 x m rest false back e)
      ∙ ground arith

  read_request-end :
      (t : Turn) (ws : List Bytes)
      → IsSmooth t
      → read_request f o g t (running [] ws) ≡ (none, running [] ws)
  unfolding read_request decode_request decode
  read_request-end t ws smooth = timely t _ _ smooth

  run-cons :
      (t : Turn) (ts : List Turn) (rest : Bytes) (ws : List Bytes)
      → IsSmooth t
      → run f o g (t ∷ ts) (running rest ws)
        ≡ after_request f o g t (run f o g ts) (read_request f o g t (running rest ws))
  unfolding run should_exit
  run-cons t ts rest ws smooth = ground arith

  abbrev stopped : List Bytes → Session
  stopped ws = record { input = reader [] false; written = ws; closed = true; conn_closed = true }

  run-last :
      (t : Turn) (ws : List Bytes) → IsSmooth t → run f o g (t ∷ []) (running [] ws) ≡ stopped ws
  unfolding run close
  run-last t ws smooth =
      run-cons t [] [] ws smooth
      ∙ ap (after_request f o g t (run f o g [])) (read_request-end t ws smooth)

  run-one :
      (t : Turn) (ts : List Turn) (x : Request) (m rest : Bytes) (ws : List Bytes) (r : Bytes)
      → IsSmooth t
      → IsReadBack f.request_json x
      → encode f.request_json new_codec message_type_request x ≡ ok m
      → send_response f o g t (respond f o g t x) (running rest ws) ≡ running rest (ws ++ r ∷ [])
      → run f o g (t ∷ ts) (running (m ++ rest) ws) ≡ run f o g ts (running rest (ws ++ r ∷ []))
  unfolding handle_request
  run-one t ts x m rest ws r smooth back e wrote =
      run-cons t ts (m ++ rest) ws smooth
      ∙ ap (after_request f o g t (run f o g ts)) (read_request-smooth t x m rest ws smooth back e)
      ∙ ap (run f o g ts) wrote

  encode_all-cons :
      (r : Response) (rs : List Response) (m ms : Bytes)
      → encode_response f.response_json new_codec r ≡ ok m
      → encode_all f.response_json message_type_response rs ≡ ok ms
      → encode_all f.response_json message_type_response (r ∷ rs) ≡ ok (m ++ ms)
  unfolding encode_response
  encode_all-cons r rs m ms e d = rw (e, d) refl

  run-smooth :
      (xs : List Request) (ts : List Turn) (final : Turn) (stream : Bytes) (ws : List Bytes)
      (m0 : Bytes)
      → length ts ≡ length xs
      → All IsSmooth ts
      → IsSmooth final
      → All (IsReadBack f.request_json) xs
      → encode_all f.request_json message_type_request xs ≡ ok stream
      → encode_response f.response_json new_codec (last_resort f) ≡ ok m0
      → (ms : List Bytes) × (encode_all f.response_json message_type_response (answers ts xs)
          ≡ ok (concat ms))
        × (run f o g (ts ++ final ∷ []) (running stream ws) ≡ stopped (ws ++ ms))
  run-smooth [] [] final stream ws m0 len smooth fin back e last = (
    [],
    refl,
    ap (λ (b : Bytes). run f o g (final ∷ []) (running b ws)) (sym (ok_injective _ _ e))
        ∙ run-last final ws fin
        ∙ ap stopped (sym (append_nil ws)),
  )
  run-smooth [] (t ∷ ts) final stream ws m0 len smooth fin back e last = absurd (omega arith)
  run-smooth (x ∷ xs) [] final stream ws m0 len smooth fin back e last = absurd (omega arith)
  run-smooth (x ∷ xs) (t ∷ ts) final stream ws m0 len (now, smooth) fin (first, back) e last =
      let (m, sent, e') = bind-ok (encode f.request_json new_codec 1 x) _ stream e in
      let (rest, others, e'') = bind-ok (encode_all f.request_json 1 xs) _ stream e' in
      let is : stream ≡ m ++ rest = sym (ok_injective _ _ e'') in
      let (r, encoded, wrote) = send_response-smooth t (respond f o g t x) rest ws m0 now last in
      let (rs, all_encoded, ran) =
        run-smooth xs ts final rest (ws ++ r ∷ []) m0 (omega arith) smooth fin back others last in
      (
        r ∷ rs,
        encode_all-cons _ _ r (concat rs) encoded all_encoded,
        ap (λ (b : Bytes). run f o g (t ∷ ts ++ final ∷ []) (running b ws)) is
            ∙ run-one t (ts ++ final ∷ []) x m rest ws r now first sent wrote
            ∙ ran
            ∙ ap stopped (append_assoc ws (r ∷ []) rs),
      )

  length-answers :
      (ts : List Turn) (xs : List Request)
      → length ts ≡ length xs
      → length (answers ts xs) ≡ length xs
  length-answers [] [] e = refl
  length-answers [] (x ∷ xs) e = absurd (omega arith)
  length-answers (t ∷ ts) [] e = absurd (omega arith)
  length-answers (t ∷ ts) (x ∷ xs) e = omega (arith, length-answers ts xs (omega arith))

  -- A client that sends requests and closes its end gets from a session whose connection does not
  -- fail one answer to each, in that order, and the session ends with the connection closed. An answer
  -- that cannot be encoded is replaced by the error that says so. JSON reads the messages back.
  pub run-answers :
      (xs : List Request) (ts : List Turn) (final : Turn) (stream m0 : Bytes)
      → length ts ≡ length xs
      → All IsSmooth ts
      → IsSmooth final
      → All (IsReadBack f.request_json) xs
      → All (IsReadBack f.response_json) (answers ts xs)
      → encode_all f.request_json message_type_request xs ≡ ok stream
      → encode_response f.response_json new_codec (last_resort f) ≡ ok m0
      → (decode_all f.response_json message_type_response (length xs) (
            reader
              (concat (run f o g (ts ++ final ∷ []) (new_session (reader stream false))).written)
              false)
          ≡ (map ok (answers ts xs), reader [] false))
        × ((run f o g (ts ++ final ∷ []) (new_session (reader stream false))).conn_closed ≡ true)
  run-answers xs ts final stream m0 len smooth fin back backs e last =
      let (ms, sent, ran) = run-smooth xs ts final stream [] m0 len smooth fin back e last in
      let received =
        decode_all-encode_all f.response_json 2 (answers ts xs) (concat ms) [] false backs sent in
      (
        ap
              (λ (s : Session).
                decode_all f.response_json 2 (length xs) (reader (concat s.written) false))
              ran
            ∙ ap (λ (n : ℕ). decode_all f.response_json 2 n (reader (concat ms) false))
                (sym (length-answers ts xs len))
            ∙ ap
                (λ (b : Bytes).
                  decode_all f.response_json 2 (length (answers ts xs)) (reader b false))
                (sym (append_nil (concat ms)))
            ∙ received,
        ap (λ (s : Session). s.conn_closed) ran,
      )
