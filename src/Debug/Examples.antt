-- ===== src/Debug/Examples.antt =====
-- Two requests on one connection, a header, and a text that is cut.
use xkit.Prelude.{◌≡◌, refl, false, some, List, [], ◌∷◌, ◌++◌, pos, take, ok, err, arith, sym}
use xkit.Debug.{Bytes, Error, new_truncated_response}
use xkit.Debug.Codec.{Json, new_codec, header, encode, decode}
use xkit.Debug.RoundTrip.{
  reader, IsReadBack, encode_all, decode_all, decode_all-encode_all, decode-cut,
}
use xkit.Debug.Truncate.{truncate_output, truncate_output-fit, char, fit}

-- Texts that JSON passes through.
abbrev plain : Json Bytes
plain = record { marshal = some; unmarshal = some }

plain-IsReadBack : (x : Bytes) → IsReadBack plain x
plain-IsReadBack x p e = sym e

abbrev stop : Bytes
stop = 115 ∷ 116 ∷ []

abbrev help : Bytes
help = 104 ∷ []

abbrev stop_message : Bytes
stop_message = header 1 2 ++ stop

stop-sent : encode plain new_codec 1 stop ≡ ok stop_message
unfolding encode
stop-sent = refl

both-sent : encode_all plain 1 (stop ∷ help ∷ []) ≡ ok (stop_message ++ header 1 1 ++ help)
unfolding encode
both-sent = refl

decode_all-encode_all_example :
    decode_all plain 1 2 (reader ((stop_message ++ header 1 1 ++ help) ++ 7 ∷ []) false)
    ≡ (ok stop ∷ ok help ∷ [], reader (7 ∷ []) false)
decode_all-encode_all_example =
    decode_all-encode_all plain 1 (stop ∷ help ∷ []) (stop_message ++ header 1 1 ++ help) (7 ∷ [])
      false (plain-IsReadBack stop, (plain-IsReadBack help, tt)) both-sent

decode-cut_example :
    (y : Error) × ((decode plain new_codec 1 (reader (take 9 stop_message) false)).0 ≡ err y)
decode-cut_example = decode-cut plain 1 9 stop stop_message false stop-sent (omega arith)

-- "aé"
abbrev accented : List Bytes
accented = (97 ∷ []) ∷ (195 ∷ 169 ∷ []) ∷ []

truncate_output-fit_example :
    truncate_output (97 ∷ 195 ∷ 169 ∷ []) (pos 2) ≡ some (new_truncated_response (97 ∷ []) 3)
unfolding fit
truncate_output-fit_example =
    truncate_output-fit accented 2 (char refl tt, (char refl (refl, tt), tt))
