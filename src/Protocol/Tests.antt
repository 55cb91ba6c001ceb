-- ===== src/Protocol/Tests.antt =====
-- Runs of the codec and of the frames, and the theorems at concrete inputs.
use enclave_gateway.Base.{◌⊎◌, ◌≤◌, ◌<◌, ◌^◌, List, ℕ, ok, raise, ◌≡◌, ◌++◌, [], ◌∷◌, refl, arith}
use enclave_gateway.Protocol.Utf8.{codes, utf8_bytes, char_bytes, utf8_text, next_byte, first_byte}
use enclave_gateway.Protocol.Value.{
  Value, Values, includes, own_keys, get, own, same, num, text, arr, obj, end, field, usual, set_to,
  fields_length, items_length,
}
use enclave_gateway.Protocol.Encode.{
  encode, sort_entries, enc_text, enc_head, key_lt, concat_entries, key_order, trailing_bytes,
  invalid_array_length, too_deep, non_canonical, bytes_lt,
}
use enclave_gateway.Protocol.Decode.{decode, read_item, max_levels, at, past}
use enclave_gateway.Protocol.Requests.{Request, encode_request, decode_request, check_request}
use enclave_gateway.Protocol.Requests.Exchange.{
  decode_request-encode_request, decode_request-Accepted, Accepted, wire_object,
}
use enclave_gateway.Protocol.Answers.{Event, decode_event, check_event}
use enclave_gateway.Protocol.Refusals.{decode-prototype, decode-announced}
use enclave_gateway.Protocol.RoundTrip.Fits.{Fits}
use enclave_gateway.Protocol.RoundTrip.Encoded.{decode-encode}

-- An eviction, authorized by a token.
abbrev evict_arg : Value
evict_arg =
    obj usual
      (field (codes "hash") (text (codes "5")) (field (codes "authorized") (text (codes "t")) end))

abbrev evict : Request
evict = record {
  id = num 7;
  gen = num 300;
  acct = text (codes "a1");
  op = text (codes "EVICT_SESSION");
  arg = evict_arg;
}

abbrev evict_frame : List ℕ
evict_frame =
    0xa6 ∷ 0x61 ∷ 0x76 ∷ 0x01 ∷ 0x62 ∷ 0x69 ∷ 0x64 ∷ 0x07 ∷ 0x62 ∷ 0x6f ∷ 0x70 ∷ 0x6d ∷ 0x45 ∷ 0x56
    ∷ 0x49 ∷ 0x43 ∷ 0x54 ∷ 0x5f ∷ 0x53 ∷ 0x45 ∷ 0x53 ∷ 0x53 ∷ 0x49 ∷ 0x4f ∷ 0x4e ∷ 0x63 ∷ 0x61
    ∷ 0x72 ∷ 0x67 ∷ 0xa2 ∷ 0x64 ∷ 0x68 ∷ 0x61 ∷ 0x73 ∷ 0x68 ∷ 0x61 ∷ 0x35 ∷ 0x6a ∷ 0x61 ∷ 0x75
    ∷ 0x74 ∷ 0x68 ∷ 0x6f ∷ 0x72 ∷ 0x69 ∷ 0x7a ∷ 0x65 ∷ 0x64 ∷ 0x61 ∷ 0x74 ∷ 0x63 ∷ 0x67 ∷ 0x65
    ∷ 0x6e ∷ 0x19 ∷ 0x01 ∷ 0x2c ∷ 0x64 ∷ 0x61 ∷ 0x63 ∷ 0x63 ∷ 0x74 ∷ 0x62 ∷ 0x61 ∷ 0x31 ∷ []

evict-Fits : Fits max_levels (wire_object evict)
unfolding Fits same utf8_bytes char_bytes enc_text enc_head key_lt bytes_lt fields_length
evict-Fits = ground arith

evict_sent : encode_request evict ≡ ok evict_frame
unfolding encode_request encode includes own_keys get concat_entries sort_entries enc_text enc_head
    utf8_bytes char_bytes fields_length
evict_sent = refl

evict_read : decode_request evict_frame ≡ ok evict
unfolding decode_request decode key_lt check_request get utf8_text next_byte first_byte own_keys
    includes
evict_read = refl

decode_request-encode_request_example : decode_request evict_frame ≡ ok evict
decode_request-encode_request_example =
    decode_request-encode_request evict evict_frame evict-Fits evict_sent

decode_request-Accepted_example : Accepted evict_frame evict
decode_request-Accepted_example = decode_request-Accepted evict_frame evict evict_read

decode-encode_example :
    (b : List ℕ) × (encode (wire_object evict) ≡ ok b) × (decode b ≡ ok (wire_object evict))
decode-encode_example = decode-encode (wire_object evict) evict-Fits

-- A new login from a device named "é".
abbrev login_frame : List ℕ
login_frame =
    0xa4 ∷ 0x61 ∷ 0x76 ∷ 0x01 ∷ 0x64 ∷ 0x61 ∷ 0x63 ∷ 0x63 ∷ 0x74 ∷ 0x62 ∷ 0x61 ∷ 0x31 ∷ 0x64 ∷ 0x62
    ∷ 0x6f ∷ 0x64 ∷ 0x79 ∷ 0xa2 ∷ 0x64 ∷ 0x68 ∷ 0x61 ∷ 0x73 ∷ 0x68 ∷ 0x61 ∷ 0x35 ∷ 0x66 ∷ 0x64
    ∷ 0x65 ∷ 0x76 ∷ 0x69 ∷ 0x63 ∷ 0x65 ∷ 0x62 ∷ 0xc3 ∷ 0xa9 ∷ 0x64 ∷ 0x6b ∷ 0x69 ∷ 0x6e ∷ 0x64
    ∷ 0x68 ∷ 0x4e ∷ 0x45 ∷ 0x57 ∷ 0x5f ∷ 0x41 ∷ 0x55 ∷ 0x54 ∷ 0x48 ∷ []

abbrev login : Event
login = record {
  kind = text (codes "NEW_AUTH");
  acct = text (codes "a1");
  body =
      obj usual
        (field (codes "hash") (text (codes "5")) (field (codes "device") (text (0xe9 ∷ [])) end));
}

login_read : decode_event login_frame ≡ ok login
unfolding decode_event decode key_lt check_event get utf8_text next_byte first_byte includes
    own_keys
login_read = refl

-- A request whose argument hides a session behind the key `__proto__`: no own key of the argument
-- is forbidden, and a read of the key finds the text.
abbrev hidden : Value
hidden = obj (set_to (obj usual (field (codes "session") (text (codes "s")) end))) end

abbrev hidden_frame : List ℕ
hidden_frame =
    0xa6 ∷ 0x61 ∷ 0x76 ∷ 0x01 ∷ 0x62 ∷ 0x69 ∷ 0x64 ∷ 0x07 ∷ 0x62 ∷ 0x6f ∷ 0x70 ∷ 0x6d ∷ 0x4c ∷ 0x49
    ∷ 0x53 ∷ 0x54 ∷ 0x5f ∷ 0x53 ∷ 0x45 ∷ 0x53 ∷ 0x53 ∷ 0x49 ∷ 0x4f ∷ 0x4e ∷ 0x53 ∷ 0x63 ∷ 0x61
    ∷ 0x72 ∷ 0x67 ∷ 0xa1 ∷ 0x69 ∷ 0x5f ∷ 0x5f ∷ 0x70 ∷ 0x72 ∷ 0x6f ∷ 0x74 ∷ 0x6f ∷ 0x5f ∷ 0x5f
    ∷ 0xa1 ∷ 0x67 ∷ 0x73 ∷ 0x65 ∷ 0x73 ∷ 0x73 ∷ 0x69 ∷ 0x6f ∷ 0x6e ∷ 0x61 ∷ 0x73 ∷ 0x63 ∷ 0x67
    ∷ 0x65 ∷ 0x6e ∷ 0x19 ∷ 0x01 ∷ 0x2c ∷ 0x64 ∷ 0x61 ∷ 0x63 ∷ 0x63 ∷ 0x74 ∷ 0x62 ∷ 0x61 ∷ 0x31 ∷ []

hidden_accepted :
    decode_request hidden_frame
    ≡ ok (record {
      id = num 7;
      gen = num 300;
      acct = text (codes "a1");
      op = text (codes "LIST_SESSIONS");
      arg = hidden;
    })
unfolding decode_request decode key_lt check_request get utf8_text next_byte first_byte own_keys
    includes
hidden_accepted = refl

hidden_session : get (codes "session") hidden ≡ text (codes "s")
unfolding get own
hidden_session = refl

hidden-Fits : Fits 8 (obj usual (field (codes "session") (text (codes "s")) end))
unfolding Fits same utf8_bytes char_bytes enc_text enc_head key_lt bytes_lt fields_length
hidden-Fits = ground arith

session_encoded :
    encode (obj usual (field (codes "session") (text (codes "s")) end))
    ≡ ok (0xa1 ∷ 0x67 ∷ 0x73 ∷ 0x65 ∷ 0x73 ∷ 0x73 ∷ 0x69 ∷ 0x6f ∷ 0x6e ∷ 0x61 ∷ 0x73 ∷ [])
unfolding encode sort_entries concat_entries enc_head fields_length enc_text utf8_bytes char_bytes
session_encoded = refl

decode-prototype_example :
    decode (
      enc_head 5 1
      ++ (enc_text (codes "__proto__")
          ++ (0xa1 ∷ 0x67 ∷ 0x73 ∷ 0x65 ∷ 0x73 ∷ 0x73 ∷ 0x69 ∷ 0x6f ∷ 0x6e ∷ 0x61 ∷ 0x73 ∷ [])))
    ≡ ok hidden
decode-prototype_example = decode-prototype _ _ hidden-Fits refl session_encoded

-- Five bytes that announce 2^32 - 1 items.
decode-announced_example :
    ((vs : Values) × (0xffffffff < 2 ^ 32)
      × (read_item max_levels (at (enc_head 4 0xffffffff)) ≡ ok (arr vs, past))
      × (items_length vs ≡ 0xffffffff)
      × (decode (enc_head 4 0xffffffff) ≡ raise trailing_bytes))
    ⊎ ((2 ^ 32 ≤ 0xffffffff) × (decode (enc_head 4 0xffffffff) ≡ raise invalid_array_length))
decode-announced_example = decode-announced 0xffffffff (omega arith) (omega arith)

-- Keys out of order, a length in more bytes than it needs, and nine levels of arrays.
decode_order : decode (0xa2 ∷ 0x61 ∷ 0x62 ∷ 0x01 ∷ 0x61 ∷ 0x61 ∷ 0x02 ∷ []) ≡ raise key_order
unfolding decode key_lt
decode_order = refl

decode_long_head : decode (0x18 ∷ 0x05 ∷ []) ≡ raise non_canonical
unfolding decode
decode_long_head = refl

decode_deep :
    decode (0x81 ∷ 0x81 ∷ 0x81 ∷ 0x81 ∷ 0x81 ∷ 0x81 ∷ 0x81 ∷ 0x81 ∷ 0x81 ∷ 0x01 ∷ [])
    ≡ raise too_deep
unfolding decode
decode_deep = refl

-- Two keys of bytes that are no UTF-8 become one, and the second value overwrites the first.
decode_overwritten :
    decode (0xa2 ∷ 0x61 ∷ 0x80 ∷ 0x01 ∷ 0x61 ∷ 0x81 ∷ 0x02 ∷ [])
    ≡ ok (obj usual (field (0xfffd ∷ []) (num 2) end))
unfolding decode key_lt utf8_text next_byte first_byte same
decode_overwritten = refl

-- Bytes that are no UTF-8 become replacement characters, so two frames give one text.
utf8_overlong : utf8_text (0xc0 ∷ 0x41 ∷ []) ≡ 0xfffd ∷ 0x41 ∷ []
unfolding utf8_text next_byte first_byte
utf8_overlong = refl

utf8_cut : utf8_text (0xe2 ∷ 0x82 ∷ 0x41 ∷ []) ≡ 0xfffd ∷ 0x41 ∷ []
unfolding utf8_text next_byte first_byte
utf8_cut = refl
