-- ===== src/Protocol/Requests/Exchange.antt =====
-- Requests between the two sides: what the decoder answers on what the encoder wrote, and what an
-- accepted request satisfies.
use enclave_gateway.Protocol.Value.{
  or_empty_idem, includes, own_keys, get, undefined, null, bool, other_num, big, negative_big,
  bytes, arr, own, names, same, is_text, fields_length, Value, obj, usual, field, end, num, text,
  or_empty,
}
use enclave_gateway.Base.{
  any, first_ok, second_ok, throw_if-ok, throw_if, >>=-eq-ok, refl, ok, ltb, length, ℕ, List, arith,
  false, true, ◌≡◌,
}
use enclave_gateway.Protocol.Decode.{decode, max_levels}
use enclave_gateway.Protocol.Frames.{
  frame_too_large, from_cbor-ok, from_cbor, has, ops, forbidden_keys, assert_no_forbidden,
  proto_version, max_frame, is_num, all_in, is_handle,
}
use enclave_gateway.Protocol.Requests.{
  Request, lacks_token, encode_request, decode_request, check_request, request_object,
  request_fields, get, own_keys,
}
use enclave_gateway.Protocol.RoundTrip.Encoded.{decode-encode}
use enclave_gateway.Protocol.RoundTrip.Fits.{Fits}
use enclave_gateway.Protocol.Utf8.{utf8_bytes, char_bytes, codes}
use enclave_gateway.Protocol.Encode.{enc_text, enc_head, encode, sort_entries}

-- The object of a request, with its keys in the order of the wire.
abbrev pub wire_object : Request → Value
wire_object r = obj usual (
    field (codes "v") (num proto_version) (
      field (codes "id") r.id (
        field (codes "op") r.op (
          field (codes "arg") (or_empty r.arg)
            (field (codes "gen") r.gen (field (codes "acct") r.acct end))))))

wire_order : (r : Request) → encode (request_object r) ≡ encode (wire_object r)
unfolding encode sort_entries enc_text fields_length utf8_bytes char_bytes enc_head
wire_order r = refl

handle_is_text : (v : Value) → is_handle v ≡ true → is_text v ≡ true
handle_is_text (text s) h = refl
handle_is_text undefined h = h
handle_is_text null h = h
handle_is_text (bool b) h = h
handle_is_text (num n) h = h
handle_is_text (other_num s) h = h
handle_is_text (big n) h = h
handle_is_text (negative_big n) h = h
handle_is_text (bytes b) h = h
handle_is_text (arr vs) h = h
handle_is_text (obj p fs) h = h

-- The reader of a request, on the object that the encoder wrote.
check_wire :
    (r : Request)
    → has ops r.op ≡ true
    → is_text r.acct ≡ true
    → assert_no_forbidden (or_empty r.arg) ≡ ok tt
    → lacks_token r.op (or_empty r.arg) ≡ false
    → check_request (wire_object r) ≡ ok (record r { arg = or_empty r.arg })
unfolding check_request own_keys names includes same get own
check_wire r known handle clean token = rw (or_empty_idem r.arg, known, handle, clean, token) refl

-- What the encoder has checked of a request that it sends.
encode_request-checked :
    (r : Request) (b : List ℕ)
    → encode_request r ≡ ok b
    → (has ops r.op ≡ true)
      × (is_handle r.acct ≡ true)
      × (assert_no_forbidden (or_empty r.arg) ≡ ok tt)
      × (lacks_token r.op (or_empty r.arg) ≡ false)
      × (encode (request_object r) ≡ ok b)
      × (ltb max_frame (length b) ≡ false)
unfolding encode_request
encode_request-checked r b sent = ground arith

-- A request that is sent is decoded as it was, with an object for an absent argument.
pub decode_request-encode_request :
    (r : Request) (b : List ℕ)
    → Fits max_levels (wire_object r)
    → encode_request r ≡ ok b
    → decode_request b ≡ ok (record r { arg = or_empty r.arg })
unfolding decode_request
decode_request-encode_request r b fits sent =
    let (known, handle, clean, token, framed, sized) = encode_request-checked r b sent in
    let (c, same_frame, decoded) = decode-encode (wire_object r) fits in
    let same_bytes : c ≡ b = cc (framed, same_frame, wire_order r) in
    let back : decode b ≡ ok (wire_object r) = rw (← same_bytes) decoded in
    rw (sized, back) (check_wire r known (handle_is_text r.acct handle) clean token)

-- What a request satisfies that the gateway accepts.
pub record Accepted (b : List ℕ) (r : Request) : Type 0 where
  small : ltb max_frame (length b) ≡ false
  known : has ops r.op ≡ true
  handle : is_text r.acct ≡ true
  clean : any (λ k. includes k forbidden_keys) (own_keys r.arg) ≡ false
  token : lacks_token r.op r.arg ≡ false
  object :
      (m : Value) × (decode b ≡ ok m)
      × (all_in request_fields (own_keys m) ≡ true)
      × (is_num proto_version (get (codes "v") m) ≡ true)

check_request_sound :
    (m : Value) (r : Request)
    → check_request m ≡ ok r
    → (has ops r.op ≡ true)
      × (is_text r.acct ≡ true)
      × (any (λ k. includes k forbidden_keys) (own_keys r.arg) ≡ false)
      × (lacks_token r.op r.arg ≡ false)
      × (all_in request_fields (own_keys m) ≡ true)
      × (is_num proto_version (get (codes "v") m) ≡ true)
unfolding check_request assert_no_forbidden
check_request_sound m r e = ground arith

pub decode_request-Accepted : (b : List ℕ) (r : Request) → decode_request b ≡ ok r → Accepted b r
unfolding decode_request
decode_request-Accepted b r e =
    let sized = first_ok (throw_if (ltb max_frame (length b)) frame_too_large) _ e in
    let (m, read, checked) =
      >>=-eq-ok (from_cbor (decode b)) check_request
        (second_ok (throw_if (ltb max_frame (length b)) frame_too_large) _ e) in
    let (known, handle, clean, token, closed, version) = check_request_sound m r checked in
    record {
      small = throw_if-ok _ frame_too_large sized;
      known = known;
      handle = handle;
      clean = clean;
      token = token;
      object = (m, from_cbor-ok (decode b) read, closed, version);
    }
