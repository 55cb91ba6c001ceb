-- ===== src/Protocol/Answers/Closed.antt =====
-- Responses and events between the two sides: what is decoded of what was encoded, and the closed
-- bodies of what is accepted.
use enclave_gateway.Protocol.Decode.{decode, max_levels}
use enclave_gateway.Protocol.Frames.{
  from_cbor, Text, forbidden_keys, assert_no_forbidden, has, proto_version, all_in,
}
use enclave_gateway.Base.{
  Bool-cases, inl, inr, >>=-eq-ok, any, false, refl, Option, some, ◌∷◌, [], List, ℕ, ok, true, ◌≡◌,
  arith,
}
use enclave_gateway.Protocol.Value.{
  or_empty_idem, same-eq, same, includes, own_keys, or_empty, get, own, names, bool, Value, num,
  obj, usual, field, end, text, fields_length,
}
use enclave_gateway.Protocol.Answers.{
  decode_response, check_response, decode_event, check_event, response_body_keys, body_keys,
  body_open, Response, Event, encode_response, encode_event, event_fields, new_auth, truthy,
  or_null,
}
use enclave_gateway.Protocol.RoundTrip.Fits.{Fits}
use enclave_gateway.Protocol.RoundTrip.Encoded.{decode-encode}
use enclave_gateway.Protocol.Utf8.{codes, utf8_bytes, char_bytes}
use enclave_gateway.Protocol.Encode.{encode, sort_entries, enc_text, enc_head}

-- The objects of a response and of an event, with their keys in the order of the wire.
abbrev pub wire_response : Response → Value
wire_response r = obj usual (
    field (codes "v") (num proto_version) (
      field (codes "id") r.id (
        field (codes "ok") (bool (truthy r.ok_field))
          (field (codes "body") (or_empty r.body) (field (codes "code") (or_null r.code) end)))))

abbrev pub wire_event : Event → Value
wire_event e = obj usual (
    field (codes "v") (num proto_version) (
      field (codes "acct") e.acct
        (field (codes "body") (or_empty e.body) (field (codes "kind") (text new_auth) end))))

encode_response-checked :
    (r : Response) (b : List ℕ)
    → encode_response r ≡ ok b
    → (assert_no_forbidden (or_empty r.body) ≡ ok tt) × (encode (wire_response r) ≡ ok b)
unfolding encode_response encode sort_entries enc_text fields_length utf8_bytes char_bytes enc_head
encode_response-checked r b sent = ground arith

encode_event-checked :
    (e : Event) (b : List ℕ)
    → encode_event e ≡ ok b
    → (has (new_auth ∷ []) e.kind ≡ true)
      × (all_in event_fields (own_keys (or_empty e.body)) ≡ true)
      × (encode (wire_event e) ≡ ok b)
unfolding encode_event encode sort_entries enc_text fields_length utf8_bytes char_bytes enc_head
encode_event-checked e b sent = ground arith

module _ (r : Response) where
  check_wire_response :
      (expected : Option Text)
      → assert_no_forbidden (or_empty r.body) ≡ ok tt
      → body_open expected (wire_response r) ≡ false
      → check_response (wire_response r) expected
        ≡ ok (record {
          id = r.id;
          ok_field = bool (truthy r.ok_field);
          code = or_null r.code;
          body = or_empty r.body;
        })
  unfolding check_response own_keys names includes same get own
  check_wire_response expected clean closed = rw (or_empty_idem r.body, clean, closed) refl

  pub decode_response-encode_response :
      (expected : Option Text) (b : List ℕ)
      → Fits max_levels (wire_response r)
      → body_open expected (wire_response r) ≡ false
      → encode_response r ≡ ok b
      → decode_response b expected
        ≡ ok (record {
          id = r.id;
          ok_field = bool (truthy r.ok_field);
          code = or_null r.code;
          body = or_empty r.body;
        })
  unfolding decode_response
  decode_response-encode_response expected b fits closed sent =
      let (clean, framed) = encode_response-checked r b sent in
      let (c, same_frame, decoded) = decode-encode (wire_response r) fits in
      let same_bytes : b ≡ c = cc (framed, same_frame) in
      rw (same_bytes, decoded) (check_wire_response expected clean closed)

module _ (e : Event) where
  check_wire_event :
      all_in event_fields (own_keys (or_empty e.body)) ≡ true
      → check_event (wire_event e)
        ≡ ok (record { kind = text new_auth; acct = e.acct; body = or_empty e.body })
  unfolding check_event own_keys names includes same get own
  check_wire_event closed = rw (or_empty_idem e.body, closed) refl

  pub decode_event-encode_event :
      (b : List ℕ)
      → Fits max_levels (wire_event e)
      → encode_event e ≡ ok b
      → decode_event b ≡ ok (record { kind = text new_auth; acct = e.acct; body = or_empty e.body })
  unfolding decode_event
  decode_event-encode_event b fits sent =
      let (known, closed, framed) = encode_event-checked e b sent in
      let (c, same_frame, decoded) = decode-encode (wire_event e) fits in
      let same_bytes : b ≡ c = cc (framed, same_frame) in
      rw (same_bytes, decoded) (check_wire_event closed)

check_event_sound :
    (m : Value) (e : Event)
    → check_event m ≡ ok e
    → (has (new_auth ∷ []) e.kind ≡ true) × (all_in event_fields (own_keys e.body) ≡ true)
unfolding check_event
check_event_sound m e h = ground arith

check_response_sound :
    (m : Value) (op : Text) (keys : List Text) (r : Response)
    → body_keys op response_body_keys ≡ some keys
    → check_response m (some op) ≡ ok r
    → truthy r.ok_field ≡ true
    → (any (λ k. includes k forbidden_keys) (own_keys r.body) ≡ false)
      × (all_in keys (own_keys r.body) ≡ true)
unfolding check_response assert_no_forbidden body_open
check_response_sound m op keys r known h success = ground arith

event_field_open : (k : Text) → includes k event_fields ≡ true → includes k forbidden_keys ≡ false
unfolding includes
event_field_open k h = elim (Bool-cases (same (codes "hash") k)) [
  | inl e ↦ rw (← (same-eq (codes "hash") k e)) refl
  | inr a ↦ elim (Bool-cases (same (codes "unconfirmed") k)) [
    | inl e ↦ rw (← (same-eq (codes "unconfirmed") k e)) refl
    | inr b ↦ elim (Bool-cases (same (codes "device") k)) [
      | inl e ↦ rw (← (same-eq (codes "device") k e)) refl
      | inr c ↦ elim (Bool-cases (same (codes "location") k)) [
        | inl e ↦ rw (← (same-eq (codes "location") k e)) refl
        | inr d ↦ ground arith
      ]
    ]
  ]
]

event_fields_open :
    (ks : List Text)
    → all_in event_fields ks ≡ true
    → any (λ k. includes k forbidden_keys) ks ≡ false
event_fields_open [] h = refl
event_fields_open (k ∷ ks) h = ground (arith, event_field_open k, event_fields_open ks)

-- What an accepted event satisfies.
pub record ClosedEvent (e : Event) : Type 0 where
  kind : has (new_auth ∷ []) e.kind ≡ true
  body : all_in event_fields (own_keys e.body) ≡ true
  no_secret : any (λ k. includes k forbidden_keys) (own_keys e.body) ≡ false

pub decode_event-ClosedEvent : (b : List ℕ) (e : Event) → decode_event b ≡ ok e → ClosedEvent e
unfolding decode_event
decode_event-ClosedEvent b e h =
    let (m, read, checked) = >>=-eq-ok (from_cbor (decode b)) check_event h in
    let (kind, body) = check_event_sound m e checked in
    record { kind = kind; body = body; no_secret = event_fields_open (own_keys e.body) body }

pub decode_response-closed :
    (b : List ℕ) (op : Text) (keys : List Text) (r : Response)
    → body_keys op response_body_keys ≡ some keys
    → decode_response b (some op) ≡ ok r
    → truthy r.ok_field ≡ true
    → (any (λ k. includes k forbidden_keys) (own_keys r.body) ≡ false)
      × (all_in keys (own_keys r.body) ≡ true)
unfolding decode_response
decode_response-closed b op keys r known h success =
    let (m, read, checked) = >>=-eq-ok (from_cbor (decode b)) (λ m. check_response m (some op)) h in
    check_response_sound m op keys r known checked success
