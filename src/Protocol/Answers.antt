-- ===== src/Protocol/Answers.antt =====
-- brain-protocol.mjs, the responses and the events: `encodeResponse` to `decodeEvent`.
use enclave_gateway.Base.{
  ◌↔◌, ◌≢◌, ◌%◌, ◌/◌, ◌*◌, ◌-◌, ◌+◌, ◌>>◌, ◌∙◌, ◌⊎◌, ◌≤◌, ◌<◌, ◌||◌, ◌++◌, suc, zero, inr, inl,
  arith, ◌≡◌, raise, refl, ok, ℕ, Bool, true, false, List, [], ◌∷◌, ltb, ◌==◌, if◌then◌else◌,
  length, Result, Option, none, some, ◌>>=◌, throw_if, not, ◌&&◌, eqs,
}
use enclave_gateway.Protocol.Utf8.{codes}
use enclave_gateway.Protocol.Value.{
  Value, undefined, null, bool, num, other_num, big, text, obj, end, field, usual, same, is_nullish,
  or_empty, get, own_keys,
}
use enclave_gateway.Protocol.Encode.{encode}
use enclave_gateway.Protocol.Decode.{decode}
use enclave_gateway.Protocol.Frames.{
  ProtocolError, Text, proto_version, max_frame, has, all_in, assert_no_forbidden, from_cbor,
  is_num, response_too_large, unknown_version, unexpected_field, unknown_event, event_field,
  type_error,
}
pub mod Closed

abbrev pub response_body_keys : List (Text × List Text)
response_body_keys =
    (codes "LIST_SESSIONS", codes "sessions" ∷ [])
    ∷ (codes "EVICT_SESSION", codes "removed" ∷ [])
    ∷ (codes "DECLINE_RESET", codes "declined" ∷ [])
    ∷ (
      codes "READ_SECURITY_STATE",
      codes "hasPwd"
          ∷ codes "hasRecovery"
          ∷ codes "pendingReset"
          ∷ codes "pendingResetAt"
          ∷ codes "loginEmailPattern"
          ∷ codes "accountTtlDays"
          ∷ codes "sessionTtlDays"
          ∷ [],
    )
    ∷ (codes "LOGOUT_SELF", codes "goneOrDead" ∷ [])
    ∷ (codes "WHO_AM_I", codes "tgUserId" ∷ [])
    ∷ []

unfoldable pub body_keys : Text → List (Text × List Text) → Option (List Text)
body_keys op [] = none
body_keys op ((k, keys) ∷ rest) = if same k op then some keys else body_keys op rest

-- A value as a condition.
abbrev pub truthy : Value → Bool
truthy undefined = false
truthy null = false
truthy (bool b) = b
truthy (num n) = not (n == 0)
truthy (other_num t) = not (eqs t "NaN")
truthy (big n) = not (n == 0)
truthy (text []) = false
truthy _ = true

abbrev pub or_null : Value → Value
or_null v = if is_nullish v then null else v

pub record Response : Type 0 where
  pub id : Value
  pub ok_field : Value
  pub code : Value
  pub body : Value

unfoldable pub encode_response : Response → Result ProtocolError (List ℕ)
unfolding assert_no_forbidden
encode_response r = do
  clean ← assert_no_forbidden (or_empty r.body)
  frame ← from_cbor (
      encode (
        obj usual (
          field (codes "v") (num proto_version) (
            field (codes "id") r.id (
              field (codes "ok") (bool (truthy r.ok_field)) (
                field (codes "code") (or_null r.code)
                  (field (codes "body") (or_empty r.body) end)))))))
  sized ← throw_if (ltb max_frame (length frame)) response_too_large
  ok frame

abbrev pub body_of : Value → Value
body_of m = or_empty (get (codes "body") m)

-- A read of a property of null or undefined throws.
abbrev pub readable : Value → Result ProtocolError (Unit {0})
readable m = throw_if (is_nullish m) type_error

-- Whether a body has a field that its operation does not answer with.
unfoldable pub body_open : Option Text → Value → Bool
unfolding body_keys
body_open none m = false
body_open (some op) m = elim (body_keys op response_body_keys) [
  | none ↦ false
  | some keys ↦ truthy (get (codes "ok") m) && not (all_in keys (own_keys (body_of m)))
]

unfoldable pub check_response : Value → Option Text → Result ProtocolError Response
unfolding assert_no_forbidden body_open
check_response m expected = do
  there ← readable m
  version ← throw_if (not (is_num proto_version (get (codes "v") m))) unknown_version
  clean ← assert_no_forbidden (body_of m)
  closed ← throw_if (body_open expected m) unexpected_field
  ok (record {
    id = get (codes "id") m;
    ok_field = get (codes "ok") m;
    code = get (codes "code") m;
    body = body_of m;
  })

unfoldable pub decode_response : List ℕ → Option Text → Result ProtocolError Response
decode_response buf expected = from_cbor (decode buf) >>= λ m. check_response m expected

abbrev pub event_fields : List Text
event_fields = codes "hash" ∷ codes "unconfirmed" ∷ codes "device" ∷ codes "location" ∷ []

pub record Event : Type 0 where
  pub kind : Value
  pub acct : Value
  pub body : Value

abbrev pub new_auth : Text
new_auth = codes "NEW_AUTH"

unfoldable pub encode_event : Event → Result ProtocolError (List ℕ)
unfolding assert_no_forbidden
encode_event e = do
  known ← throw_if (not (has (new_auth ∷ []) e.kind)) unknown_event
  closed ← throw_if (not (all_in event_fields (own_keys (or_empty e.body)))) event_field
  clean ← assert_no_forbidden (or_empty e.body)
  from_cbor (
      encode (
        obj usual (
          field (codes "v") (num proto_version) (
            field (codes "kind") (text new_auth)
              (field (codes "acct") e.acct (field (codes "body") (or_empty e.body) end))))))

unfoldable pub check_event : Value → Result ProtocolError Event
check_event m = do
  there ← readable m
  version ← throw_if (not (is_num proto_version (get (codes "v") m))) unknown_version
  known ← throw_if (not (has (new_auth ∷ []) (get (codes "kind") m))) unknown_event
  closed ← throw_if (not (all_in event_fields (own_keys (body_of m)))) event_field
  ok (record { kind = get (codes "kind") m; acct = get (codes "acct") m; body = body_of m })

unfoldable pub decode_event : List ℕ → Result ProtocolError Event
decode_event buf = from_cbor (decode buf) >>= check_event
