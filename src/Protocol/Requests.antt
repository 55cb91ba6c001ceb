-- ===== src/Protocol/Requests.antt =====
-- brain-protocol.mjs, `encodeRequest` and `decodeRequest`.
use enclave_gateway.Base.{
  if◌then◌else◌, ◌↔◌, ◌≢◌, ◌%◌, ◌/◌, ◌*◌, ◌-◌, ◌+◌, ◌>>◌, ◌∙◌, ◌⊎◌, ◌≤◌, ◌<◌, ◌++◌, suc, zero, ◌==◌,
  inr, inl, arith, ◌≡◌, raise, some, none, refl, ok, ℕ, Bool, true, false, List, [], ◌∷◌, ltb,
  length, Result, ◌>>=◌, throw_if, not, ◌&&◌, ◌||◌, map,
}
use enclave_gateway.Protocol.Utf8.{codes}
use enclave_gateway.Protocol.Value.{
  Value, num, bytes, obj, end, field, usual, is_text, is_number, or_empty, get, own_keys,
}
use enclave_gateway.Protocol.Encode.{encode}
use enclave_gateway.Protocol.Decode.{decode}
use enclave_gateway.Protocol.Frames.{
  ProtocolError, Text, proto_version, max_frame, ops, mutating, has, all_in, assert_no_forbidden,
  from_cbor, is_num, is_handle, unknown_op, id_gen_required, acct_required, token_required,
  hash_required, frame_too_large, not_a_map, unknown_version, unknown_field, acct_not_text,
}
pub mod Exchange

pub record Request : Type 0 where
  pub id : Value
  pub gen : Value
  pub acct : Value
  pub op : Value
  pub arg : Value

abbrev pub request_object : Request → Value
request_object r = obj usual (
    field (codes "v") (num proto_version) (
      field (codes "id") r.id (
        field (codes "gen") r.gen (
          field (codes "acct") r.acct
            (field (codes "op") r.op (field (codes "arg") (or_empty r.arg) end))))))

-- `MUTATING.has(op) && typeof arg.authorized !== "string"`
abbrev pub lacks_token : Value → Value → Bool
lacks_token op arg = has mutating op && not (is_text (get (codes "authorized") arg))

abbrev pub lacks_hash : Value → Value → Bool
lacks_hash op arg = has (codes "EVICT_SESSION" ∷ []) op && not (is_text (get (codes "hash") arg))

unfoldable pub encode_request : Request → Result ProtocolError (List ℕ)
unfolding assert_no_forbidden
encode_request r = do
  known ← throw_if (not (has ops r.op)) unknown_op
  numbered ← throw_if (not (is_number r.id) || not (is_number r.gen)) id_gen_required
  handle ← throw_if (not (is_handle r.acct)) acct_required
  clean ← assert_no_forbidden (or_empty r.arg)
  token ← throw_if (lacks_token r.op (or_empty r.arg)) token_required
  hash ← throw_if (lacks_hash r.op (or_empty r.arg)) hash_required
  frame ← from_cbor (encode (request_object r))
  sized ← throw_if (ltb max_frame (length frame)) frame_too_large
  ok frame

-- `!m || typeof m !== "object" || Array.isArray(m)`, negated
abbrev pub is_map : Value → Bool
is_map (obj p fs) = true
is_map (bytes b) = true
is_map _ = false

abbrev pub request_fields : List Text
request_fields = codes "v" ∷ codes "id" ∷ codes "gen" ∷ codes "acct" ∷ codes "op" ∷ codes "arg" ∷ []

abbrev pub arg_of : Value → Value
arg_of m = or_empty (get (codes "arg") m)

-- The checks of `decodeRequest` on what the frame holds.
unfoldable pub check_request : Value → Result ProtocolError Request
unfolding assert_no_forbidden
check_request m = do
  map ← throw_if (not (is_map m)) not_a_map
  version ← throw_if (not (is_num proto_version (get (codes "v") m))) unknown_version
  closed ← throw_if (not (all_in request_fields (own_keys m))) unknown_field
  known ← throw_if (not (has ops (get (codes "op") m))) unknown_op
  handle ← throw_if (not (is_text (get (codes "acct") m))) acct_not_text
  clean ← assert_no_forbidden (arg_of m)
  token ← throw_if (lacks_token (get (codes "op") m) (arg_of m)) token_required
  ok (record {
    id = get (codes "id") m;
    gen = get (codes "gen") m;
    acct = get (codes "acct") m;
    op = get (codes "op") m;
    arg = arg_of m;
  })

unfoldable pub decode_request : List ℕ → Result ProtocolError Request
decode_request buf = do
  sized ← throw_if (ltb max_frame (length buf)) frame_too_large
  m ← from_cbor (decode buf)
  check_request m
