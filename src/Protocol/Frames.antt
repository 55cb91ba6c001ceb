-- ===== src/Protocol/Frames.antt =====
-- brain-protocol.mjs: what the requests, responses and events share, the closed sets of operations
-- and the checks of their keys.
use enclave_gateway.Base.{
  arith, ◌≡◌, ◌*◌, raise, ok, ℕ, Bool, true, false, List, [], ◌∷◌, ◌==◌, Result, throw_if, all, any,
}
use enclave_gateway.Protocol.Utf8.{codes}
use enclave_gateway.Protocol.Value.{Value, num, text, includes, own_keys}
use enclave_gateway.Protocol.Encode.{CborError}

pub data ProtocolError : Type 0 where
  unknown_op id_gen_required acct_required forbidden_field token_required hash_required :
      ProtocolError
  frame_too_large response_too_large not_a_map unknown_version unknown_field : ProtocolError
  acct_not_text unexpected_field unknown_event event_field type_error : ProtocolError
  cbor : CborError → ProtocolError

abbrev pub Text : Type 0
Text = List ℕ

abbrev pub proto_version : ℕ
proto_version = 1

abbrev pub max_frame : ℕ
max_frame = 64 * 1024

abbrev pub ops : List Text
ops =
    codes "LIST_SESSIONS"
    ∷ codes "EVICT_SESSION"
    ∷ codes "DECLINE_RESET"
    ∷ codes "READ_SECURITY_STATE"
    ∷ codes "LOGOUT_SELF"
    ∷ codes "WHO_AM_I"
    ∷ []

abbrev pub mutating : List Text
mutating = codes "EVICT_SESSION" ∷ codes "DECLINE_RESET" ∷ codes "LOGOUT_SELF" ∷ []

abbrev pub forbidden_keys : List Text
forbidden_keys =
    codes "session"
    ∷ codes "auth_key"
    ∷ codes "authKey"
    ∷ codes "stringSession"
    ∷ codes "dc"
    ∷ codes "method"
    ∷ codes "params"
    ∷ []

-- `set.has(v)`, for a set of texts
abbrev pub has : List Text → Value → Bool
has s (text k) = includes k s
has s _ = false

-- `for (const k of Object.keys(v)) if (!allowed.has(k)) throw …`
abbrev pub all_in : List Text → List Text → Bool
all_in allowed keys = all (λ k. includes k allowed) keys

unfoldable pub assert_no_forbidden : Value → Result ProtocolError (Unit {0})
assert_no_forbidden v = throw_if (any (λ k. includes k forbidden_keys) (own_keys v)) forbidden_field

abbrev pub from_cbor {ℓ} : {A : Type ℓ} → Result CborError A → Result ProtocolError A
from_cbor (ok a) = ok a
from_cbor (raise e) = raise (cbor e)

pub from_cbor-ok {ℓ} : {A : Type ℓ} (m : Result CborError A) {a : A} → from_cbor m ≡ ok a → m ≡ ok a
from_cbor-ok (ok a) e = ground arith
from_cbor-ok (raise x) e = cc

abbrev pub is_num : ℕ → Value → Bool
is_num n (num m) = m == n
is_num n _ = false

-- `typeof v !== "string" || v.length === 0`
abbrev pub is_handle : Value → Bool
is_handle (text []) = false
is_handle (text (c ∷ s)) = true
is_handle _ = false
