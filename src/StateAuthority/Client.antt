-- ===== src/StateAuthority/Client.antt =====
-- state-authority.mjs, `StateAuthorityClient`: the check of a signed response, and the local deadline
-- of a lease. The parameter `ed_verify` is the check of a signature in base64 on a text, by the pinned
-- key. The clocks that a method reads are its arguments.
use Prim.Native.String.{◌++◌ as concat}
use enclave_gateway.Base.{
  ◌-◌, ◌+◌, ◌>>◌, ◌>>=◌, false, raise, ok, some, none, Option, String, Bool, ℕ, not, eqs, ltb,
  throw_if, Result,
}
use enclave_gateway.Policy.Json.{Value, null, num, str, obj, field, end, stringify}
use enclave_gateway.StateAuthority.Store.{Phase, onboarding, armed, terminal, StateRecord}

-- A response's record: the stored fields with its times.
pub record SignedRecord : Type 0 where
  pub stored : StateRecord
  pub issued_at : Option ℕ
  pub expires_at : Option ℕ

pub record Signed : Type 0 where
  pub nonce : String
  pub response : SignedRecord
  pub signature : String

pub data ClientError : Type 0 where
  nonce_mismatch invalid_signature stale : ClientError

abbrev pub phase_text : Phase → String
phase_text onboarding = "ONBOARDING"
phase_text armed = "ARMED"
phase_text terminal = "TERMINAL"

abbrev pub text_or_null : Option String → Value
text_or_null none = null
text_or_null (some s) = str s

abbrev pub number_or_null : Option ℕ → Value
number_or_null none = null
number_or_null (some n) = num n

unfoldable pub canonical_record_bytes : String → SignedRecord → String
canonical_record_bytes nonce r =
    let text = stringify (
      obj (
        field "state_id" (str r.stored.state_id) (
          field "phase" (str (phase_text r.stored.phase)) (
            field "policy_version" (number_or_null r.stored.policy_version) (
              field "policy_head_hash" (text_or_null r.stored.policy_head_hash) (
                field "lease_epoch" (num r.stored.lease_epoch) (
                  field "lease_holder" (text_or_null r.stored.lease_holder) (
                    field "lease_expires_at" (number_or_null r.stored.lease_expires_at) (
                      field "terminal_reason" (text_or_null r.stored.terminal_reason) (
                        field "issued_at" (number_or_null r.issued_at)
                          (field "expires_at" (number_or_null r.expires_at) end))))))))))) in
    concat "sessions.fyi/state-authority/v1\n" (concat nonce (concat "\n" text))

-- `signed.record.expires_at < t`, of a number
abbrev pub is_stale : Option ℕ → ℕ → Bool
is_stale none t = false
is_stale (some e) t = ltb e t

module _ (ed_verify : String → String → Bool) where
  unfoldable pub verify_response : String → ℕ → Option Signed → Result ClientError SignedRecord
  verify_response nonce now none = raise nonce_mismatch
  verify_response nonce now (some signed) = do
    throw_if (not (eqs signed.nonce nonce)) nonce_mismatch
    throw_if (not (ed_verify (canonical_record_bytes nonce signed.response) signed.signature))
        invalid_signature
    throw_if (is_stale signed.response.expires_at now) stale
    ok signed.response

  -- `acquireLease` and `renewLease`: `sent` and `received` are the readings of the monotonic clock
  -- around the exchange, `later` the one after the check. A deadline below 0 is 0, which has passed.
  unfoldable pub lease_call :
      String → ℕ → ℕ → ℕ → ℕ → ℕ → ℕ → Option Signed → Result ClientError (SignedRecord × ℕ)
  lease_call nonce now sent received later ttl safety signed = do
    r ← verify_response nonce now signed
    ok (r, later + ttl - (received - sent) - safety)
