-- ===== src/Envelope/Aad.antt =====
-- kms-envelope-v3.mjs, `lpString`, `u32` and `encodeAad`: the additional data that authenticates
-- the binding of an envelope. A field has gone through `String(…)`; `none` stands for null and
-- undefined, and in the generation for what is no natural number.
use enclave_gateway.Base.{
  ◌↔◌, ◌≢◌, ◌%◌, ◌/◌, ◌*◌, ◌-◌, ◌>>◌, ◌∙◌, ◌⊎◌, ◌≤◌, ◌<◌, suc, zero, ◌==◌, inr, inl, arith, ◌≡◌,
  refl, ℕ, ◌^◌, ◌+◌, Bool, true, false, List, [], ◌∷◌, ◌++◌, ltb, leb, length, Result, ok, raise,
  Option, none, some, ◌>>=◌, throw_if, not, ◌&&◌, ◌||◌, if◌then◌else◌,
}
use enclave_gateway.Protocol.Utf8.{codes, utf8_bytes}
use enclave_gateway.Protocol.Value.{same}
use enclave_gateway.Protocol.Encode.{be_bytes}
pub mod Fields
pub mod Injective

pub data EnvelopeError : Type 0 where
  field_too_long not_u32 bad_phase recovery_needs_null final_needs_user missing_field :
      EnvelopeError
  bad_data_key missing_session : EnvelopeError
  cipher_invalid unauthentic not_json binding_mismatch no_session : EnvelopeError
  digest_missing digest_separator digest_generation : EnvelopeError

abbrev pub seal_version : ℕ
seal_version = 3

abbrev pub key_bytes : ℕ
key_bytes = 32

abbrev pub null_field : ℕ
null_field = 0xffffffff

abbrev pub aad_domain : List ℕ
aad_domain = codes "sessions.fyi/kms-session/v3"

abbrev pub recovery : List ℕ
recovery = codes "RECOVERY"

abbrev pub final : List ℕ
final = codes "FINAL"

-- What an envelope is bound to.
pub record Binding : Type 0 where
  pub seal_phase : List ℕ
  pub seal_generation : Option ℕ
  pub link_id : Option (List ℕ)
  pub tg_user_id : Option (List ℕ)
  pub state_id : Option (List ℕ)
  pub kms_context_id : Option (List ℕ)
  pub signers_commit : Option (List ℕ)

unfoldable pub lp_string : Option (List ℕ) → Result EnvelopeError (List ℕ)
lp_string none = ok (be_bytes 4 null_field)
lp_string (some s) = do
  fits ← throw_if (leb null_field (length (utf8_bytes s))) field_too_long
  ok (be_bytes 4 (length (utf8_bytes s)) ++ utf8_bytes s)

unfoldable pub u32 : Option ℕ → Result EnvelopeError (List ℕ)
u32 none = raise not_u32
u32 (some n) = do fits ← throw_if (leb null_field n) not_u32; ok (be_bytes 4 n)

abbrev pub is_some {ℓ} : {A : Type ℓ} → Option A → Bool
is_some none = false
is_some (some a) = true

-- `v === null || v === undefined || String(v) === ""`
abbrev pub is_blank : Option (List ℕ) → Bool
is_blank none = true
is_blank (some []) = true
is_blank (some (c ∷ s)) = false

abbrev pub append : {E : Type 0} → Result E (List ℕ) → Result E (List ℕ) → Result E (List ℕ)
append first rest = first >>= λ a. rest >>= λ b. ok (a ++ b)

-- The fields in their order, each with its length before it.
unfoldable pub aad_fields : Binding → Result EnvelopeError (List ℕ)
unfolding lp_string u32
aad_fields b = append (lp_string (some aad_domain)) (
    append (lp_string (some b.seal_phase)) (
      append (u32 b.seal_generation) (
        append (lp_string b.link_id) (
          append (lp_string b.tg_user_id) (
            append (lp_string b.state_id)
              (append (lp_string b.kms_context_id) (lp_string b.signers_commit)))))))

unfoldable pub encode_aad : Binding → Result EnvelopeError (List ℕ)
encode_aad b = do
  phase ← throw_if (not (same b.seal_phase recovery) && not (same b.seal_phase final)) bad_phase
  recovered ← throw_if (same b.seal_phase recovery && is_some b.tg_user_id) recovery_needs_null
  finished ← throw_if (same b.seal_phase final && is_blank b.tg_user_id) final_needs_user
  link ← throw_if (is_blank b.link_id) missing_field
  state ← throw_if (is_blank b.state_id) missing_field
  context ← throw_if (is_blank b.kms_context_id) missing_field
  commit ← throw_if (is_blank b.signers_commit) missing_field
  aad_fields b
