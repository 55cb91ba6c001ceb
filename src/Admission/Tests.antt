-- ===== src/Admission/Tests.antt =====
-- Runs of the admission, and the theorem at a concrete certificate.
use enclave_gateway.Base.{
  String-discrete, Bool, true, false, String, ok, raise, Option, some, ◌≡◌, ◌↔◌, refl, eqs,
}
use enclave_gateway.Policy.Json.{str, num, other_num, undefined, stringify}
use enclave_gateway.Admission.Admit.{
  Certificate, Attestation, ChannelInputs, admit, channel_inputs, canonical_cert_text, is_expired,
  debug_refused, certificate_expired,
}
use enclave_gateway.Admission.Admit.Conditions.{admit_iff, Admissible}

abbrev certificate : Certificate
certificate = record {
  brain_ephemeral_key = str "K";
  attestation_digest = str "D";
  deployment_id = str "prod";
  pcr0_b = undefined;
  expires_at = num 1000;
}

abbrev attestation : Attestation
attestation = record {
  valid = true;
  debug = false;
  digest = str "D";
  public_key = str "K";
  pcr0 = str "P";
}

abbrev signs : String → String → Bool
signs text signature = eqs signature "S"

-- The document "debug" is one of an enclave in debug mode.
abbrev attest : String → Option Attestation
attest doc = some (record attestation { debug = eqs doc "debug" })

abbrev inputs : ChannelInputs
inputs = channel_inputs certificate attestation

certificate_text :
    canonical_cert_text certificate
    ≡ "sessions.fyi/brain-admission/v1\n{\"brain_ephemeral_key\":\"K\",\"attestation_digest\":\"D\",\"deployment_id\":\"prod\",\"pcr0_b\":null,\"expires_at\":1000}"
unfolding canonical_cert_text stringify String-discrete
certificate_text = refl

admitted : admit signs attest "prod" 1000 certificate "S" "doc" ≡ ok inputs
unfolding admit String-discrete
admitted = refl

expired : admit signs attest "prod" 1001 certificate "S" "doc" ≡ raise certificate_expired
unfolding admit String-discrete
expired = refl

in_debug : admit signs attest "prod" 1000 certificate "S" "debug" ≡ raise debug_refused
unfolding admit String-discrete
in_debug = refl

-- A time with a fraction, one of 22 digits, and a negative one.
half_expired : is_expired (other_num "999.5") 1000 ≡ true
unfolding is_expired
half_expired = refl

half_fresh : is_expired (other_num "1000.5") 1000 ≡ false
unfolding is_expired
half_fresh = refl

far_fresh : is_expired (other_num "1.5e+21") 1000 ≡ false
unfolding is_expired
far_fresh = refl

negative_expired : is_expired (other_num "-1") 1000 ≡ true
unfolding is_expired
negative_expired = refl

infinity_fresh : is_expired (other_num "Infinity") 1000 ≡ false
unfolding is_expired
infinity_fresh = refl

admit_iff_example : (admit signs attest "prod" 1000 certificate "S" "doc" ≡ ok inputs) ↔ (
    (a : Attestation) × Admissible signs attest "prod" 1000 certificate "S" "doc" a
    × (inputs ≡ channel_inputs certificate a))
admit_iff_example = admit_iff signs attest "prod" 1000 certificate "S" "doc" inputs
