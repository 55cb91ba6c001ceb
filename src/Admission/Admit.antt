-- ===== src/Admission/Admit.antt =====
-- brain-admission.mjs, `canonicalCertBytes`, `admit` and `channelTranscriptDigest`. The signature
-- check under the pinned key and the verifier of attestation documents are parameters; a field of
-- the certificate or of the attestation is a JSON value.
use enclave_gateway.Base.{
  ◌↔◌, ◌≢◌, ◌%◌, ◌/◌, ◌>>◌, ◌∙◌, ◌⊎◌, ◌≤◌, ◌<◌, ◌||◌, ◌++◌, suc, zero, inr, inl, arith, ◌∷◌, [],
  refl, ◌≡◌, ℕ, Bool, true, false, String, eqs, Result, ok, raise, Option, none, some, ◌>>=◌,
  throw_if, not, ◌&&◌, ◌==◌, ltb, leb, if◌then◌else◌, ◌+◌, ◌*◌, ◌-◌,
}
use Prim.Native.Char.{code}
use Prim.Native.String.{◌++◌ as concat}
use enclave_gateway.Policy.Json.{
  Value, undefined, null, bool, num, other_num, str, arr, obj, end, field, nil, cons, stringify,
}
pub mod Conditions

pub data AdmissionError : Type 0 where
  signature_invalid certificate_expired deployment_mismatch attestation_invalid : AdmissionError
  debug_refused digest_mismatch key_mismatch : AdmissionError

pub record Certificate : Type 0 where
  pub brain_ephemeral_key : Value
  pub attestation_digest : Value
  pub deployment_id : Value
  pub pcr0_b : Value
  pub expires_at : Value

-- What the verifier of attestation documents answers.
pub record Attestation : Type 0 where
  pub valid : Bool
  pub debug : Bool
  pub digest : Value
  pub public_key : Value
  pub pcr0 : Value

pub record ChannelInputs : Type 0 where
  pub brain_ephemeral_key : Value
  pub attestation_digest : Value
  pub deployment_id : Value
  pub pcr0_b : Value

abbrev pub is_nullish : Value → Bool
is_nullish undefined = true
is_nullish null = true
is_nullish _ = false

-- `a ?? b`
abbrev pub or_else : Value → Value → Value
or_else a b = if is_nullish a then b else a

-- `a === b`, where no array or object is the other's.
unfoldable pub strictly_equal : Value → Value → Bool
strictly_equal undefined undefined = true
strictly_equal null null = true
strictly_equal (bool true) (bool true) = true
strictly_equal (bool false) (bool false) = true
strictly_equal (num m) (num n) = m == n
strictly_equal (other_num s) (other_num t) = eqs s t
strictly_equal (str s) (str t) = eqs s t
strictly_equal _ _ = false

-- The text that the admission service signs.
unfoldable pub canonical_cert_text : Certificate → String
canonical_cert_text c = concat "sessions.fyi/brain-admission/v1\n" (
    stringify (
      obj (
        field "brain_ephemeral_key" c.brain_ephemeral_key (
          field "attestation_digest" c.attestation_digest (
            field "deployment_id" c.deployment_id
              (field "pcr0_b" (or_else c.pcr0_b null) (field "expires_at" c.expires_at end)))))))

-- Of the text of a number that is no natural number: the number before the point, and whether
-- it has the exponent of a number of 21 digits or more, or of one below 1.
unfoldable pub whole_part : ℕ → String → ℕ
whole_part acc String.[] = acc
whole_part acc (String.◌∷◌ c s) =
    let more = whole_part (acc * 10 + (code c - 48)) s in
    if leb 48 (code c) && leb (code c) 57 then more else acc

unfoldable pub contains_char : ℕ → String → Bool
contains_char n String.[] = false
contains_char n (String.◌∷◌ c s) = if code c == n then true else contains_char n s

abbrev pub begins_with : ℕ → String → Bool
begins_with n String.[] = false
begins_with n (String.◌∷◌ c s) = code c == n

-- `x < now` for such a number and a time in milliseconds: a sign, the text `Infinity`, an exponent
-- `e+` or `e-`, or the part before the point decides.
unfoldable pub text_below : String → ℕ → Bool
unfolding whole_part contains_char
text_below t now =
    if begins_with 45 t
    then true
    else if begins_with 73 t
    then false
    else if contains_char 43 t
    then false
    else if contains_char 45 t
    then ltb 0 now
    else ltb (whole_part 0 t) now

-- `typeof e !== "number" || e < now()`
unfoldable pub is_expired : Value → ℕ → Bool
unfolding text_below
is_expired (num n) now = ltb n now
is_expired (other_num t) now = text_below t now
is_expired _ now = true

-- `expected && id !== expected`, where an empty expectation is none.
unfoldable pub other_deployment : String → Value → Bool
unfolding strictly_equal
other_deployment expected id = not (eqs expected "") && not (strictly_equal id (str expected))

abbrev pub check_valid : Option Attestation → Result AdmissionError Attestation
check_valid none = raise attestation_invalid
check_valid (some a) = if a.valid then ok a else raise attestation_invalid

-- `channelInputs`; the PCR0 is recorded.
abbrev pub channel_inputs : Certificate → Attestation → ChannelInputs
channel_inputs c a = record {
  brain_ephemeral_key = c.brain_ephemeral_key;
  attestation_digest = c.attestation_digest;
  deployment_id = c.deployment_id;
  pcr0_b = or_else a.pcr0 (or_else c.pcr0_b null);
}

-- The signature is checked over the text of the certificate; the document is of the type `D`.
module _ {D : Type 0} (ed_verify : String → String → Bool) (attest : D → Option Attestation)
    (expected : String) (now : ℕ) where
  unfoldable pub admit : Certificate → String → D → Result AdmissionError ChannelInputs
  unfolding canonical_cert_text is_expired other_deployment strictly_equal
  admit c signature doc = do
    signed ← throw_if (not (ed_verify (canonical_cert_text c) signature)) signature_invalid
    fresh ← throw_if (is_expired c.expires_at now) certificate_expired
    deployed ← throw_if (other_deployment expected c.deployment_id) deployment_mismatch
    a ← check_valid (attest doc)
    sealed ← throw_if a.debug debug_refused
    digest ← throw_if (not (strictly_equal a.digest c.attestation_digest)) digest_mismatch
    key ← throw_if (not (strictly_equal a.public_key c.brain_ephemeral_key)) key_mismatch
    ok (channel_inputs c a)

-- The text under SHA-256 of the channel's transcript.
unfoldable pub channel_transcript_text :
    String → String → String → String → String → String → String
channel_transcript_text gateway_key brain_key gateway_digest brain_digest certificate_digest
      deployment =
    stringify (
      arr (
        cons (str "sessions.fyi/brain-channel/v1") (
          cons (str gateway_key) (
            cons (str brain_key) (
              cons (str gateway_digest) (
                cons (str brain_digest)
                  (cons (str certificate_digest) (cons (str deployment) nil))))))))
