-- ===== src/Admission/Admit/Conditions.antt =====
-- The conditions under which a brain's channel is admitted.
use enclave_gateway.Base.{
  first_ok, second_ok, >>=-eq-ok, throw_if-ok, ap, subst, sym, Result, Bool-cases, inl, inr, some,
  none, ℕ, Bool, true, false, String, ok, Option, ◌≡◌, ◌↔◌, arith, refl,
}
use enclave_gateway.Admission.Admit.{
  channel_inputs, ChannelInputs, check_valid, signature_invalid, certificate_expired,
  deployment_mismatch, debug_refused, digest_mismatch, key_mismatch, AdmissionError, strictly_equal,
  other_deployment, is_expired, canonical_cert_text, not, throw_if, Certificate, Attestation, admit,
}

check_valid-ok :
    (o : Option Attestation) (a : Attestation)
    → check_valid o ≡ ok a
    → (o ≡ some a) × (a.valid ≡ true)
check_valid-ok none a e = cc
check_valid-ok (some b) a e = elim (Bool-cases b.valid) [
  | inl h ↦ let same : b ≡ a = ground arith in (ap some same, subst (λ x. x.valid ≡ true) same h)
  | inr h ↦ absurd (ground arith)
]

throw_if-not : (b : Bool) (x : AdmissionError) → throw_if (not b) x ≡ ok tt → b ≡ true
throw_if-not b x e = ground arith

ok-injective :
    {i j : ChannelInputs} → ◌≡◌ {A = Result AdmissionError ChannelInputs} (ok i) (ok j) → i ≡ j
ok-injective e = ground arith

module _ {D : Type 0} (ed_verify : String → String → Bool) (attest : D → Option Attestation)
    (expected : String) (now : ℕ) where
  -- The conditions under which a channel is admitted, by the attestation that the document has.
  pub record Admissible (c : Certificate) (signature : String) (doc : D) (a : Attestation)
      : Type 0 where
    signed : ed_verify (canonical_cert_text c) signature ≡ true
    fresh : is_expired c.expires_at now ≡ false
    deployed : other_deployment expected c.deployment_id ≡ false
    attested : attest doc ≡ some a
    valid : a.valid ≡ true
    no_debug : a.debug ≡ false
    digest : strictly_equal a.digest c.attestation_digest ≡ true
    key : strictly_equal a.public_key c.brain_ephemeral_key ≡ true

  -- The conditions name no PCR0: it is recorded, and refuses no channel.
  pub admit_iff :
      (c : Certificate) (signature : String) (doc : D) (inputs : ChannelInputs)
      → (admit ed_verify attest expected now c signature doc ≡ ok inputs)
        ↔ ((a : Attestation) × Admissible c signature doc a × (inputs ≡ channel_inputs c a))
  unfolding admit
  admit_iff c signature doc inputs = (forth, back)
    where
      forth :
          admit ed_verify attest expected now c signature doc ≡ ok inputs
          → ((a : Attestation) × Admissible c signature doc a × (inputs ≡ channel_inputs c a))
      forth e =
          let signing =
            throw_if (not (ed_verify (canonical_cert_text c) signature)) signature_invalid in
          let freshness = throw_if (is_expired c.expires_at now) certificate_expired in
          let deployment =
            throw_if (other_deployment expected c.deployment_id) deployment_mismatch in
          let e1 = second_ok signing _ e in
          let e2 = second_ok freshness _ e1 in
          let e3 = second_ok deployment _ e2 in
          let (a, checked, e4) = >>=-eq-ok (check_valid (attest doc)) _ e3 in
          let production = throw_if a.debug debug_refused in
          let digests =
            throw_if (not (strictly_equal a.digest c.attestation_digest)) digest_mismatch in
          let keys =
            throw_if (not (strictly_equal a.public_key c.brain_ephemeral_key)) key_mismatch in
          let e5 = second_ok production _ e4 in
          let e6 = second_ok digests _ e5 in
          let e7 = second_ok keys (ok (channel_inputs c a)) e6 in
          let (attested, valid) = check_valid-ok (attest doc) a checked in
          let conditions : Admissible c signature doc a = record {
            signed = throw_if-not _ signature_invalid (first_ok signing _ e);
            fresh = throw_if-ok _ certificate_expired (first_ok freshness _ e1);
            deployed = throw_if-ok _ deployment_mismatch (first_ok deployment _ e2);
            attested = attested;
            valid = valid;
            no_debug = throw_if-ok _ debug_refused (first_ok production _ e4);
            digest = throw_if-not _ digest_mismatch (first_ok digests _ e5);
            key = throw_if-not _ key_mismatch (first_ok keys _ e6);
          } in
          (a, conditions, sym (ok-injective e7))

      back :
          ((a : Attestation) × Admissible c signature doc a × (inputs ≡ channel_inputs c a))
          → admit ed_verify attest expected now c signature doc ≡ ok inputs
      back (a, h, recorded) =
          rw
            (
              recorded, h.signed, h.fresh, h.deployed, h.attested, h.valid, h.no_debug, h.digest,
              h.key,
            )
            refl
