-- ===== src/StateAuthority/Deadline.antt =====
-- state-authority.mjs, `StateAuthorityClient`: accepted responses, and the local deadline of a lease.
use enclave_gateway.Base.{
  subst, ◌-◌, ◌+◌, ◌≤◌, arith, ◌≡◌, false, true, ok, some, none, refl, Option, String, Bool, ℕ, eqs,
  eqs_iff, Result, >>=-eq-ok,
}
use enclave_gateway.StateAuthority.Client.{
  SignedRecord, Signed, ClientError, canonical_record_bytes, is_stale, verify_response, lease_call,
}

module _ (ed_verify : String → String → Bool) where
  -- A response to the request with the nonce, signed over the record, and not stale.
  pub record Authentic (nonce : String) (now : ℕ) (answer : Option Signed) (r : SignedRecord)
      : Type 0 where
    pub signed : Signed
    pub given : answer ≡ some signed
    pub response : signed.response ≡ r
    pub bound : signed.nonce ≡ nonce
    pub valid : ed_verify (canonical_record_bytes nonce r) signed.signature ≡ true
    pub fresh : is_stale r.expires_at now ≡ false

  taken :
      (x r : SignedRecord) (d deadline : ℕ) (m : Result ClientError (SignedRecord × ℕ))
      → m ≡ ok (x, d)
      → m ≡ ok (r, deadline)
      → (x ≡ r) × (d ≡ deadline)
  taken x r d deadline m p e = ground arith

  verify_steps :
      (nonce : String) (now : ℕ) (s : Signed) (r : SignedRecord)
      → verify_response ed_verify nonce now (some s) ≡ ok r
      → (s.response ≡ r)
        × (eqs s.nonce nonce ≡ true)
        × (ed_verify (canonical_record_bytes nonce s.response) s.signature ≡ true)
        × (is_stale s.response.expires_at now ≡ false)
  unfolding verify_response
  verify_steps nonce now s r e = ground arith

  verify_response-Authentic :
      (nonce : String) (now : ℕ) (answer : Option Signed) (r : SignedRecord)
      → verify_response ed_verify nonce now answer ≡ ok r
      → Authentic nonce now answer r
  verify_response-Authentic nonce now none r e = unfold verify_response in ground arith
  verify_response-Authentic nonce now (some s) r e =
      let (same, bound, valid, fresh) = verify_steps nonce now s r e in
      record {
        signed = s;
        given = refl;
        response = same;
        bound = (eqs_iff s.nonce nonce).0 bound;
        valid =
            subst (λ x. ed_verify (canonical_record_bytes nonce x) s.signature ≡ true) same valid;
        fresh = subst (λ x. is_stale x.expires_at now ≡ false) same fresh;
      }

  -- A lease that the client takes rests on an authentic response, and its local deadline is not after
  -- the lease's end: if the authority granted it at a time, by the client's clock, after the request was sent, and the check of
  -- the response took no longer than the safety margin, the deadline is at most that time with the
  -- lease's duration.
  pub lease_call-Authentic :
      (nonce : String) (now sent received later ttl safety : ℕ) (answer : Option Signed)
      (r : SignedRecord) (deadline granted : ℕ)
      → lease_call ed_verify nonce now sent received later ttl safety answer ≡ ok (r, deadline)
      → sent ≤ received
      → sent ≤ granted
      → later ≤ received + safety
      → Authentic nonce now answer r × (deadline ≤ granted + ttl)
  unfolding lease_call
  lease_call-Authentic nonce now sent received later ttl safety answer r deadline granted e h1 h2
        h3 =
      let (x, checked, same) =
        >>=-eq-ok (verify_response ed_verify nonce now answer)
          (λ x. ok (x, later + ttl - (received - sent) - safety)) e in
      let (record_same, deadline_same) =
        taken x r (later + ttl - (received - sent) - safety) deadline _ refl same in
      (
        subst (Authentic nonce now answer) record_same
            (verify_response-Authentic nonce now answer x checked),
        omega (arith, deadline_same, h1, h2, h3),
      )
