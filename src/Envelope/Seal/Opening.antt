-- ===== src/Envelope/Seal/Opening.antt =====
-- What opens, and as what: an envelope that was sealed, and the bindings of one that opens.
use enclave_gateway.Base.{
  subst, sym, inl, inr, Result, true, Result-cases, ok, ◌>>=◌, >>=-eq-ok, ap, refl, some, List, ℕ,
  false, ◌≡◌, arith, ◌∙◌,
}
use enclave_gateway.Envelope.Aad.{EnvelopeError, Binding, encode_aad}
use enclave_gateway.Envelope.Aad.Injective.{encode_aad-injective, IsBinding}
use enclave_gateway.Envelope.Seal.{
  invalid, refused, unparsed, opened, check_payload, from_decrypted, inner_payload, bound,
  session_text, text_of, text_or_null, Payload, Sealed, Decrypted, seal_envelope, open_envelope,
  is_empty_text, Session,
}
use enclave_gateway.Envelope.Seal.Bindings.{bound-eq, bound-inner_payload, encode_aad-generation}

check_inner_payload :
    (b : Binding) (n : ℕ) (s : List ℕ)
    → b.seal_generation ≡ some n
    → is_empty_text (some s) ≡ false
    → check_payload b (inner_payload b s)
      ≡ ok (record {
        session = s;
        tg_user_id = text_or_null b.tg_user_id;
        signers_commit = text_of b.signers_commit;
      })
unfolding check_payload
check_inner_payload b n s g there = rw (bound-inner_payload b n s g, there) refl

from_decrypted-ok : (d : Decrypted) (p : Payload) → from_decrypted d ≡ ok p → d ≡ opened p
from_decrypted-ok (opened q) p e = ground arith
from_decrypted-ok invalid p e = cc
from_decrypted-ok refused p e = cc
from_decrypted-ok unparsed p e = cc

check_payload-ok :
    (b : Binding) (p : Payload) (r : Session)
    → check_payload b p ≡ ok r
    → (bound b p ≡ true)
      × (session_text p.session ≡ some r.session)
      × (is_empty_text (some r.session) ≡ false)
unfolding check_payload
check_payload-ok b p r e = ground arith

module _ {C : Type 0} (gcm_seal : List ℕ → List ℕ → List ℕ → Payload → C)
    (gcm_open : List ℕ → List ℕ → List ℕ → C → Decrypted) where
  -- The cipher gives back what it has sealed under the same key, nonce and additional data.
  abbrev pub Deciphers : Type 0
  Deciphers =
      (key nonce aad : List ℕ) (p : Payload)
      → gcm_open key nonce aad (gcm_seal key nonce aad p) ≡ opened p

  -- What was sealed under other additional data does not verify.
  abbrev pub Authenticates : Type 0
  Authenticates =
      (key nonce aad other_aad : List ℕ) (p q : Payload)
      → gcm_open key nonce other_aad (gcm_seal key nonce aad p) ≡ opened q
      → other_aad ≡ aad

  seal_envelope-ok :
      (data_key nonce session : List ℕ) (b : Binding) (envelope : Sealed C)
      → seal_envelope gcm_seal gcm_open (some data_key) (some session) nonce b ≡ ok envelope
      → (aad : List ℕ) × (encode_aad b ≡ ok aad)
        × (record {
          nonce = nonce;
          ciphertext = gcm_seal data_key nonce aad (inner_payload b session);
        }
            ≡ envelope)
        × (is_empty_text (some session) ≡ false)
  unfolding seal_envelope
  seal_envelope-ok data_key nonce session b envelope e = elim (Result-cases (encode_aad b)) [
    | inl (aad, h) ↦ (aad, h, ground arith, ground arith)
    | inr (x, h) ↦ absurd (ground arith)
  ]

  pub open_envelope-seal_envelope :
      (data_key nonce session : List ℕ) (b : Binding) (envelope : Sealed C)
      → Deciphers
      → seal_envelope gcm_seal gcm_open (some data_key) (some session) nonce b ≡ ok envelope
      → open_envelope gcm_seal gcm_open data_key envelope b
        ≡ ok (record {
          session = session;
          tg_user_id = text_or_null b.tg_user_id;
          signers_commit = text_of b.signers_commit;
        })
  unfolding open_envelope
  open_envelope-seal_envelope data_key nonce session b envelope deciphers e =
      let (aad, framed, sealed, there) = seal_envelope-ok data_key nonce session b envelope e in
      let (n, numbered) = encode_aad-generation b aad framed in
      rw (← sealed, framed, deciphers data_key nonce aad (inner_payload b session))
        (check_inner_payload b n session numbered there)

  pub open_envelope_sound :
      (data_key : List ℕ) (envelope : Sealed C) (b : Binding) (r : Session)
      → open_envelope gcm_seal gcm_open data_key envelope b ≡ ok r
      → (aad : List ℕ) × (encode_aad b ≡ ok aad)
        × (gcm_open data_key envelope.nonce aad envelope.ciphertext
            ≡ opened (inner_payload b r.session))
        × (is_empty_text (some r.session) ≡ false)
  unfolding open_envelope
  open_envelope_sound data_key envelope b r e =
      let decrypted : List ℕ → Result EnvelopeError Payload =
        λ aad. from_decrypted (gcm_open data_key envelope.nonce aad envelope.ciphertext) in
      let (aad, framed, e1) =
        >>=-eq-ok (encode_aad b) (λ aad. decrypted aad >>= check_payload b) e in
      let (p, plain, checked) = >>=-eq-ok (decrypted aad) (check_payload b) e1 in
      let (bindings, session, there) = check_payload-ok b p r checked in
      let whole : p ≡ inner_payload b r.session = bound-eq b p r.session bindings session in
      (aad, framed, from_decrypted-ok _ p plain ∙ ap opened whole, there)

  -- An envelope opens for the binding that it was sealed for, and for no other.
  pub open_envelope-binding :
      (data_key nonce session : List ℕ) (a b : Binding) (envelope : Sealed C) (r : Session)
      → Authenticates
      → IsBinding a
      → IsBinding b
      → seal_envelope gcm_seal gcm_open (some data_key) (some session) nonce a ≡ ok envelope
      → open_envelope gcm_seal gcm_open data_key envelope b ≡ ok r
      → a ≡ b
  open_envelope-binding data_key nonce session a b envelope r authentic ha hb e f =
      let (aad, framed, sealed, _) = seal_envelope-ok data_key nonce session a envelope e in
      let (other_aad, other_framed, plain, _) = open_envelope_sound data_key envelope b r f in
      let same_aad : other_aad ≡ aad =
        authentic data_key nonce aad other_aad (inner_payload a session) (inner_payload b r.session)
          (subst
            (λ (c : Sealed C).
              gcm_open data_key c.nonce other_aad c.ciphertext ≡ opened (inner_payload b r.session))
            (sym sealed) plain) in
      encode_aad-injective a b aad ha hb framed (other_framed ∙ ap ok same_aad)
