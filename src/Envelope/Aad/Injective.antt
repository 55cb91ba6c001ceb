-- ===== src/Envelope/Aad/Injective.antt =====
-- The additional data tells any two bindings apart.
use enclave_gateway.Base.{
  raise, Result, Option, some, ok, arith, [], refl, ℕ, List, ◌++◌, All, ap, sym, ◌∙◌, ◌≡◌,
}
use enclave_gateway.Envelope.Aad.{
  aad_fields, encode_aad, append, Binding, EnvelopeError, aad_domain, lp_string, u32,
}
use enclave_gateway.Protocol.Utf8.Characters.{IsScalar}
use enclave_gateway.Envelope.Aad.Fields.{IsField, lp_string-injective, u32-injective}

pub append-eq-ok :
    (m r : Result EnvelopeError (List ℕ)) (z : List ℕ)
    → append m r ≡ ok z
    → (p : List ℕ) × (x : List ℕ) × (m ≡ ok p) × (r ≡ ok x) × (p ++ x ≡ z)
append-eq-ok (ok p) (ok x) z e = (p, x, refl, refl, ground arith)
append-eq-ok (ok p) (raise h) z e = cc
append-eq-ok (raise h) r z e = cc

-- The first fields of two equal encodings agree, and so do the encodings of the others.
abbrev Agree :
    {A : Type 0} → A → A → Result EnvelopeError (List ℕ) → Result EnvelopeError (List ℕ) → Type 0
Agree a b r s = (a ≡ b) × (w : List ℕ) × (r ≡ ok w) × (s ≡ ok w)

module _ (r s : Result EnvelopeError (List ℕ)) (z : List ℕ) where
  text_agrees :
      (a b : Option (List ℕ))
      → IsField a
      → IsField b
      → append (lp_string a) r ≡ ok z
      → append (lp_string b) s ≡ ok z
      → Agree a b r s
  text_agrees a b ha hb ea eb =
      let (p, x, mp, rx, px) = append-eq-ok (lp_string a) r z ea in
      let (q, y, mq, sy, qy) = append-eq-ok (lp_string b) s z eb in
      let (same_field, rests) = lp_string-injective a b p q x y ha hb mp mq (px ∙ sym qy) in
      (same_field, y, rx ∙ ap ok rests, sy)

  number_agrees :
      (a b : Option ℕ) → append (u32 a) r ≡ ok z → append (u32 b) s ≡ ok z → Agree a b r s
  number_agrees a b ea eb =
      let (p, x, mp, rx, px) = append-eq-ok (u32 a) r z ea in
      let (q, y, mq, sy, qy) = append-eq-ok (u32 b) s z eb in
      let (same_field, rests) = u32-injective a b p q x y mp mq (px ∙ sym qy) in
      (same_field, y, rx ∙ ap ok rests, sy)

last_agrees :
    (a b : Option (List ℕ)) (z : List ℕ)
    → IsField a
    → IsField b
    → lp_string a ≡ ok z
    → lp_string b ≡ ok z
    → a ≡ b
last_agrees a b z ha hb ea eb = (lp_string-injective a b z z [] [] ha hb ea eb refl).0

-- Each text of a binding is made of Unicode scalar values.
pub record IsBinding (b : Binding) : Type 0 where
  pub phase : All IsScalar b.seal_phase
  pub link : IsField b.link_id
  pub user : IsField b.tg_user_id
  pub state : IsField b.state_id
  pub context : IsField b.kms_context_id
  pub commit : IsField b.signers_commit

pub encode_aad-fields : (b : Binding) (z : List ℕ) → encode_aad b ≡ ok z → aad_fields b ≡ ok z
unfolding encode_aad
encode_aad-fields b z e = ground arith

domain_field : IsField (some aad_domain)
domain_field = ground arith

pub encode_aad-injective :
    (a b : Binding) (z : List ℕ)
    → IsBinding a
    → IsBinding b
    → encode_aad a ≡ ok z
    → encode_aad b ≡ ok z
    → a ≡ b
unfolding aad_fields
encode_aad-injective a b z ha hb ea eb =
    let d =
      text_agrees _ _ z (some aad_domain) (some aad_domain) domain_field domain_field
        (encode_aad-fields a z ea) (encode_aad-fields b z eb) in
    let phase =
      text_agrees _ _ _ (some a.seal_phase) (some b.seal_phase) ha.phase hb.phase d.2 d.3 in
    let generation = number_agrees _ _ _ a.seal_generation b.seal_generation phase.2 phase.3 in
    let link = text_agrees _ _ _ a.link_id b.link_id ha.link hb.link generation.2 generation.3 in
    let user = text_agrees _ _ _ a.tg_user_id b.tg_user_id ha.user hb.user link.2 link.3 in
    let state = text_agrees _ _ _ a.state_id b.state_id ha.state hb.state user.2 user.3 in
    let context =
      text_agrees _ _ _ a.kms_context_id b.kms_context_id ha.context hb.context state.2 state.3 in
    let commit =
      last_agrees a.signers_commit b.signers_commit _ ha.commit hb.commit context.2 context.3 in
    let same_phase : a.seal_phase ≡ b.seal_phase = ground (arith, phase.0) in
    λ i. record {
      seal_phase = same_phase i;
      seal_generation = generation.0 i;
      link_id = link.0 i;
      tg_user_id = user.0 i;
      state_id = state.0 i;
      kms_context_id = context.0 i;
      signers_commit = commit i;
    }
