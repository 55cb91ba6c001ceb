-- ===== src/Envelope/Seal/Bindings.antt =====
-- The inner bindings of a payload, compared with those of the row.
use enclave_gateway.Protocol.Value.{same_refl, same-eq}
use enclave_gateway.Base.{Bool, true, ◌&&◌, ok, ap, refl, Option, some, none, List, ℕ, ◌≡◌, arith}
use enclave_gateway.Envelope.Seal.{
  text_value, absent, null_value, number_value, other, inner_payload, bound, session_text, text_of,
  text_or_null, Payload, generation_field, codes, Field, is_same,
}
use enclave_gateway.Envelope.Aad.{
  u32, aad_domain, lp_string, aad_fields, Binding, encode_aad, seal_version,
}
use enclave_gateway.Envelope.Aad.Injective.{append-eq-ok, encode_aad-fields}

is_same-eq : (f g : Field) → is_same f g ≡ true → f ≡ g
unfolding is_same
is_same-eq absent absent h = refl
is_same-eq null_value null_value h = refl
is_same-eq (text_value s) (text_value t) h = ap text_value (same-eq s t h)
is_same-eq (number_value m) (number_value n) h = ground arith
is_same-eq _ _ h = cc

is_same_refl_text : (s : List ℕ) → is_same (text_value s) (text_value s) ≡ true
unfolding is_same
is_same_refl_text s = same_refl s

text_of_refl : (v : Option (List ℕ)) → is_same (text_of v) (text_of v) ≡ true
unfolding is_same
text_of_refl none = same_refl (codes "undefined")
text_of_refl (some s) = same_refl s

text_or_null_refl : (v : Option (List ℕ)) → is_same (text_or_null v) (text_or_null v) ≡ true
unfolding is_same
text_or_null_refl none = refl
text_or_null_refl (some s) = same_refl s

number_refl : (n : ℕ) → is_same (number_value n) (number_value n) ≡ true
unfolding is_same
number_refl n = ground arith

u32-number : (g : Option ℕ) (p : List ℕ) → u32 g ≡ ok p → (n : ℕ) × (g ≡ some n)
unfolding u32
u32-number none p e = cc
u32-number (some n) p e = (n, refl)

-- The generation of a binding that has additional data is a number.
pub encode_aad-generation :
    (b : Binding) (aad : List ℕ) → encode_aad b ≡ ok aad → (n : ℕ) × (b.seal_generation ≡ some n)
unfolding aad_fields
encode_aad-generation b aad e =
    let (_, x, _, after_domain, _) =
      append-eq-ok (lp_string (some aad_domain)) _ aad (encode_aad-fields b aad e) in
    let (_, y, _, after_phase, _) = append-eq-ok (lp_string (some b.seal_phase)) _ x after_domain in
    let (p, _, number, _, _) = append-eq-ok (u32 b.seal_generation) _ y after_phase in
    u32-number b.seal_generation p number

pub bound-inner_payload :
    (b : Binding) (n : ℕ) (session : List ℕ)
    → b.seal_generation ≡ some n
    → bound b (inner_payload b session) ≡ true
unfolding bound
bound-inner_payload b n session h =
    rw
      (
        h,
        text_of_refl b.link_id,
        text_or_null_refl b.tg_user_id,
        text_of_refl b.state_id,
        is_same_refl_text b.seal_phase,
        number_refl n,
        text_of_refl b.kms_context_id,
        number_refl seal_version,
        text_of_refl b.signers_commit,
      )
      refl

session_text-eq : (f : Field) (s : List ℕ) → session_text f ≡ some s → f ≡ text_value s
session_text-eq (text_value t) s e = ground arith
session_text-eq absent s e = cc
session_text-eq null_value s e = cc
session_text-eq other s e = cc
session_text-eq (number_value n) s e = cc

each_true :
    (a b c d e f g h : Bool)
    → (a && (b && (c && (d && (e && (f && (g && h))))))) ≡ true
    → (a ≡ true)
      × (b ≡ true)
      × (c ≡ true)
      × (d ≡ true)
      × (e ≡ true)
      × (f ≡ true)
      × (g ≡ true)
      × (h ≡ true)
each_true a b c d e f g h p = ground arith

pub bound-eq :
    (b : Binding) (p : Payload) (s : List ℕ)
    → bound b p ≡ true
    → session_text p.session ≡ some s
    → p ≡ inner_payload b s
unfolding bound
bound-eq b p s h e =
    let parts : (is_same p.link_id (text_of b.link_id) ≡ true)
        × (is_same p.tg_user_id (text_or_null b.tg_user_id) ≡ true)
        × (is_same p.state_id (text_of b.state_id) ≡ true)
        × (is_same p.seal_phase (text_value b.seal_phase) ≡ true)
        × (is_same p.seal_generation (generation_field b.seal_generation) ≡ true)
        × (is_same p.kms_context_id (text_of b.kms_context_id) ≡ true)
        × (is_same p.ciphertext_version (number_value seal_version) ≡ true)
        × (is_same p.signers_commit (text_of b.signers_commit) ≡ true) =
      each_true (is_same p.link_id (text_of b.link_id))
        (is_same p.tg_user_id (text_or_null b.tg_user_id)) (is_same p.state_id (text_of b.state_id))
        (is_same p.seal_phase (text_value b.seal_phase))
        (is_same p.seal_generation (generation_field b.seal_generation))
        (is_same p.kms_context_id (text_of b.kms_context_id))
        (is_same p.ciphertext_version (number_value seal_version))
        (is_same p.signers_commit (text_of b.signers_commit)) h in
    λ i. record {
      link_id = is_same-eq p.link_id (text_of b.link_id) parts.0 i;
      tg_user_id = is_same-eq p.tg_user_id (text_or_null b.tg_user_id) parts.1 i;
      state_id = is_same-eq p.state_id (text_of b.state_id) parts.2 i;
      seal_phase = is_same-eq p.seal_phase (text_value b.seal_phase) parts.3 i;
      seal_generation = is_same-eq p.seal_generation (generation_field b.seal_generation) parts.4 i;
      kms_context_id = is_same-eq p.kms_context_id (text_of b.kms_context_id) parts.5 i;
      ciphertext_version = is_same-eq p.ciphertext_version (number_value seal_version) parts.6 i;
      session = session_text-eq p.session s e i;
      signers_commit = is_same-eq p.signers_commit (text_of b.signers_commit) parts.7 i;
    }
