-- ===== src/Envelope/Seal.antt =====
-- kms-envelope-v3.mjs, `sealEnvelopeV3`, `openEnvelopeV3` and `envelopeDigest`. AES-256-GCM, with
-- the JSON text of the payload as its plaintext, is a parameter, and so is SHA-256.
use enclave_gateway.Base.{
  ◌↔◌, ◌≢◌, ◌%◌, ◌/◌, ◌*◌, ◌-◌, ◌+◌, ◌>>◌, ◌∙◌, ◌⊎◌, ◌≤◌, ◌<◌, ◌||◌, suc, zero, inr, inl, arith,
  ◌≡◌, refl, ℕ, Bool, true, false, List, [], ◌∷◌, ◌++◌, ltb, length, Result, ok, raise, Option,
  none, some, ◌>>=◌, throw_if, not, ◌==◌, ◌&&◌, any, if◌then◌else◌,
}
use enclave_gateway.Protocol.Utf8.{codes, utf8_bytes}
use enclave_gateway.Protocol.Value.{same}
use enclave_gateway.Policy.Json.{decimal}
use enclave_gateway.Envelope.Aad.{
  EnvelopeError, bad_data_key, missing_session, cipher_invalid, unauthentic, not_json,
  binding_mismatch, no_session, digest_missing, digest_separator, digest_generation, Binding,
  encode_aad, seal_version, key_bytes, is_blank,
}
pub mod Bindings
pub mod Opening

-- A property of the payload: absent, null, a text, a number, or another value.
pub data Field : Type 0 where
  absent null_value other : Field
  text_value : List ℕ → Field
  number_value : ℕ → Field

pub record Payload : Type 0 where
  pub link_id : Field
  pub tg_user_id : Field
  pub state_id : Field
  pub seal_phase : Field
  pub seal_generation : Field
  pub kms_context_id : Field
  pub ciphertext_version : Field
  pub session : Field
  pub signers_commit : Field

-- `v === null || v === undefined ? null : String(v)`
abbrev pub text_or_null : Option (List ℕ) → Field
text_or_null none = null_value
text_or_null (some s) = text_value s

-- `String(v)`
abbrev pub text_of : Option (List ℕ) → Field
text_of none = text_value (codes "undefined")
text_of (some s) = text_value s

abbrev pub generation_field : Option ℕ → Field
generation_field none = other
generation_field (some n) = number_value n

-- `got === want`; two values that are neither texts, numbers, null nor absent are not one.
unfoldable pub is_same : Field → Field → Bool
is_same absent absent = true
is_same null_value null_value = true
is_same (text_value s) (text_value t) = same s t
is_same (number_value m) (number_value n) = m == n
is_same _ _ = false

-- The stored envelope: the nonce, and the ciphertext with its tag.
pub record Sealed (C : Type 0) : Type 0 where
  pub nonce : List ℕ
  pub ciphertext : C

-- What decryption comes to: a key, nonce or tag that the cipher does not take, a tag that does not
-- verify, a plaintext that is no JSON, or the payload.
pub data Decrypted : Type 0 where
  invalid refused unparsed : Decrypted
  opened : Payload → Decrypted

pub record Session : Type 0 where
  pub session : List ℕ
  pub tg_user_id : Field
  pub signers_commit : Field

abbrev pub inner_payload : Binding → List ℕ → Payload
inner_payload b session = record {
  link_id = text_of b.link_id;
  tg_user_id = text_or_null b.tg_user_id;
  state_id = text_of b.state_id;
  seal_phase = text_value b.seal_phase;
  seal_generation = generation_field b.seal_generation;
  kms_context_id = text_of b.kms_context_id;
  ciphertext_version = number_value seal_version;
  session = text_value session;
  signers_commit = text_of b.signers_commit;
}

-- `typeof v !== "string" || v.length === 0`
abbrev pub is_empty_text : Option (List ℕ) → Bool
is_empty_text none = true
is_empty_text (some []) = true
is_empty_text (some (c ∷ s)) = false

abbrev pub or_nothing : Option (List ℕ) → List ℕ
or_nothing none = []
or_nothing (some s) = s

-- Whether every inner binding is the one that the row asks for.
unfoldable pub bound : Binding → Payload → Bool
unfolding is_same
bound b p =
    is_same p.link_id (text_of b.link_id)
    && (is_same p.tg_user_id (text_or_null b.tg_user_id)
        && (is_same p.state_id (text_of b.state_id)
            && (is_same p.seal_phase (text_value b.seal_phase)
                && (is_same p.seal_generation (generation_field b.seal_generation)
                    && (is_same p.kms_context_id (text_of b.kms_context_id)
                        && (is_same p.ciphertext_version (number_value seal_version)
                            && is_same p.signers_commit (text_of b.signers_commit)))))))

abbrev pub session_text : Field → Option (List ℕ)
session_text (text_value s) = some s
session_text _ = none

-- The checks on a decrypted payload.
unfoldable pub check_payload : Binding → Payload → Result EnvelopeError Session
unfolding bound
check_payload b p = do
  bindings ← throw_if (not (bound b p)) binding_mismatch
  there ← throw_if (is_empty_text (session_text p.session)) no_session
  ok (record {
    session = or_nothing (session_text p.session);
    tg_user_id = p.tg_user_id;
    signers_commit = p.signers_commit;
  })

abbrev pub from_decrypted : Decrypted → Result EnvelopeError Payload
from_decrypted invalid = raise cipher_invalid
from_decrypted refused = raise unauthentic
from_decrypted unparsed = raise not_json
from_decrypted (opened p) = ok p

-- The cipher takes a key, a nonce, the additional data and the plaintext, or what that became.
module _ {C : Type 0} (gcm_seal : List ℕ → List ℕ → List ℕ → Payload → C)
    (gcm_open : List ℕ → List ℕ → List ℕ → C → Decrypted) where
  -- The nonce is the argument that `randomBytes` gives.
  unfoldable pub seal_envelope :
      Option (List ℕ) → Option (List ℕ) → List ℕ → Binding → Result EnvelopeError (Sealed C)
  seal_envelope data_key session nonce b = do
    keyed ← throw_if (not (length (or_nothing data_key) == key_bytes)) bad_data_key
    there ← throw_if (is_empty_text session) missing_session
    aad ← encode_aad b
    ok (record {
      nonce = nonce;
      ciphertext = gcm_seal (or_nothing data_key) nonce aad (inner_payload b (or_nothing session));
    })

  unfoldable pub open_envelope : List ℕ → Sealed C → Binding → Result EnvelopeError Session
  open_envelope data_key envelope b = do
    aad ← encode_aad b
    payload ← from_decrypted (gcm_open data_key envelope.nonce aad envelope.ciphertext)
    check_payload b payload

pub record DigestInput : Type 0 where
  pub encrypted_data_key : Option (List ℕ)
  pub nonce : Option (List ℕ)
  pub ciphertext : Option (List ℕ)
  pub tag : Option (List ℕ)
  pub kms_context_id : Option (List ℕ)
  pub seal_generation : Option ℕ

abbrev pub separator : ℕ
separator = 124

-- A field of the digest is a text that is not empty and has no separator.
unfoldable pub digest_field : Option (List ℕ) → Result EnvelopeError (List ℕ)
digest_field v = do
  there ← throw_if (is_empty_text v) digest_missing
  plain ← throw_if (any (λ c. c == separator) (or_nothing v)) digest_separator
  ok (or_nothing v)

abbrev pub digest_generation_text : Option ℕ → Result EnvelopeError (List ℕ)
digest_generation_text none = raise digest_generation
digest_generation_text (some n) =
    throw_if (ltb n 1) digest_generation >>= λ _. ok (codes (decimal n))

-- `[…].join("|")`
unfoldable pub join_fields : List (List ℕ) → List ℕ
join_fields [] = []
join_fields (s ∷ []) = s
join_fields (s ∷ t ∷ rest) = s ++ (separator ∷ join_fields (t ∷ rest))

-- The text that is hashed.
unfoldable pub digest_text : DigestInput → Result EnvelopeError (List ℕ)
unfolding digest_field join_fields
digest_text d = do
  key ← digest_field d.encrypted_data_key
  nonce ← digest_field d.nonce
  ciphertext ← digest_field d.ciphertext
  tag ← digest_field d.tag
  context ← digest_field d.kms_context_id
  generation ← digest_generation_text d.seal_generation
  ok (join_fields (key ∷ nonce ∷ ciphertext ∷ tag ∷ context ∷ generation ∷ []))

unfoldable pub envelope_digest : (List ℕ → List ℕ) → DigestInput → Result EnvelopeError (List ℕ)
unfolding digest_text
envelope_digest sha256 d = digest_text d >>= λ t. ok (sha256 (utf8_bytes t))
