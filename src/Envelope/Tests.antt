-- ===== src/Envelope/Tests.antt =====
-- Runs of the envelope over an ideal cipher, which keeps what it was given and gives the payload
-- back for the same key, nonce and additional data, and the theorems at concrete inputs.
use enclave_gateway.Protocol.Encode.{be_bytes}
use enclave_gateway.Protocol.Utf8.{utf8_bytes, char_bytes, codes}
use enclave_gateway.Envelope.Aad.{
  aad_fields, encode_aad, digest_separator, unauthentic, Binding, final, recovery, final_needs_user,
  recovery_needs_null,
}
use enclave_gateway.Policy.Json.{decimal}
use enclave_gateway.Base.{
  ℕ, List, [], ◌∷◌, ◌++◌, ok, raise, none, some, if◌then◌else◌, ◌&&◌, refl, arith, ◌≡◌,
}
use enclave_gateway.Protocol.Value.{same, same-eq, same_refl}
use enclave_gateway.Envelope.Aad.Injective.{IsBinding, encode_aad-injective}
use enclave_gateway.Envelope.Seal.{
  Payload, Sealed, Decrypted, opened, refused, Session, DigestInput, inner_payload, text_value,
  seal_envelope, open_envelope, digest_text,
}
use enclave_gateway.Envelope.Seal.Opening.{
  Deciphers, Authenticates, open_envelope-seal_envelope, open_envelope-binding,
}

record Ideal : Type 0 where
  key : List ℕ
  nonce : List ℕ
  aad : List ℕ
  payload : Payload

abbrev ideal_seal : List ℕ → List ℕ → List ℕ → Payload → Ideal
ideal_seal k n a p = record { key = k; nonce = n; aad = a; payload = p }

abbrev ideal_open : List ℕ → List ℕ → List ℕ → Ideal → Decrypted
ideal_open k n a c =
    if same k c.key && (same n c.nonce && same a c.aad) then opened c.payload else refused

ideal-Deciphers : Deciphers ideal_seal ideal_open
ideal-Deciphers k n a p = rw (same_refl k, same_refl n, same_refl a) refl

ideal-Authenticates : Authenticates ideal_seal ideal_open
ideal-Authenticates k n a b p q e = same-eq b a (ground arith)

abbrev data_key : List ℕ
data_key =
    0 ∷ 1 ∷ 2 ∷ 3 ∷ 4 ∷ 5 ∷ 6 ∷ 7 ∷ 8 ∷ 9 ∷ 10 ∷ 11 ∷ 12 ∷ 13 ∷ 14 ∷ 15 ∷ 16 ∷ 17 ∷ 18 ∷ 19 ∷ 20
    ∷ 21 ∷ 22 ∷ 23 ∷ 24 ∷ 25 ∷ 26 ∷ 27 ∷ 28 ∷ 29 ∷ 30 ∷ 31 ∷ []

abbrev bound_row : Binding
bound_row = record {
  seal_phase = final;
  seal_generation = some 2;
  link_id = some (codes "L1");
  tg_user_id = some (codes "77");
  state_id = some (codes "S1");
  kms_context_id = some (codes "K1");
  signers_commit = some (codes "C1");
}

bound_row-IsBinding : IsBinding bound_row
bound_row-IsBinding = record {
  phase = ground arith;
  link = ground arith;
  user = ground arith;
  state = ground arith;
  context = ground arith;
  commit = ground arith;
}

abbrev row_aad : List ℕ
row_aad =
    be_bytes 4 27
    ++ (codes "sessions.fyi/kms-session/v3"
        ++ (be_bytes 4 5
            ++ (codes "FINAL"
                ++ (be_bytes 4 2
                    ++ (be_bytes 4 2
                        ++ (codes "L1"
                            ++ (be_bytes 4 2
                                ++ (codes "77"
                                    ++ (be_bytes 4 2
                                        ++ (codes "S1"
                                            ++ (be_bytes 4 2
                                                ++ (codes "K1"
                                                    ++ (be_bytes 4 2 ++ codes "C1")))))))))))))

abbrev sealed : Sealed Ideal
sealed = record {
  nonce = 9 ∷ [];
  ciphertext = ideal_seal data_key (9 ∷ []) row_aad (inner_payload bound_row (codes "secret"));
}

row_aad_made : encode_aad bound_row ≡ ok row_aad
unfolding encode_aad same aad_fields utf8_bytes char_bytes be_bytes
row_aad_made = refl

sealed_made :
    seal_envelope ideal_seal ideal_open (some data_key) (some (codes "secret")) (9 ∷ []) bound_row
    ≡ ok sealed
unfolding seal_envelope encode_aad same aad_fields utf8_bytes char_bytes be_bytes
sealed_made = refl

encode_aad-injective_example : bound_row ≡ bound_row
encode_aad-injective_example =
    encode_aad-injective bound_row bound_row row_aad bound_row-IsBinding bound_row-IsBinding
      row_aad_made row_aad_made

abbrev opened_session : Session
opened_session = record {
  session = codes "secret";
  tg_user_id = text_value (codes "77");
  signers_commit = text_value (codes "C1");
}

open_envelope-seal_envelope_example :
    open_envelope ideal_seal ideal_open data_key sealed bound_row ≡ ok opened_session
open_envelope-seal_envelope_example =
    open_envelope-seal_envelope ideal_seal ideal_open data_key (9 ∷ []) (codes "secret") bound_row
      sealed ideal-Deciphers sealed_made

open_envelope-binding_example : bound_row ≡ bound_row
open_envelope-binding_example =
    open_envelope-binding ideal_seal ideal_open data_key (9 ∷ []) (codes "secret") bound_row
      bound_row sealed opened_session ideal-Authenticates bound_row-IsBinding bound_row-IsBinding
      sealed_made open_envelope-seal_envelope_example

-- Another generation does not open it.
other_generation :
    open_envelope ideal_seal ideal_open data_key sealed
      (record bound_row { seal_generation = some 3 })
    ≡ raise unauthentic
unfolding open_envelope encode_aad same aad_fields utf8_bytes char_bytes be_bytes
other_generation = refl

final_without_user : encode_aad (record bound_row { tg_user_id = none }) ≡ raise final_needs_user
unfolding encode_aad same
final_without_user = refl

recovery_with_user :
    encode_aad (record bound_row { seal_phase = recovery }) ≡ raise recovery_needs_null
unfolding encode_aad same
recovery_with_user = refl

abbrev digest_input : DigestInput
digest_input = record {
  encrypted_data_key = some (codes "k");
  nonce = some (codes "n");
  ciphertext = some (codes "c");
  tag = some (codes "t");
  kms_context_id = some (codes "x");
  seal_generation = some 12;
}

digest_joined : digest_text digest_input ≡ ok (codes "k|n|c|t|x|12")
unfolding digest_text decimal
digest_joined = refl

digest_separated :
    digest_text (record digest_input { tag = some (codes "t|x") }) ≡ raise digest_separator
unfolding digest_text
digest_separated = refl
