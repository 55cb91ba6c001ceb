-- ===== src/Arming/Tests.antt =====
-- A run of the arming, over an ideal cipher, and the theorem at it. Times are numbers, the digest of
-- a text is the text, and a signature counts where its body is the payload's hash.
use enclave_gateway.Arming.Sweep.{Linked, Swept, sweep_links, sweep_pending_arms}
use enclave_gateway.Arming.Genesis.{
  failed, genesis_of, check_owner, registered, SignerRow, PendingRow, Answers, Armament, Call,
  acquire_lease, promote_to_armed, gateway_complete_arm, release_lease,
}
use enclave_gateway.Arming.Complete.{prepare_arm, check_genesis, reseal, complete_arm}
use enclave_gateway.Base.{
  String-discrete, map, ℕ, List, [], ◌∷◌, some, ok, raise, ◌≡◌, refl, ◌⊎◌, All, if◌then◌else◌,
}
use enclave_gateway.Policy.Json.{
  canonical_eq, canon, stringify, decimal, decimal_from, digit_text, escape, escape_all,
  insert_field, insert_value, payload_text, quote, str, obj, field, end,
}
use enclave_gateway.Policy.Chain.{
  derive_authority, walk_all, sort_rows, walk, authority_of, insert_row, localities,
}
use enclave_gateway.Policy.Row.{
  verify_envelope_row, verify_core, check_shape, by_id, check_anchor, check_issued, check_signed,
  count_sig, count_sigs, payload_hash, signers_commit, verify_envelope_sigs,
}
use enclave_gateway.Envelope.Aad.{aad_fields, lp_string, u32, encode_aad, Binding}
use enclave_gateway.Envelope.Seal.{
  bound, check_payload, digest_field, digest_text, envelope_digest, is_same, join_fields,
  open_envelope, seal_envelope, Sealed, Payload, Decrypted, opened, refused, inner_payload,
}
use enclave_gateway.Policy.Action.{action_of}
use enclave_gateway.Protocol.Encode.{be_bytes}
use enclave_gateway.Protocol.Utf8.{char_bytes, utf8_bytes, codes}
use enclave_gateway.Protocol.Value.{same}
use enclave_gateway.Policy.Samples.{anchor_row, at_number, as_text, signs_hash}
use enclave_gateway.Arming.Warranted.{Warranted, Fits, complete_arm-Warranted}

-- A cipher whose ciphertext is the payload with the additional data.
abbrev keep : List ℕ → List ℕ → List ℕ → Payload → List ℕ × Payload
keep k n a p = (a, p)

abbrev take_out : List ℕ → List ℕ → List ℕ → List ℕ × Payload → Decrypted
take_out k n a c = if same a (c.0) then opened (c.1) else refused

abbrev plain : List ℕ → List ℕ
plain s = s

abbrev stored : Sealed (List ℕ × Payload) → List ℕ × List ℕ × List ℕ
stored e = (codes "n", codes "c", codes "t")

abbrev signer : SignerRow
signer = record {
  id = "a";
  kind = str "passkey";
  credential = obj (field "id" (str "c") (field "publicKey" (str "p") end));
}

abbrev pending : Binding
pending = record {
  seal_phase = codes "FINAL";
  seal_generation = some 2;
  link_id = some (codes "L");
  tg_user_id = some (codes "U");
  state_id = some (codes "S");
  kms_context_id = some (codes "K");
  signers_commit = some (codes "O");
}

abbrev additional : List ℕ
additional = elim (encode_aad pending) [ ok a ↦ a | raise e ↦ [] ]

abbrev row : PendingRow (List ℕ × Payload)
row = record {
  id = "L";
  state_id = "S";
  tg_user_id = "U";
  signers_commit = some (codes "O");
  seal_generation = 2;
  kms_context_id = some (codes "K");
  sealed = record {
    nonce = 9 ∷ [];
    ciphertext = (additional, inner_payload pending (codes "secret"));
  };
}

abbrev new_key : List ℕ
new_key =
    0 ∷ 1 ∷ 2 ∷ 3 ∷ 4 ∷ 5 ∷ 6 ∷ 7 ∷ 8 ∷ 9 ∷ 10 ∷ 11 ∷ 12 ∷ 13 ∷ 14 ∷ 15 ∷ 16 ∷ 17 ∷ 18 ∷ 19 ∷ 20
    ∷ 21 ∷ 22 ∷ 23 ∷ 24 ∷ 25 ∷ 26 ∷ 27 ∷ 28 ∷ 29 ∷ 30 ∷ 31 ∷ []

abbrev answers : Answers
answers = record {
  envelopes = ok (anchor_row ∷ []);
  signers = ok (signer ∷ []);
  open_key = ok (1 ∷ []);
  data_key = ok (record { plaintext_key = new_key; encrypted_data_key = codes "E" });
  context_id = codes "K2";
  nonce = 8 ∷ [];
  lease = ok 5;
  promotion = ok tt;
  commit = ok tt;
}

-- What was called, by number.
abbrev kind_of : Call (List ℕ × Payload) → ℕ
kind_of (acquire_lease s) = 1
kind_of (promote_to_armed s e v h) = 2
kind_of (gateway_complete_arm l s g a) = 3
kind_of (release_lease s e) = 4

-- A link whose look at the genesis fails, one that is armed, and one whose lease is not granted.
abbrev links : List (Linked (List ℕ × Payload))
links =
    record { row = row; look = raise "down"; answers = answers }
    ∷ record { row = row; look = ok (anchor_row ∷ []); answers = answers }
    ∷ record {
      row = row;
      look = ok (anchor_row ∷ []);
      answers = record answers { lease = raise "held" };
    }
    ∷ []

abbrev swept : Swept (List ℕ × Payload)
swept =
    sweep_pending_arms at_number as_text signs_hash as_text keep take_out plain stored 1000
      (ok links)

armed :
    (map kind_of swept.calls ≡ 1 ∷ 2 ∷ 3 ∷ 4 ∷ 1 ∷ [])
    × (swept.completed ≡ 1)
    × (swept.skipped ≡ 1)
    × (swept.failures ≡ ("L", failed "held") ∷ [])
unfolding sweep_links sweep_pending_arms prepare_arm genesis_of check_genesis check_owner registered
    String-discrete canonical_eq canon stringify derive_authority walk_all sort_rows walk
    verify_envelope_row verify_core check_shape reseal aad_fields lp_string u32 bound check_payload
    digest_field digest_text envelope_digest is_same join_fields open_envelope seal_envelope
    action_of authority_of insert_row localities decimal decimal_from digit_text escape escape_all
    insert_field insert_value payload_text quote by_id check_anchor check_issued check_signed
    count_sig count_sigs payload_hash signers_commit verify_envelope_sigs be_bytes char_bytes
    utf8_bytes same encode_aad complete_arm
armed = (refl, refl, refl, refl)

complete_arm-Warranted_example :
    ((complete_arm at_number as_text signs_hash as_text keep take_out plain stored 1000 row
        answers).calls
      ≡ [])
    ⊎ ((arm : Armament (List ℕ × Payload)) × Warranted at_number as_text signs_hash as_text keep
          take_out plain stored 1000 row answers arm
        × All
            (Fits at_number as_text signs_hash as_text keep take_out plain stored 1000 row answers
              arm)
            (complete_arm at_number as_text signs_hash as_text keep take_out plain stored 1000 row
              answers).calls)
complete_arm-Warranted_example =
    complete_arm-Warranted at_number as_text signs_hash as_text keep take_out plain stored 1000 row
      answers
