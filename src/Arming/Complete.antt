-- ===== src/Arming/Complete.antt =====
-- arm.mjs, `completeArm`. What the database, the key service and the State Authority answer is a
-- record of arguments. A key is overwritten after its use, which leaves no trace here.
use enclave_gateway.Base.{
  ℕ, Bool, List, [], ◌∷◌, String, Option, some, Result, ok, raise, ◌>>=◌, ◌+◌,
}
use enclave_gateway.Protocol.Utf8.{codes}
use enclave_gateway.Policy.Json.{Value}
use enclave_gateway.Policy.Core.{Core}
use enclave_gateway.Policy.Row.{Row, Config, Signature, payload_hash, signers_commit}
use enclave_gateway.Policy.Chain.{Anchor, PolicyAuthority, derive_authority}
use enclave_gateway.Envelope.Aad.{Binding, final}
use enclave_gateway.Envelope.Seal.{
  Sealed, Decrypted, Payload, DigestInput, seal_envelope, open_envelope, envelope_digest,
}
use enclave_gateway.Arming.Genesis.{
  Answers, ArmError, Armament, DataKey, Done, PendingRow, acquire_lease, check_owner, effect,
  failed, from_chain, from_envelope, gateway_complete_arm, load_genesis, promote_to_armed,
  registered, release_lease,
}

-- The binding of the envelope that the row has, and that of the one that takes its place.
abbrev pub old_binding : {C : Type 0} → PendingRow C → Binding
old_binding row = record {
  seal_phase = final;
  seal_generation = some row.seal_generation;
  link_id = some (codes row.id);
  tg_user_id = some (codes row.tg_user_id);
  state_id = some (codes row.state_id);
  kms_context_id = row.kms_context_id;
  signers_commit = row.signers_commit;
}

abbrev pub new_binding : {C : Type 0} → PendingRow C → List ℕ → String → Binding
new_binding row context commit = record {
  seal_phase = final;
  seal_generation = some (row.seal_generation + 1);
  link_id = some (codes row.id);
  tg_user_id = some (codes row.tg_user_id);
  state_id = some (codes row.state_id);
  kms_context_id = some context;
  signers_commit = some (codes commit);
}

-- Those of the policy verifier, of the cipher and of the digest; `texts` is the nonce, the
-- ciphertext and the tag of an envelope as they are stored.
module _ (date : Value → Option ℕ) (sha256 : String → String)
    (counts : String → String → Signature → Value → Value → Bool) (lower : String → String)
    {C : Type 0} (gcm_seal : List ℕ → List ℕ → List ℕ → Payload → C)
    (gcm_open : List ℕ → List ℕ → List ℕ → C → Decrypted) (digest : List ℕ → List ℕ)
    (texts : Sealed C → List ℕ × List ℕ × List ℕ) (now : ℕ) where
  abbrev pub attested : PendingRow C → Core → Config
  attested row core = record {
    link_id = row.id;
    tg_user_id = some row.tg_user_id;
    signers_commit = some (signers_commit date sha256 counts core.signers core.threshold);
    now_ms = now;
  }

  abbrev pub genesis_anchor : Row → Core → Anchor
  genesis_anchor genesis core = record {
    version = 1;
    hash = some (payload_hash date sha256 counts genesis.action core.body);
  }

  -- Steps 2 to 4: the signers own the genesis, and the policy verifier accepts it.
  unfoldable pub check_genesis :
      PendingRow C → Answers → Row × Core → Result ArmError PolicyAuthority
  check_genesis row a (genesis, core) = do
    signer_rows ← effect a.signers
    owned ← check_owner (registered lower signer_rows) core.signers
    from_chain (
        derive_authority date sha256 counts (attested row core) (genesis ∷ [])
          (some (genesis_anchor genesis core)))

  abbrev pub digest_input : PendingRow C → Answers → DataKey → Sealed C → DigestInput
  digest_input row a key sealed = record {
    encrypted_data_key = some key.encrypted_data_key;
    nonce = some (texts sealed).0;
    ciphertext = some (texts sealed).1;
    tag = some (texts sealed).2;
    kms_context_id = some a.context_id;
    seal_generation = some (row.seal_generation + 1);
  }

  abbrev pub armament :
      PendingRow C → Answers → Row × Core → DataKey → Sealed C → List ℕ → Armament C
  armament row a (genesis, core) key sealed hash = record {
    genesis_hash = payload_hash date sha256 counts genesis.action core.body;
    signers_commit = signers_commit date sha256 counts core.signers core.threshold;
    generation = row.seal_generation + 1;
    encrypted_data_key = key.encrypted_data_key;
    sealed = sealed;
    context_id = a.context_id;
    digest = hash;
  }

  -- Step 5: the session leaves the old envelope and goes into the new one.
  unfoldable pub reseal : PendingRow C → Answers → Row × Core → Result ArmError (Armament C)
  reseal row a (genesis, core) = do
    let commit = signers_commit date sha256 counts core.signers core.threshold
    open_key ← effect a.open_key
    opened ← from_envelope (open_envelope gcm_seal gcm_open open_key row.sealed (old_binding row))
    key ← effect a.data_key
    sealed ← from_envelope (
        seal_envelope gcm_seal gcm_open (some key.plaintext_key) (some opened.session) a.nonce
          (new_binding row a.context_id commit))
    hash ← from_envelope (envelope_digest digest (digest_input row a key sealed))
    ok (armament row a (genesis, core) key sealed hash)

  unfoldable pub prepare_arm : PendingRow C → Answers → Result ArmError (Armament C)
  prepare_arm row a = do
    rows ← effect a.envelopes
    genesis ← load_genesis rows
    authority ← check_genesis row a genesis
    reseal row a genesis

  -- Steps 6 and 7, under the lease of an epoch, which is released in each case; what the promotion
  -- and the commit answer are the last arguments.
  abbrev pub commit_arm :
      PendingRow C → Armament C → ℕ → Result String (Unit {0}) → Result String (Unit {0}) → Done C
  commit_arm row arm epoch (raise e) c = record {
    calls =
        promote_to_armed row.state_id epoch 1 arm.genesis_hash
        ∷ release_lease row.state_id epoch
        ∷ [];
    result = raise (failed e);
  }
  commit_arm row arm epoch (ok p) c = record {
    calls =
        promote_to_armed row.state_id epoch 1 arm.genesis_hash
        ∷ gateway_complete_arm row.id row.state_id row.seal_generation arm
        ∷ release_lease row.state_id epoch
        ∷ [];
    result = effect c >>= λ done. ok arm;
  }

  abbrev pub lease_and_commit : PendingRow C → Answers → Armament C → Result String ℕ → Done C
  lease_and_commit row a arm (raise e) = record {
    calls = acquire_lease row.state_id ∷ [];
    result = raise (failed e);
  }
  lease_and_commit row a arm (ok epoch) =
      let done = commit_arm row arm epoch a.promotion a.commit in
      record { calls = acquire_lease row.state_id ∷ done.calls; result = done.result }

  abbrev pub if_prepared : PendingRow C → Answers → Result ArmError (Armament C) → Done C
  if_prepared row a (raise e) = record { calls = []; result = raise e }
  if_prepared row a (ok arm) = lease_and_commit row a arm a.lease

  unfoldable pub complete_arm : PendingRow C → Answers → Done C
  complete_arm row a = if_prepared row a (prepare_arm row a)
