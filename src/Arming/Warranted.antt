-- ===== src/Arming/Warranted.antt =====
-- What stands behind each call that arms an account.
use mathlib.Core.List.{Memᴰ}
use enclave_gateway.Base.{
  ◌⊎◌, subst, ap, sym, ℕ, Bool, true, false, List, [], ◌∷◌, String, Option, some, Result, ok, raise,
  All, ◌≡◌, refl, ◌+◌, >>=-eq-ok, Result-cases, inl, inr,
}
use enclave_gateway.Policy.Json.{Value, arr, canonical_eq}
use enclave_gateway.Policy.Core.{Core}
use enclave_gateway.Policy.Row.{Row, Signature, payload_hash, signers_commit}
use enclave_gateway.Policy.Chain.{PolicyAuthority}
use enclave_gateway.Policy.Derive.{Derived, derive_authority-Derived}
use enclave_gateway.Envelope.Seal.{
  Sealed, Decrypted, Payload, Session, seal_envelope, open_envelope, envelope_digest,
}
use enclave_gateway.Arming.Genesis.{
  SignerRow, PendingRow, DataKey, Answers, Armament, Call, acquire_lease, promote_to_armed,
  gateway_complete_arm, release_lease, effect, from_envelope, genesis_of, load_genesis, registered,
  is_nil, check_owner,
}
use enclave_gateway.Arming.Complete.{
  armament, old_binding, new_binding, attested, genesis_anchor, check_genesis, digest_input, reseal,
  prepare_arm, commit_arm, lease_and_commit, complete_arm,
}
use enclave_gateway.Arming.Loaded.{
  ok_inj, effect_sound, from_chain_sound, from_envelope_sound, genesis_of_sound, from_genesis_sound,
  check_owner_sound,
}

module _ (date : Value → Option ℕ) (sha256 : String → String)
    (counts : String → String → Signature → Value → Value → Bool) (lower : String → String)
    {C : Type 0} (gcm_seal : List ℕ → List ℕ → List ℕ → Payload → C)
    (gcm_open : List ℕ → List ℕ → List ℕ → C → Decrypted) (digest : List ℕ → List ℕ)
    (texts : Sealed C → List ℕ × List ℕ × List ℕ) (now : ℕ) (row : PendingRow C) (a : Answers) where
  -- The genesis: a row of version 1, owned by the registered signers, that the policy accepts.
  pub record Genesis (genesis : Row) (core : Core) : Type 0 where
    pub rows : List Row
    pub loaded : a.envelopes ≡ ok rows
    pub found : Memᴰ genesis rows
    pub first : genesis.version ≡ 1
    pub has_core : genesis.core ≡ some core
    pub signer_rows : List SignerRow
    pub asked : a.signers ≡ ok signer_rows
    pub some_signers : is_nil (registered lower signer_rows) ≡ false
    pub owned : canonical_eq (arr (registered lower signer_rows)) core.signers ≡ true
    pub authority : PolicyAuthority
    pub derived :
        Derived date sha256 counts
          (attested date sha256 counts lower gcm_seal gcm_open digest texts now row core)
          (genesis ∷ [])
          (some (
            genesis_anchor date sha256 counts lower gcm_seal gcm_open digest texts now genesis
              core))
          authority

  -- The seal: the session that the old envelope holds, sealed for the signers of the genesis.
  pub record Resealed (genesis : Row) (core : Core) (arm : Armament C) : Type 0 where
    pub open_key : List ℕ
    pub session : Session
    pub opened : open_envelope gcm_seal gcm_open open_key row.sealed (old_binding row) ≡ ok session
    pub key : DataKey
    pub sealed :
        seal_envelope gcm_seal gcm_open
          (some key.plaintext_key)
          (some session.session)
          a.nonce
          (new_binding row a.context_id arm.signers_commit)
        ≡ ok arm.sealed
    pub committed :
        arm.signers_commit ≡ signers_commit date sha256 counts core.signers core.threshold
    pub head : arm.genesis_hash ≡ payload_hash date sha256 counts genesis.action core.body
    pub next : arm.generation ≡ row.seal_generation + 1

  pub record Warranted (arm : Armament C) : Type 0 where
    pub genesis : Row
    pub core : Core
    pub grounds : Genesis genesis core
    pub seal : Resealed genesis core arm

  -- What a call may name.
  abbrev pub Fits : Armament C → Call C → Type 0
  Fits arm (acquire_lease state) = state ≡ row.state_id
  Fits arm (promote_to_armed state epoch version hash) =
      (state ≡ row.state_id) × (version ≡ 1) × (hash ≡ arm.genesis_hash)
  Fits arm (gateway_complete_arm link state old new) =
      (link ≡ row.id) × (state ≡ row.state_id) × (old ≡ row.seal_generation) × (new ≡ arm)
  Fits arm (release_lease state epoch) = state ≡ row.state_id

  reseal-Resealed :
      (genesis : Row) (core : Core) (arm : Armament C)
      → reseal date sha256 counts lower gcm_seal gcm_open digest texts now row a (genesis, core)
        ≡ ok arm
      → Resealed genesis core arm
  unfolding reseal
  reseal-Resealed genesis core arm e =
      let (open_key, _, e) = >>=-eq-ok (effect a.open_key) _ e in
      let (session, o, e) =
        >>=-eq-ok
          (from_envelope (open_envelope gcm_seal gcm_open open_key row.sealed (old_binding row))) _
          e in
      let (key, _, e) = >>=-eq-ok (effect a.data_key) _ e in
      let (sealed, s, e) =
        >>=-eq-ok
          (from_envelope (
            seal_envelope gcm_seal gcm_open (some key.plaintext_key) (some session.session) a.nonce
              (new_binding row a.context_id
                (signers_commit date sha256 counts core.signers core.threshold))))
          _ e in
      let (hash, _, e) =
        >>=-eq-ok
          (from_envelope (
            envelope_digest digest (
              digest_input date sha256 counts lower gcm_seal gcm_open digest texts now row a key
                sealed)))
          _ e in
      let whole =
        ok_inj
          (armament date sha256 counts lower gcm_seal gcm_open digest texts now row a
            (genesis, core) key sealed hash)
          arm e in
      record {
        open_key = open_key;
        session = session;
        opened = from_envelope_sound _ session o;
        key = key;
        sealed =
            subst
              (λ x.
                seal_envelope gcm_seal gcm_open (some key.plaintext_key) (some session.session)
                  a.nonce (new_binding row a.context_id x.signers_commit)
                ≡ ok x.sealed)
              whole (from_envelope_sound _ sealed s);
        committed = sym (ap (λ x. x.signers_commit) whole);
        head = sym (ap (λ x. x.genesis_hash) whole);
        next = sym (ap (λ x. x.generation) whole);
      }

  check_genesis-Genesis :
      (rows : List Row) (genesis : Row) (core : Core) (authority : PolicyAuthority)
      → a.envelopes ≡ ok rows
      → load_genesis rows ≡ ok (genesis, core)
      → check_genesis date sha256 counts lower gcm_seal gcm_open digest texts now row a
          (genesis, core)
        ≡ ok authority
      → Genesis genesis core
  unfolding check_genesis
  check_genesis-Genesis rows genesis core authority loaded l e =
      let (listed, has_core) = from_genesis_sound (genesis_of rows) genesis core l in
      let (found, first) = genesis_of_sound rows genesis listed in
      let (signer_rows, q, e) = >>=-eq-ok (effect a.signers) _ e in
      let (owner, o, e) = >>=-eq-ok (check_owner (registered lower signer_rows) core.signers) _ e in
      let (there, owned) = check_owner_sound (registered lower signer_rows) core.signers o in
      record {
        rows = rows;
        loaded = loaded;
        found = found;
        first = first;
        has_core = has_core;
        signer_rows = signer_rows;
        asked = effect_sound a.signers signer_rows q;
        some_signers = there;
        owned = owned;
        authority = authority;
        derived =
            derive_authority-Derived date sha256 counts _ (genesis ∷ []) _ authority
              (from_chain_sound _ authority e);
      }

  prepare_arm-Warranted :
      (arm : Armament C)
      → prepare_arm date sha256 counts lower gcm_seal gcm_open digest texts now row a ≡ ok arm
      → Warranted arm
  unfolding prepare_arm
  prepare_arm-Warranted arm e =
      let (rows, r, e) = >>=-eq-ok (effect a.envelopes) _ e in
      let (genesis, g, e) = >>=-eq-ok (load_genesis rows) _ e in
      let (authority, c, e) =
        >>=-eq-ok
          (check_genesis date sha256 counts lower gcm_seal gcm_open digest texts now row a genesis)
          _ e in
      record {
        genesis = genesis.0;
        core = genesis.1;
        grounds =
            check_genesis-Genesis rows (genesis.0) (genesis.1) authority
              (effect_sound a.envelopes rows r) g c;
        seal = reseal-Resealed (genesis.0) (genesis.1) arm e;
      }

  commit_arm-Fits :
      (arm : Armament C) (epoch : ℕ) (p c : Result String (Unit {0}))
      → All
          (Fits arm)
          (commit_arm date sha256 counts lower gcm_seal gcm_open digest texts now row arm epoch p
            c).calls
  commit_arm-Fits arm epoch (raise e) c = ((refl, refl, refl), (refl, tt))
  commit_arm-Fits arm epoch (ok p) c = ((refl, refl, refl), ((refl, refl, refl, refl), (refl, tt)))

  lease_and_commit-Fits :
      (arm : Armament C) (lease : Result String ℕ)
      → All
          (Fits arm)
          (lease_and_commit date sha256 counts lower gcm_seal gcm_open digest texts now row a arm
            lease).calls
  lease_and_commit-Fits arm (raise e) = (refl, tt)
  lease_and_commit-Fits arm (ok epoch) = (refl, commit_arm-Fits arm epoch a.promotion a.commit)

  -- completeArm calls nothing that changes state, or there is an armament that the following stands
  -- behind, and each call names nothing else than the row's link and state, version 1 and that
  -- armament: the genesis is a loaded row of version 1; its signers are the registered ones, and
  -- there are some; the chain of that row alone derives an authority at that head; the row's
  -- envelope opens for the row's binding; and its session is sealed under the next generation and
  -- the commitment to the genesis' signers and threshold.
  pub complete_arm-Warranted :
      ((complete_arm date sha256 counts lower gcm_seal gcm_open digest texts now row a).calls ≡ [])
      ⊎ ((arm : Armament C) × Warranted arm
          × All
              (Fits arm)
              (complete_arm date sha256 counts lower gcm_seal gcm_open digest texts now row
                a).calls)
  unfolding complete_arm
  complete_arm-Warranted =
      elim (Result-cases
        (prepare_arm date sha256 counts lower gcm_seal gcm_open digest texts now row a)) [
          | inl (arm, e) ↦
              inr (arm, prepare_arm-Warranted arm e, rw e (lease_and_commit-Fits arm a.lease))
          | inr (x, e) ↦ inl (rw e refl)
        ]
