-- ===== src/Policy/Accepts.antt =====
-- policy-verify.mjs, `verifyEnvelopeRow`: what an accepted row has been checked for.
use enclave_gateway.Policy.Json.{Value}
use enclave_gateway.Policy.Core.{items, Core, id_of, distinct}
use enclave_gateway.Policy.Action.{Action, action_of, arm, protect_reset, DeltaError}
use enclave_gateway.Policy.Delta.{verify_delta}
use enclave_gateway.Policy.Row.{
  check_issued, given, hash_mismatch, malformed_core, RowError, verify_core, verify_envelope_row,
  check_unsigned, check_signatures, check_anchor, check_signed, judges, check_transition,
  verify_envelope_sigs, quorum_of, payload_hash, signers_commit, from_delta, Signature, Row, Config,
  check_shape, threshold_of, next_version,
}
use enclave_gateway.Base.{
  first_ok, second_ok, refl, same?, not, throw_if, ◌&&◌, raise, ◌∷◌, [], refl, Result, List, none,
  Bool, map, length, String, Option, ◌≤◌, arith, ◌≡◌, true, ok, some, ℕ,
}

-- The core by itself: the bindings, the version and the sizes.
pub record WellFormed (cfg : Config) (prev : Option Core) (row : Row) (core : Core) : Type 0 where
  pub link : core.link_id ≡ cfg.link_id
  pub user : cfg.tg_user_id ≡ some core.tg_user_id
  pub version : core.policy_version ≡ next_version prev
  pub row_version : row.version ≡ core.policy_version
  pub threshold_pos : 1 ≤ threshold_of core.threshold
  pub threshold_le : threshold_of core.threshold ≤ length (items core.signers)
  pub signers_le : length (items core.signers) ≤ 10
  pub different : distinct (map id_of (items core.signers)) ≡ true

check_shape-WellFormed :
    (date : Value → Option ℕ) (sha256 : String → String)
    (counts : String → String → Signature → Value → Value → Bool) (cfg : Config)
    (prev : Option Core) (row : Row) (core : Core)
    → check_shape date sha256 counts cfg row prev core ≡ ok tt
    → WellFormed cfg prev row core
unfolding check_shape
check_shape-WellFormed date sha256 counts cfg prev row core e = ground arith

module _ (date : Value → Option ℕ) (sha256 : String → String)
    (counts : String → String → Signature → Value → Value → Bool) (cfg : Config) where
  abbrev pub signed_by : Row → Core → Core → List Value
  signed_by row core by =
      verify_envelope_sigs date sha256 counts row.action
        (payload_hash date sha256 counts row.action core.body) row.sigs (items by.signers)
        core.issued_at

  -- On what ground a core follows the accepted one: the anchor, whose signer set the seal commits to
  -- and which it signs itself; a change that the preceding signer set signs by its quorum, and that
  -- is no more than its action; or an unsigned one that only closes the reset window.
  pub data Authorised (row : Row) (core : Core) : Option Core → Type 0 where
    anchored :
        action_of row.action ≡ arm
        → cfg.signers_commit ≡ some (signers_commit date sha256 counts core.signers core.threshold)
        → quorum_of date sha256 counts core ≤ length (signed_by row core core)
        → Authorised row core none
    signed :
        (prev : Core)
        → verify_delta date (action_of row.action) prev core ≡ ok tt
        → quorum_of date sha256 counts prev ≤ length (signed_by row core prev)
        → Authorised row core (some prev)
    protective :
        (prev : Core)
        → action_of row.action ≡ protect_reset
        → verify_delta date protect_reset prev core ≡ ok tt
        → Authorised row core (some prev)

  pub record Accepted (prev : Option Core) (row : Row) (core : Core) : Type 0 where
    pub at : row.core ≡ some core
    pub well_formed : WellFormed cfg prev row core
    pub authorised : Authorised row core prev

  check_anchor_sound :
      (action : Action) (core : Core)
      → check_anchor date sha256 counts cfg action none core ≡ ok tt
      → (action ≡ arm)
        × (cfg.signers_commit
            ≡ some (signers_commit date sha256 counts core.signers core.threshold))
  unfolding check_anchor
  check_anchor_sound action core e = ground arith

  check_signed_sound :
      (row : Row) (ph : String) (prev : Option Core) (core : Core)
      → check_signed date sha256 counts row ph prev core ≡ ok tt
      → (check_transition date sha256 counts (action_of row.action) prev core ≡ ok tt)
        × (quorum_of date sha256 counts (judges date sha256 counts prev core)
            ≤ length (
                verify_envelope_sigs date sha256 counts row.action ph row.sigs
                  (items (judges date sha256 counts prev core).signers)
                  core.issued_at))
  unfolding check_signed
  check_signed_sound row ph prev core e = ground arith

  from_delta_sound : (r : Result DeltaError (Unit {0})) → from_delta r ≡ ok tt → r ≡ ok tt
  from_delta_sound r e = ground arith

  check_unsigned_sound :
      (action : Action) (prev : Core) (core : Core)
      → check_unsigned date sha256 counts action (some prev) core ≡ ok tt
      → (action ≡ protect_reset) × (verify_delta date protect_reset prev core ≡ ok tt)
  unfolding check_unsigned
  check_unsigned_sound action prev core e = ground arith

  raise-NotOk : (x : RowError) (r : Result RowError (Unit {0})) → r ≡ raise x → ¬ (r ≡ ok tt)
  raise-NotOk x r q e = cc

  check_unsigned-Anchored :
      (action : Action) (core : Core)
      → ¬ (check_unsigned date sha256 counts action none core ≡ ok tt)
  unfolding check_unsigned
  check_unsigned-Anchored action core e = cc

  signatures_sound :
      (row : Row) (prev : Option Core) (core : Core) (sigs : List (Option Signature))
      → sigs ≡ row.sigs
      → check_anchor date sha256 counts cfg (action_of row.action) prev core ≡ ok tt
      → check_signatures date sha256 counts row
          (payload_hash date sha256 counts row.action core.body)
          prev
          core
          sigs
        ≡ ok tt
      → Authorised row core prev
  signatures_sound row none core [] q a e =
      elim (check_unsigned-Anchored (action_of row.action) core e) [ ]
  signatures_sound row (some prev) core [] q a e =
      let (only, delta) = check_unsigned_sound (action_of row.action) prev core e in
      protective prev only delta
  signatures_sound row none core (s ∷ ss) q a e =
      let (is_arm, committed) = check_anchor_sound (action_of row.action) core a in
      let (_, quorum) = check_signed_sound row _ none core e in anchored is_arm committed quorum
  signatures_sound row (some prev) core (s ∷ ss) q a e =
      let (delta, quorum) = check_signed_sound row _ (some prev) core e in
      signed prev (from_delta_sound _ delta) quorum

  verify_core-Accepted :
      (row : Row) (prev : Option Core) (core : Core)
      → row.core ≡ some core
      → verify_core date sha256 counts cfg row prev core ≡ ok tt
      → Accepted prev row core
  unfolding verify_core payload_hash
  verify_core-Accepted row prev core at e =
      let e1 = second_ok (check_shape date sha256 counts cfg row prev core) _ e in
      let e2 = second_ok (check_issued date sha256 counts cfg prev core) _ e1 in
      let e3 =
        second_ok
          (throw_if
            (given row.core_hash
              && not (same? row.core_hash (payload_hash date sha256 counts row.action core.body)))
            hash_mismatch)
          _ e2 in
      record {
        at = at;
        well_formed = check_shape-WellFormed date sha256 counts cfg prev row core (first_ok _ _ e);
        authorised =
            signatures_sound row prev core row.sigs refl (first_ok _ _ e3) (second_ok _ _ e3);
      }

  abbrev pub verify_at : Row → Option Core → Option Core → Result RowError (Unit {0})
  verify_at row prev none = raise malformed_core
  verify_at row prev (some core) = verify_core date sha256 counts cfg row prev core

  at-Accepted :
      (row : Row) (prev : Option Core) (at : Option Core)
      → row.core ≡ at
      → verify_at row prev at ≡ ok tt
      → (core : Core) × Accepted prev row core
  at-Accepted row prev none q e =
      elim (raise-NotOk malformed_core (raise malformed_core) refl e) [ ]
  at-Accepted row prev (some core) q e = (core, verify_core-Accepted row prev core q e)

  -- A row that is accepted on top of a core has a core that follows it: bound to the link and the
  -- account, its version the next one, with one to ten signers of different ids and a threshold that
  -- they can reach, and authorised in one of three ways. It is an `arm` anchor of the sealed signer
  -- set, signed by its own quorum; or its change is its action's and signed by the quorum of the
  -- preceding core's signers; or it is the `protect-reset` change, which may go unsigned.
  pub verify_envelope_row-Accepted :
      (row : Row) (prev : Option Core)
      → verify_envelope_row date sha256 counts cfg row prev ≡ ok tt
      → (core : Core) × Accepted prev row core
  unfolding verify_envelope_row
  verify_envelope_row-Accepted row prev e = at-Accepted row prev row.core refl e
