-- ===== src/Policy/Row.antt =====
-- policy-verify.mjs, `verifyEnvelopeSigs` and `verifyEnvelopeRow`: one row on top of the accepted one.
-- Parameters: `date` parses a time (`none` for NaN), `sha256` is the digest of a text in base64url,
-- and `counts` says whether the check of a signature of one of the three kinds returns true for the
-- action, the payload's hash, the signature, its signer and the core's time of issue (a check that
-- throws counts as false).
use enclave_gateway.Base.{
  map, any, eqs, same?, min, ltb, not, throw_if, take, length, Result, List, Option, leb,
  if◌then◌else◌, ◌*◌, ◌+◌, ◌>>◌, ◌||◌, ◌&&◌, ◌==◌, false, true, raise, ok, ◌∷◌, [], some, none, ℕ,
  String, Bool,
}
use enclave_gateway.Policy.Json.{Value, obj, field, end, num, payload_text}
use enclave_gateway.Policy.Core.{
  Core, elements, items, is_nullish, same_value, text_is, id_of, has_id, distinct, property,
}
use enclave_gateway.Policy.Action.{Action, action_of, DeltaError, arm, protect_reset}
use enclave_gateway.Policy.Delta.{verify_delta}

pub record Signature : Type 0 where
  pub signer_id : Value
  pub kind : Value
  pub body : Value

-- `core_hash` is null or empty where it is not given; a signature may be null.
pub record Row : Type 0 where
  pub version : ℕ
  pub action : String
  pub core : Option Core
  pub core_hash : Option String
  pub sigs : List (Option Signature)

-- `cfg`, with its clock read
pub record Config : Type 0 where
  pub link_id : String
  pub tg_user_id : Option String
  pub signers_commit : Option String
  pub now_ms : ℕ

pub data RowError : Type 0 where
  malformed_core unknown_format link_mismatch identity_mismatch version_gap version_mismatch :
      RowError
  malformed_whitelist malformed_threshold malformed_signers threshold_exceeds duplicate_ids :
      RowError
  type_error malformed_issued_at issued_in_future issued_regressed hash_mismatch : RowError
  anchor_not_arm arm_not_anchor no_commitment commitment_mismatch unsigned_anchor : RowError
  unsigned_action no_quorum : RowError
  bad_delta : DeltaError → RowError

abbrev pub issued_future_skew_ms : ℕ
issued_future_skew_ms = 60 * 60 * 1000

-- `byId.get(id)`: the last signer with the id
unfoldable pub by_id : List Value → Value → Option Value
by_id [] id = none
by_id (s ∷ ss) id = elim (by_id ss id) [
  | some t ↦ some t
  | none ↦ if same_value id (id_of s) then some s else none
]

-- One of the three kinds that are checked.
abbrev pub is_checked_kind : Value → Bool
is_checked_kind kind = text_is "passkey" kind || text_is "wallet" kind || text_is "google" kind

-- A string that is neither null nor empty.
abbrev pub given : Option String → Bool
given none = false
given (some s) = not (eqs s "")

abbrev pub is_arm : Action → Bool
is_arm arm = true
is_arm _ = false

abbrev pub is_protect_reset : Action → Bool
is_protect_reset protect_reset = true
is_protect_reset _ = false

abbrev pub from_delta : Result DeltaError (Unit {0}) → Result RowError (Unit {0})
from_delta (ok _) = ok tt
from_delta (raise e) = raise (bad_delta e)

-- A threshold of one to three, which is an integer.
abbrev pub threshold_in_range : Value → Bool
threshold_in_range (num n) = leb 1 n && leb n 3
threshold_in_range _ = false

abbrev pub threshold_of : Value → ℕ
threshold_of (num n) = n
threshold_of _ = 0

abbrev pub list_within : ℕ → ℕ → Value → Bool
list_within lo hi v = elim (elements v) [
  | none ↦ false
  | some xs ↦ leb lo (length xs) && leb (length xs) hi
]

abbrev pub next_version : Option Core → ℕ
next_version none = 1
next_version (some prev) = prev.policy_version + 1

abbrev pub regressed : Option ℕ → ℕ → Bool
regressed none issued = false
regressed (some before) issued = ltb issued before

module _ (date : Value → Option ℕ) (sha256 : String → String)
    (counts : String → String → Signature → Value → Value → Bool) where
  unfoldable pub payload_hash : String → Value → String
  payload_hash action payload = sha256 (payload_text action payload)

  unfoldable pub signers_commit : Value → Value → String
  signers_commit signers threshold =
      payload_hash "sgsigners1" (obj (field "signers" signers (field "threshold" threshold end)))

  -- The body of the loop: the ids that are valid after a signature.
  unfoldable pub count_sig :
      String → String → List Value → Value → List Value → Option Signature → List Value
  count_sig action ph trusted issued valid none = valid
  count_sig action ph trusted issued valid (some sig) =
      if has_id valid sig.signer_id then valid else elim (by_id trusted sig.signer_id) [
        | none ↦ valid
        | some signer ↦
            if same_value (property "kind" signer) sig.kind
              && is_checked_kind sig.kind
              && counts action ph sig signer issued
            then sig.signer_id ∷ valid
            else valid
      ]

  unfoldable pub count_sigs :
      String → String → List Value → Value → List Value → List (Option Signature) → List Value
  count_sigs action ph trusted issued valid [] = valid
  count_sigs action ph trusted issued valid (s ∷ ss) =
      count_sigs action ph trusted issued (count_sig action ph trusted issued valid s) ss

  -- The ids of the trusted signers whose signatures are valid, of the first sixteen.
  unfoldable pub verify_envelope_sigs :
      String → String → List (Option Signature) → List Value → Value → List Value
  verify_envelope_sigs action ph sigs trusted issued =
      count_sigs action ph trusted issued [] (take 16 sigs)

  -- The checks of the core by itself, and against the row and the configuration.
  unfoldable pub check_shape : Config → Row → Option Core → Core → Result RowError (Unit {0})
  check_shape cfg row prev core = do
    throw_if (not (same_value core.v (num 1))) unknown_format
    throw_if (not (eqs core.link_id cfg.link_id)) link_mismatch
    throw_if (not (given cfg.tg_user_id && same? cfg.tg_user_id core.tg_user_id)) identity_mismatch
    throw_if (not (core.policy_version == next_version prev)) version_gap
    throw_if (not (row.version == core.policy_version)) version_mismatch
    throw_if (not (list_within 0 50 core.whitelist)) malformed_whitelist
    throw_if (not (threshold_in_range core.threshold)) malformed_threshold
    throw_if (not (list_within 1 10 core.signers)) malformed_signers
    throw_if (ltb (length (items core.signers)) (threshold_of core.threshold)) threshold_exceeds
    throw_if (any is_nullish (items core.signers)) type_error
    throw_if (not (distinct (map id_of (items core.signers)))) duplicate_ids

  abbrev pub check_floor : Option Core → ℕ → Result RowError (Unit {0})
  check_floor none issued = ok tt
  check_floor (some prev) issued =
      throw_if (regressed (date prev.issued_at) issued) issued_regressed

  unfoldable pub check_issued : Config → Option Core → Core → Result RowError (Unit {0})
  check_issued cfg prev core = elim (date core.issued_at) [
    | none ↦ raise malformed_issued_at
    | some issued ↦ do
      throw_if (ltb (cfg.now_ms + issued_future_skew_ms) issued) issued_in_future
      check_floor prev issued
  ]

  -- The rules on the anchor: it alone is `arm`, and its signers are those that the seal commits to.
  unfoldable pub check_anchor : Config → Action → Option Core → Core → Result RowError (Unit {0})
  unfolding signers_commit payload_hash
  check_anchor cfg action none core = do
    throw_if (not (is_arm action)) anchor_not_arm
    throw_if (not (given cfg.signers_commit)) no_commitment
    throw_if (not (same? cfg.signers_commit (signers_commit core.signers core.threshold)))
        commitment_mismatch
  check_anchor cfg action (some prev) core = throw_if (is_arm action) arm_not_anchor

  unfoldable pub check_unsigned : Action → Option Core → Core → Result RowError (Unit {0})
  check_unsigned action none core = raise unsigned_anchor
  check_unsigned action (some prev) core = do
    throw_if (not (is_protect_reset action)) unsigned_action
    from_delta (verify_delta date protect_reset prev core)

  abbrev pub check_transition : Action → Option Core → Core → Result RowError (Unit {0})
  check_transition action none core = ok tt
  check_transition action (some prev) core = from_delta (verify_delta date action prev core)

  -- `trusted` and `threshold`: those of the preceding core, or of the anchor itself.
  abbrev pub judges : Option Core → Core → Core
  judges none core = core
  judges (some prev) core = prev

  abbrev pub quorum_of : Core → ℕ
  quorum_of c = min (threshold_of c.threshold) (length (items c.signers))

  unfoldable pub check_signed : Row → String → Option Core → Core → Result RowError (Unit {0})
  check_signed row ph prev core = do
    check_transition (action_of row.action) prev core
    let by = judges prev core
    let valid = verify_envelope_sigs row.action ph row.sigs (items by.signers) core.issued_at
    throw_if (ltb (length valid) (quorum_of by)) no_quorum

  abbrev pub check_signatures :
      Row → String → Option Core → Core → List (Option Signature) → Result RowError (Unit {0})
  check_signatures row ph prev core [] = check_unsigned (action_of row.action) prev core
  check_signatures row ph prev core (s ∷ ss) = check_signed row ph prev core

  unfoldable pub verify_core : Config → Row → Option Core → Core → Result RowError (Unit {0})
  unfolding payload_hash
  verify_core cfg row prev core = do
    check_shape cfg row prev core
    check_issued cfg prev core
    let ph = payload_hash row.action core.body
    throw_if (given row.core_hash && not (same? row.core_hash ph)) hash_mismatch
    check_anchor cfg (action_of row.action) prev core
    check_signatures row ph prev core row.sigs

  unfoldable pub verify_envelope_row : Config → Row → Option Core → Result RowError (Unit {0})
  verify_envelope_row cfg row prev = elim row.core [
    | none ↦ raise malformed_core
    | some core ↦ verify_core cfg row prev core
  ]
