-- ===== src/Policy/Tests.antt =====
-- policy-verify.mjs at a concrete chain, and instances of the theorems on it.
use enclave_gateway.Policy.Chain.{
  walk_all, sort_rows, insert_row, walk, localities, authority_of, derive_authority,
  head_version_mismatch,
}
use enclave_gateway.Policy.Row.{
  verify_core, check_shape, check_issued, check_anchor, check_signed, count_sigs, count_sig, by_id,
  signers_commit, payload_hash, verify_envelope_row, verify_envelope_sigs,
}
use enclave_gateway.Policy.Delta.{same_except, same_fields, verify_delta}
use enclave_gateway.Policy.Json.{
  decimal, quote, insert_field, stringify, canon, payload_text, num, canonical_eq, obj, end, field,
}
use enclave_gateway.Policy.Core.{Core, PolicyField, items, get}
use enclave_gateway.Policy.Action.{action_of, add_key, remove_key, set_whitelist}
use enclave_gateway.Policy.Ops.{
  string_of, is_listed, find_session, check_evict, assert_op, OpArg, assert_op_allowed,
  evict_session, whitelisted,
}
use enclave_gateway.Policy.Unchanged.{verify_delta_pinned}
use enclave_gateway.Policy.Keys.{KeyAdded, add_key-KeyAdded}
use enclave_gateway.Policy.Keys.Removed.{KeyRemoved, remove_key-KeyRemoved}
use enclave_gateway.Policy.Quorum.{Quorum, verify_envelope_sigs-Quorum}
use enclave_gateway.Policy.Accepts.{Accepted, verify_envelope_row-Accepted}
use enclave_gateway.Policy.Derive.{Derived, derive_authority-Derived}
use enclave_gateway.Policy.Permits.{Permitted, assert_op_allowed_iff}
use enclave_gateway.Base.{
  String-discrete, ◌↔◌, ◌≡◌, false, true, ◌∷◌, [], some, none, refl, ok, raise,
}
use enclave_gateway.Policy.Samples.{
  at_number, as_text, signs_hash, anchor_core, kept_core, two_keys, other_key, config, anchor_row,
  chain_rows, derived, head_anchor,
}

anchor_accepted : verify_envelope_row at_number as_text signs_hash config anchor_row none ≡ ok tt
unfolding verify_envelope_row verify_core check_shape String-discrete check_issued check_anchor
    action_of payload_text stringify canon check_signed verify_envelope_sigs count_sigs count_sig
    by_id
anchor_accepted = refl

verify_envelope_row-Accepted_example :
    (core : Core) × Accepted at_number as_text signs_hash config none anchor_row core
verify_envelope_row-Accepted_example =
    verify_envelope_row-Accepted at_number as_text signs_hash config anchor_row none anchor_accepted

chain_derived :
    derive_authority at_number as_text signs_hash config chain_rows (some head_anchor) ≡ ok derived
unfolding derive_authority walk_all sort_rows insert_row walk verify_envelope_row verify_core
    check_shape String-discrete check_issued check_anchor action_of payload_text stringify canon
    check_signed verify_envelope_sigs count_sigs count_sig authority_of verify_delta same_except
    same_fields canonical_eq by_id payload_hash signers_commit decimal quote insert_field localities
chain_derived = refl

derive_authority-Derived_example :
    Derived at_number as_text signs_hash config chain_rows (some head_anchor) derived
derive_authority-Derived_example =
    derive_authority-Derived at_number as_text signs_hash config chain_rows (some head_anchor)
      derived chain_derived

-- An older chain does not meet the head that is anchored.
rollback_rejected :
    derive_authority at_number as_text signs_hash config (anchor_row ∷ []) (some head_anchor)
    ≡ raise head_version_mismatch
unfolding derive_authority walk_all sort_rows insert_row walk verify_envelope_row verify_core
    check_shape String-discrete check_issued check_anchor action_of payload_text stringify canon
    check_signed verify_envelope_sigs count_sigs count_sig authority_of verify_delta same_except
    same_fields canonical_eq by_id payload_hash signers_commit decimal quote insert_field localities
rollback_rejected = refl

set_whitelist_verified : verify_delta at_number set_whitelist anchor_core kept_core ≡ ok tt
unfolding verify_delta same_except canonical_eq canon String-discrete stringify
set_whitelist_verified = refl

verify_delta_pinned_example :
    canonical_eq (get PolicyField.signers anchor_core) (get PolicyField.signers kept_core) ≡ true
verify_delta_pinned_example =
    verify_delta_pinned at_number set_whitelist anchor_core kept_core set_whitelist_verified
      PolicyField.signers refl

add_key_verified : verify_delta at_number add_key kept_core two_keys ≡ ok tt
unfolding verify_delta same_except canonical_eq canon String-discrete stringify
add_key_verified = refl

add_key-KeyAdded_example : KeyAdded kept_core two_keys
add_key-KeyAdded_example = add_key-KeyAdded at_number kept_core two_keys add_key_verified

remove_key_verified : verify_delta at_number remove_key two_keys other_key ≡ ok tt
unfolding verify_delta same_except canonical_eq canon String-discrete stringify
remove_key_verified = refl

remove_key-KeyRemoved_example : KeyRemoved two_keys other_key
unfolding String-discrete
remove_key-KeyRemoved_example =
    remove_key-KeyRemoved at_number two_keys other_key refl refl remove_key_verified

verify_envelope_sigs-Quorum_example :
    Quorum at_number as_text signs_hash "arm" "x"
      (items anchor_core.signers)
      (num 100)
      anchor_row.sigs
      (verify_envelope_sigs at_number as_text signs_hash "arm" "x" anchor_row.sigs
        (items anchor_core.signers)
        (num 100))
verify_envelope_sigs-Quorum_example =
    verify_envelope_sigs-Quorum at_number as_text signs_hash "arm" "x" (items anchor_core.signers)
      (num 100) anchor_row.sigs

abbrev evict_kept : OpArg
evict_kept = record {
  hash = "77";
  fresh_roster = some (record { hash = "77"; current = false } ∷ []);
  contest_override = true;
}

-- The policy says `alert`, so the override does not reach a kept session.
kept_not_evicted : assert_op_allowed derived evict_session evict_kept ≡ raise whitelisted
unfolding assert_op_allowed authority_of String-discrete assert_op check_evict find_session
    is_listed string_of
kept_not_evicted = refl

assert_op_allowed_iff_example :
    (assert_op_allowed derived evict_session evict_kept ≡ ok tt)
    ↔ Permitted derived evict_session evict_kept
assert_op_allowed_iff_example = assert_op_allowed_iff derived evict_session evict_kept

-- A key `__proto__` is not compared.
canonical_eq-prototype : canonical_eq (obj (field "__proto__" (num 1) end)) (obj end) ≡ true
unfolding canonical_eq canon stringify String-discrete
canonical_eq-prototype = refl
