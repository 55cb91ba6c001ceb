-- ===== src/Gateway/Intake/Tests.antt =====
-- Runs of the intake over the reference store, and the theorem at one of them.
use enclave_gateway.Gateway.Intake.{
  Row, anchor_at, derive, reconcile_policy, walk_head, by_version, last_row, advance_over,
  delivered, answer_lost, Live, Readings, Env,
}
use enclave_gateway.StateAuthority.Store.{compare_and_advance, StateRecord, armed}
use enclave_gateway.Base.{subst, ℕ, ◌<◌, ◌∷◌, [], String-discrete, some, none, ok, ◌≡◌, refl, arith}
use enclave_gateway.Policy.Json.{
  canonical_eq, canon, stringify, decimal, insert_field, payload_text, quote,
}
use enclave_gateway.Policy.Chain.{
  derive_authority, walk_all, sort_rows, walk, authority_of, insert_row, localities,
}
use enclave_gateway.Policy.Row.{
  verify_envelope_row, verify_core, check_shape, by_id, check_anchor, check_issued, check_signed,
  count_sig, count_sigs, payload_hash, signers_commit, verify_envelope_sigs,
}
use enclave_gateway.Policy.Action.{action_of}
use enclave_gateway.Policy.Delta.{verify_delta, same_except, same_fields}
use enclave_gateway.Policy.Samples.{
  kept_row, at_number, as_text, signs_hash, config, anchor_core, anchor_row, kept_core, chain_rows,
  derived,
}
use enclave_gateway.Gateway.Lockstep.Arrival.{Passable, arrived}
use enclave_gateway.Gateway.Lockstep.Enforced.{NewPolicy, reconcile_policy_arrives}
use enclave_gateway.Gateway.Lockstep.{Reconciled, reconcile_policy-Reconciled}

abbrev at_anchor : StateRecord
at_anchor = record {
  state_id = "S";
  phase = armed;
  policy_version = some 1;
  policy_head_hash = some (payload_hash at_number as_text signs_hash "arm" anchor_core.body);
  lease_epoch = 3;
  lease_holder = some "H";
  lease_expires_at = some 900;
  terminal_reason = none;
}

abbrev at_kept : StateRecord
at_kept = record at_anchor {
  policy_version = some 2;
  policy_head_hash =
      some (payload_hash at_number as_text signs_hash "set-whitelist" kept_core.body);
}

abbrev before : Live
before = record {
  authority = authority_of at_number as_text signs_hash config anchor_row anchor_core;
  stored = at_anchor;
}

abbrev readings : Readings
readings = record {
  probe = ok (some (record { version = 2; action = "set-whitelist" }));
  rows = ok chain_rows;
  read = ok tt;
}

abbrev lossless : Env
lossless = record {
  date = at_number;
  sha256 = as_text;
  counts = signs_hash;
  config = config;
  holder = "H";
  generation = 3;
  network = λ n. delivered;
}

abbrev lossy : Env
lossy = record lossless { network = λ n. answer_lost }

-- In turn: a new policy arrives; the answer to the move of the head is lost; and the run after
-- that, which finds the head in place, keeps the old authority.
runs :
    (reconcile_policy lossless readings before
      ≡ (some 2, record { authority = derived; stored = at_kept }))
    × (reconcile_policy lossy readings before ≡ (some 1, record before { stored = at_kept }))
    × (reconcile_policy lossless readings (record before { stored = at_kept })
        ≡ (some 2, record before { stored = at_kept }))
unfolding reconcile_policy walk_head by_version last_row advance_over compare_and_advance
    String-discrete canonical_eq canon stringify derive_authority walk_all sort_rows walk
    verify_envelope_row verify_core check_shape action_of authority_of insert_row localities decimal
    insert_field payload_text quote by_id check_anchor check_issued check_signed count_sig
    count_sigs payload_hash signers_commit verify_envelope_sigs verify_delta same_except same_fields
runs = (refl, refl, refl)

before_version : before.authority.head_version ≡ 1
unfolding authority_of
before_version = refl

reconcile_policy-Reconciled_example :
    Reconciled lossless readings before (reconcile_policy lossless readings before).1
reconcile_policy-Reconciled_example =
    reconcile_policy-Reconciled lossless readings before
      (record { version = 1; is_head = refl; not_ahead = omega (arith, before_version) })

chain_verified : derive lossless chain_rows (anchor_at lossless kept_row) ≡ ok derived
unfolding canonical_eq canon stringify derive_authority walk_all sort_rows walk verify_envelope_row
    verify_core check_shape action_of authority_of insert_row localities decimal insert_field
    payload_text quote by_id check_anchor check_issued check_signed count_sig count_sigs
    payload_hash signers_commit verify_envelope_sigs verify_delta same_except same_fields
    String-discrete
chain_verified = refl

chain_ends : last_row (sort_rows chain_rows) ≡ some kept_row
unfolding last_row sort_rows insert_row
chain_ends = refl

second_only :
    (a k r : Row) (w : ℕ) → a.version ≡ 1 → 1 < w → by_version w (a ∷ k ∷ []) ≡ some r → k ≡ r
unfolding by_version
second_only a k r w at lt e = ground (arith, at, lt, e)

kept_row-Passable :
    (w : ℕ) (r : Row) → 1 < w → by_version w (sort_rows chain_rows) ≡ some r → Passable lossless r
unfolding sort_rows insert_row String-discrete
kept_row-Passable w r lt e =
    subst (Passable lossless) (second_only anchor_row kept_row r w refl lt e)
      (record { connected = refl; hash = refl })

new_policy : NewPolicy lossless readings before chain_rows kept_row derived
unfolding authority_of String-discrete
new_policy = record {
  probe = record { version = 2; action = "set-whitelist" };
  probed = refl;
  newer_probe = refl;
  rows_read = refl;
  last = chain_ends;
  newer = refl;
  record_read = refl;
  verified = chain_verified;
}

reconcile_policy_arrives_example :
    reconcile_policy lossless readings before ≡ (some 2, arrived lossless before kept_row derived 2)
reconcile_policy_arrives_example =
    reconcile_policy_arrives lossless readings before chain_rows kept_row derived 1 _ new_policy
      (record { armed = refl; holder = refl; generation = refl; version = refl; hash = refl })
      (omega arith) (λ k. refl) kept_row-Passable
