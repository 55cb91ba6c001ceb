-- ===== src/Gateway/Disconnect/Tests.antt =====
-- Runs of a signed disconnect over the reference store, and the theorem at one of them.
use enclave_gateway.Base.{String-discrete, some, none, ok, true, [], ◌∷◌, ◌≡◌, refl}
use enclave_gateway.Policy.Core.{Core}
use enclave_gateway.Policy.Json.{
  canonical_eq, canon, stringify, decimal, insert_field, payload_text, quote, arr, cons, nil,
  decimal_from,
}
use enclave_gateway.Policy.Chain.{
  derive_authority, walk_all, sort_rows, walk, authority_of, insert_row, localities,
}
use enclave_gateway.Policy.Row.{
  Row, verify_envelope_row, verify_core, check_shape, by_id, check_anchor, check_issued,
  check_signed, count_sig, count_sigs, payload_hash, signers_commit, verify_envelope_sigs,
}
use enclave_gateway.Policy.Action.{action_of}
use enclave_gateway.Policy.Delta.{verify_delta, same_except, same_fields}
use enclave_gateway.Policy.Ops.{assert_op_allowed, assert_op}
use enclave_gateway.Policy.Samples.{
  at_number, as_text, signs_hash, config, core_with, passkey, row_of, anchor_core, anchor_row,
}
use enclave_gateway.StateAuthority.Store.{armed, terminal, mark_terminal}
use enclave_gateway.Gateway.Intake.{Env, delivered, request_lost, last_row}
use enclave_gateway.Gateway.Disconnect.{
  Leaving, Course, logging_out, finalizing, dropped, terminalize, reconcile_disconnect,
}
use enclave_gateway.Gateway.Signed.{Ending, reconcile_disconnect-Ending}

abbrev env : Env
env = record {
  date = at_number;
  sha256 = as_text;
  counts = signs_hash;
  config = config;
  holder = "H";
  generation = 3;
  network = λ n. delivered;
}

abbrev leaving_core : Core
leaving_core = core_with 2 (arr nil) (cons (passkey "a") nil)

abbrev leaving_row : Row
leaving_row = row_of "disconnect" leaving_core

abbrev served : Leaving
served = record {
  authority = authority_of at_number as_text signs_hash config anchor_row anchor_core;
  stored = record {
    state_id = "S";
    phase = armed;
    policy_version = some 1;
    policy_head_hash = some (payload_hash at_number as_text signs_hash "arm" anchor_core.body);
    lease_epoch = 3;
    lease_holder = some "H";
    lease_expires_at = some 900;
    terminal_reason = none;
  };
  effects = [];
}

abbrev course : Course
course = record {
  probe = ok (some (record { version = 2; action = "disconnect" }));
  is_adopted = true;
  rows = ok (leaving_row ∷ anchor_row ∷ []);
  read = ok tt;
  passes = true;
  logout = ok true;
  marking = delivered;
  finalize = ok tt;
}

abbrev left_account : Leaving
left_account = record {
  authority = authority_of at_number as_text signs_hash config leaving_row leaving_core;
  stored = served.stored;
  effects = dropped ∷ finalizing ∷ logging_out ∷ [];
}

-- In turn: the guard is signed out; and the call that ends the record is lost: the account is
-- dropped all the same, and the record stays armed with its lease.
runs :
    (reconcile_disconnect env course served ≡ (
      true,
      record left_account {
        stored = record served.stored {
          phase = terminal;
          terminal_reason = some "signed disconnect v2";
          lease_holder = none;
          lease_expires_at = none;
        };
      },
    ))
    × (reconcile_disconnect env (record course { marking = request_lost }) served
        ≡ (true, left_account))
unfolding reconcile_disconnect terminalize mark_terminal last_row assert_op_allowed assert_op
    decimal_from String-discrete canonical_eq canon stringify derive_authority walk_all sort_rows
    walk verify_envelope_row verify_core check_shape action_of authority_of insert_row localities
    decimal insert_field payload_text quote by_id check_anchor check_issued check_signed count_sig
    count_sigs payload_hash signers_commit verify_envelope_sigs verify_delta same_except same_fields
runs = (refl, refl)

reconcile_disconnect-Ending_example :
    Ending env course served (reconcile_disconnect env course served)
reconcile_disconnect-Ending_example = reconcile_disconnect-Ending env course served
