-- ===== src/StateAuthority/Tests.antt =====
-- state-authority.mjs at concrete stores: runs of the reference store, and instances of its theorems.
use enclave_gateway.Policy.Json.{stringify}
use enclave_gateway.Base.{
  eqs, ◌+◌, ◌≤◌, ok, ℕ, ◌≡◌, refl, some, none, List, [], ◌∷◌, String, String-discrete, lookup,
  insert, arith,
}
use enclave_gateway.StateAuthority.Store.{
  StateRecord, armed, Authority, Call, apply_call, find_record, store_after, run,
  in_process_transport,
}
use enclave_gateway.StateAuthority.Dynamo.{write_acquire, write_call, table_after, table_run}
use enclave_gateway.StateAuthority.Mirror.{Among, table_run-run}
use enclave_gateway.StateAuthority.Client.{
  verify_response, SignedRecord, Signed, canonical_record_bytes, lease_call,
}
use enclave_gateway.StateAuthority.Deadline.{Authentic, lease_call-Authentic}
use enclave_gateway.StateAuthority.Validity.{StoreIsValid}
use enclave_gateway.StateAuthority.History.{Continues, run-Continues}
use enclave_gateway.StateAuthority.Fencing.{run_foreign}

abbrev one : Authority
one =
    (
      "g1",
      record {
        state_id = "g1";
        phase = armed;
        policy_version = some 4;
        policy_head_hash = some "h4";
        lease_epoch = 2;
        lease_holder = some "key-a";
        lease_expires_at = some 1000;
        terminal_reason = none;
      },
    )
    ∷ []

abbrev one_record : StateRecord
one_record = record {
  state_id = "g1";
  phase = armed;
  policy_version = some 4;
  policy_head_hash = some "h4";
  lease_epoch = 2;
  lease_holder = some "key-a";
  lease_expires_at = some 1000;
  terminal_reason = none;
}

one_found : lookup "g1" one ≡ some one_record
unfolding lookup String-discrete
one_found = refl

one-StoreIsValid : StoreIsValid one
unfolding lookup
one-StoreIsValid k r found = ground arith

-- A stranger tries everything before the deadline, and takes the lease after it.
abbrev intrusion : List (ℕ × String × Call)
intrusion =
    (100, "g1", Call.acquire "key-b" 60)
    ∷ (200, "g1", Call.mark "key-b" 2 armed (some "x") (some 4) (some "h4"))
    ∷ (300, "g1", Call.advance "key-b" 2 4 "h4" 5 "h5")
    ∷ []

abbrev takeover : List (ℕ × String × Call)
takeover =
    (1000, "g1", Call.acquire "key-b" 60) ∷ (1010, "g1", Call.advance "key-b" 3 4 "h4" 5 "h5") ∷ []

takeover_advances :
    lookup "g1" (run one takeover)
    ≡ some (record one_record {
      policy_version = some 5;
      policy_head_hash = some "h5";
      lease_epoch = 3;
      lease_holder = some "key-b";
      lease_expires_at = some 1060;
    })
unfolding run store_after in_process_transport find_record apply_call lookup insert String-discrete
takeover_advances = refl

run-Continues_example : Continues "g1" one_record (run one takeover)
run-Continues_example = run-Continues one takeover "g1" one_record one-StoreIsValid one_found

run_foreign_example : lookup "g1" (run one intrusion) ≡ some one_record
unfolding String-discrete
run_foreign_example =
    run_foreign "key-a" 2 1000 refl intrusion one "g1" one_record one_found
      (record { holder = refl; epoch = refl; until = refl })
      ((omega arith, refl), ((omega arith, refl), ((omega arith, refl), tt)))

-- Two gateways race on the conditional writes: both saw the record before either wrote, and the
-- second one fails.
abbrev race : List (ℕ × String × Call × StateRecord)
race =
    (1001, "g1", Call.acquire "key-b" 60, one_record)
    ∷ (1002, "g1", Call.acquire "key-c" 60, one_record)
    ∷ []

race_test : table_run one race ≡ run one ((1001, "g1", Call.acquire "key-b" 60) ∷ [])
unfolding table_run run store_after table_after in_process_transport lookup find_record
    String-discrete apply_call write_call insert write_acquire
race_test = refl

table_run-run_example :
    (kept : List (ℕ × String × Call)) × Among race kept × (table_run one race ≡ run one kept)
table_run-run_example = table_run-run one race (tt, (tt, tt))

-- The signature of a text is the text here.
abbrev leased : SignedRecord
leased = record { stored = one_record; issued_at = some 900; expires_at = some 30900 }

abbrev lease_answer : Signed
lease_answer = record {
  nonce = "n";
  response = leased;
  signature = canonical_record_bytes "n" leased;
}

lease_taken : lease_call eqs "n" 1000 50 60 61 30000 5000 (some lease_answer) ≡ ok (leased, 25051)
unfolding lease_call verify_response String-discrete canonical_record_bytes stringify
lease_taken = refl

lease_call-Authentic_example :
    Authentic eqs "n" 1000 (some lease_answer) leased × (25051 ≤ 55 + 30000)
lease_call-Authentic_example =
    lease_call-Authentic eqs "n" 1000 50 60 61 30000 5000 (some lease_answer) leased 25051 55
      lease_taken (ground arith) (ground arith) (ground arith)
