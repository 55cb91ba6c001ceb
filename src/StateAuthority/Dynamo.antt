-- ===== src/StateAuthority/Dynamo.antt =====
-- state-authority-dynamo.mjs, `makeDynamoAuthority`: the store on conditional writes. A method that
-- loads the record first may see an older one, `seen`, than the one that its write meets, `r`. The
-- result is what is written, or none where the method returns without a write. A null attribute
-- stands for an absent one too; a failed condition is an error.
use enclave_gateway.Base.{
  ◌+◌, ◌>>◌, ◌||◌, ◌&&◌, ◌==◌, false, true, raise, ok, ◌∷◌, [], some, none, List, Option, String,
  Bool, ℕ, not, ltb, throw_if, lookup, insert, Result, if◌then◌else◌,
}
use enclave_gateway.StateAuthority.Store.{
  Phase, onboarding, armed, terminal, StateRecord, Authority, is_terminal, is_armed, same_phase,
  is_holder, head_is, fresh_record, Call, create, read, acquire, renew, release, promote, advance,
  mark,
}

pub data WriteError : Type 0 where
  rejected different_genesis not_increasing condition_failed : WriteError

-- `lease_expires_at < :t`, false of a null
abbrev pub expired : Option ℕ → ℕ → Bool
expired none t = false
expired (some x) t = ltb x t

-- `attribute_not_exists(lease_holder) OR lease_holder = :null`
abbrev pub no_holder : Option String → Bool
no_holder none = true
no_holder (some h) = false

abbrev pub is_onboarding_phase : Phase → Bool
is_onboarding_phase onboarding = true
is_onboarding_phase _ = false

-- `updateItem` with a condition
abbrev pub update_if : Bool → StateRecord → Result WriteError (Option StateRecord)
update_if true r = ok (some r)
update_if false r = raise condition_failed

unfoldable pub write_acquire :
    ℕ → String → ℕ → StateRecord → StateRecord → Result WriteError (Option StateRecord)
write_acquire now holder ttl_ms seen r = do
  throw_if (is_terminal seen.phase) rejected
  update_if
      (not (is_terminal r.phase)
        && r.lease_epoch == seen.lease_epoch
        && (no_holder r.lease_holder || expired r.lease_expires_at now))
      (record r {
        lease_epoch = seen.lease_epoch + 1;
        lease_holder = some holder;
        lease_expires_at = some (now + ttl_ms);
      })

unfoldable pub write_renew :
    ℕ → String → ℕ → ℕ → StateRecord → Result WriteError (Option StateRecord)
write_renew now holder epoch ttl_ms r =
    update_if (not (is_terminal r.phase) && is_holder r holder epoch)
      (record r { lease_expires_at = some (now + ttl_ms) })

unfoldable pub write_release : String → ℕ → StateRecord → Result WriteError (Option StateRecord)
write_release holder epoch r =
    update_if (is_holder r holder epoch) (record r { lease_holder = none; lease_expires_at = none })

unfoldable pub write_promote :
    String → ℕ → ℕ → String → StateRecord → StateRecord → Result WriteError (Option StateRecord)
write_promote holder epoch version hash seen r =
    if is_armed seen.phase
    then (do throw_if (not (head_is seen (some version) (some hash))) different_genesis; ok none)
    else update_if (is_onboarding_phase r.phase && is_holder r holder epoch)
        (record r { phase = armed; policy_version = some version; policy_head_hash = some hash })

unfoldable pub write_advance :
    String → ℕ → ℕ → String → ℕ → String → StateRecord → Result WriteError (Option StateRecord)
write_advance holder epoch expected_version expected_hash next_version next_hash r = do
  throw_if (not (ltb expected_version next_version)) not_increasing
  update_if
      (is_armed r.phase
        && is_holder r holder epoch
        && head_is r (some expected_version) (some expected_hash))
      (record r { policy_version = some next_version; policy_head_hash = some next_hash })

unfoldable pub write_terminal :
    String
    → ℕ
    → Phase
    → Option String
    → Option ℕ
    → Option String
    → StateRecord
    → StateRecord
    → Result WriteError (Option StateRecord)
write_terminal holder epoch expected_phase reason expected_version expected_hash seen r =
    if is_terminal seen.phase
    then ok none
    else update_if
        (same_phase r.phase expected_phase
          && (not (is_armed expected_phase) || head_is r expected_version expected_hash)
          && (no_holder r.lease_holder || is_holder r holder epoch))
        (record r {
          phase = terminal;
          terminal_reason = reason;
          lease_holder = none;
          lease_expires_at = none;
        })

-- The write of a call other than `create`.
unfoldable pub write_call :
    ℕ → Call → StateRecord → StateRecord → Result WriteError (Option StateRecord)
write_call now create seen r = ok none
write_call now read seen r = ok none
write_call now (acquire h ttl) seen r = write_acquire now h ttl seen r
write_call now (renew h ep ttl) seen r = write_renew now h ep ttl r
write_call now (release h ep) seen r = write_release h ep r
write_call now (promote h ep v hash) seen r = write_promote h ep v hash seen r
write_call now (advance h ep ev eh nv nh) seen r = write_advance h ep ev eh nv nh r
write_call now (mark h ep ph reason ev eh) seen r = write_terminal h ep ph reason ev eh seen r

abbrev pub written : Authority → String → Result WriteError (Option StateRecord) → Authority
written table state_id (ok (some r)) = insert state_id r table
written table state_id _ = table

-- A conditional write on a record that is not there fails.
abbrev pub write_at : ℕ → Authority → String → Call → StateRecord → Option StateRecord → Authority
write_at now table state_id c seen none = table
write_at now table state_id c seen (some r) = written table state_id (write_call now c seen r)

-- `putItem` on the condition that there is no item
abbrev pub put_onboarding : Authority → String → Option StateRecord → Authority
put_onboarding table state_id none = insert state_id (fresh_record state_id) table
put_onboarding table state_id (some r) = table

-- The table after one call.
unfoldable pub table_after : ℕ → Authority → String → Call → StateRecord → Authority
table_after now table state_id create seen = put_onboarding table state_id (lookup state_id table)
table_after now table state_id c seen = write_at now table state_id c seen (lookup state_id table)

-- The table after a sequence of calls, each with its time and with the record that it saw.
unfoldable pub table_run : Authority → List (ℕ × String × Call × StateRecord) → Authority
table_run table [] = table
table_run table ((now, state_id, c, seen) ∷ calls) =
    table_run (table_after now table state_id c seen) calls
