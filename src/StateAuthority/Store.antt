-- ===== src/StateAuthority/Store.antt =====
-- state-authority.mjs, `InMemoryAuthority` and `inProcessTransport`: the reference store. A method
-- that throws does so before it writes, so a refused call carries no new store. The clock that a
-- method reads is its argument `now`; the signing of a response is left out.
use enclave_gateway.Base.{
  ℕ, ◌+◌, Bool, true, false, not, ◌&&◌, Option, none, some, List, [], ◌∷◌, String, eqs, same?, ltb,
  ◌==◌, if◌then◌else◌, Result, ok, raise, ◌>>=◌, ◌>>◌, throw_if, lookup, insert,
}

-- `PHASES`
pub data Phase : Type 0 where
  onboarding armed terminal : Phase

abbrev pub is_terminal : Phase → Bool
is_terminal terminal = true
is_terminal _ = false

abbrev pub is_armed : Phase → Bool
is_armed armed = true
is_armed _ = false

-- `p === q` on phases
abbrev pub same_phase : Phase → Phase → Bool
same_phase onboarding onboarding = true
same_phase armed armed = true
same_phase terminal terminal = true
same_phase _ _ = false

-- The fields of a stored record; null is `none`.
pub record StateRecord : Type 0 where
  pub state_id : String
  pub phase : Phase
  pub policy_version : Option ℕ
  pub policy_head_hash : Option String
  pub lease_epoch : ℕ
  pub lease_holder : Option String
  pub lease_expires_at : Option ℕ
  pub terminal_reason : Option String

abbrev pub Authority : Type 0
Authority = List (String × StateRecord)

pub data AuthorityError : Type 0 where
  no_such_state acquisition_rejected lease_held is_terminal_error not_current_holder :
      AuthorityError
  different_genesis not_armed head_mismatch not_increasing phase_mismatch : AuthorityError

-- A holder is truthy if it is neither null nor the empty string.
abbrev pub truthy : Option String → Bool
truthy none = false
truthy (some s) = not (eqs s "")

-- `x > t`, where null counts as 0
abbrev pub expires_after : Option ℕ → ℕ → Bool
expires_after none t = false
expires_after (some x) t = ltb t x

-- `v === n` on a nullable number
abbrev pub same_version : Option ℕ → Option ℕ → Bool
same_version none none = true
same_version (some a) (some b) = a == b
same_version _ _ = false

abbrev pub same_hash : Option String → Option String → Bool
same_hash none none = true
same_hash (some a) (some b) = eqs a b
same_hash _ _ = false

-- `rec.lease_holder === holder && rec.lease_epoch === epoch`
abbrev pub is_holder : StateRecord → String → ℕ → Bool
is_holder r holder epoch = same? r.lease_holder holder && r.lease_epoch == epoch

abbrev pub head_is : StateRecord → Option ℕ → Option String → Bool
head_is r version hash = same_version r.policy_version version && same_hash r.policy_head_hash hash

-- The record that `create_onboarding_if_absent` stores.
unfoldable pub fresh_record : String → StateRecord
fresh_record state_id = record {
  state_id = state_id;
  phase = onboarding;
  policy_version = none;
  policy_head_hash = none;
  lease_epoch = 0;
  lease_holder = none;
  lease_expires_at = none;
  terminal_reason = none;
}

unfoldable pub acquire_lease : ℕ → String → ℕ → StateRecord → Result AuthorityError StateRecord
acquire_lease now holder ttl_ms r = do
  throw_if (is_terminal r.phase) acquisition_rejected
  throw_if (truthy r.lease_holder && expires_after r.lease_expires_at now) lease_held
  ok (record r {
    lease_epoch = r.lease_epoch + 1;
    lease_holder = some holder;
    lease_expires_at = some (now + ttl_ms);
  })

unfoldable pub renew_lease : ℕ → String → ℕ → ℕ → StateRecord → Result AuthorityError StateRecord
renew_lease now holder epoch ttl_ms r = do
  throw_if (is_terminal r.phase) is_terminal_error
  throw_if (not (is_holder r holder epoch)) not_current_holder
  ok (record r { lease_expires_at = some (now + ttl_ms) })

unfoldable pub release_lease : String → ℕ → StateRecord → Result AuthorityError StateRecord
release_lease holder epoch r = do
  throw_if (not (is_holder r holder epoch)) not_current_holder
  ok (record r { lease_holder = none; lease_expires_at = none })

unfoldable pub promote_to_armed :
    String → ℕ → ℕ → String → StateRecord → Result AuthorityError StateRecord
promote_to_armed holder epoch version hash r = do
  throw_if (is_terminal r.phase) is_terminal_error
  throw_if (not (is_holder r holder epoch)) not_current_holder
  if is_armed r.phase
      then (do throw_if (not (head_is r (some version) (some hash))) different_genesis; ok r)
      else ok
          (record r { phase = armed; policy_version = some version; policy_head_hash = some hash })

unfoldable pub compare_and_advance :
    String → ℕ → ℕ → String → ℕ → String → StateRecord → Result AuthorityError StateRecord
compare_and_advance holder epoch expected_version expected_hash next_version next_hash r = do
  throw_if (not (is_armed r.phase)) not_armed
  throw_if (not (is_holder r holder epoch)) not_current_holder
  throw_if (not (head_is r (some expected_version) (some expected_hash))) head_mismatch
  throw_if (not (ltb expected_version next_version)) not_increasing
  ok (record r { policy_version = some next_version; policy_head_hash = some next_hash })

unfoldable pub mark_terminal :
    String
    → ℕ
    → Phase
    → Option String
    → Option ℕ
    → Option String
    → StateRecord
    → Result AuthorityError StateRecord
mark_terminal holder epoch expected_phase reason expected_version expected_hash r =
    if is_terminal r.phase then ok r else (do
      throw_if (not (same_phase r.phase expected_phase)) phase_mismatch
      throw_if (truthy r.lease_holder && not (is_holder r holder epoch)) not_current_holder
      throw_if (is_armed expected_phase && not (head_is r expected_version expected_hash))
          head_mismatch
      ok (record r {
        phase = terminal;
        terminal_reason = reason;
        lease_holder = none;
        lease_expires_at = none;
      }))

-- The calls of `inProcessTransport` with their arguments, the state id and the nonce aside.
pub data Call : Type 0 where
  create : Call
  read : Call
  acquire : String → ℕ → Call
  renew : String → ℕ → ℕ → Call
  release : String → ℕ → Call
  promote : String → ℕ → ℕ → String → Call
  advance : String → ℕ → ℕ → String → ℕ → String → Call
  mark : String → ℕ → Phase → Option String → Option ℕ → Option String → Call

-- What a call does to the record it finds.
unfoldable pub apply_call : ℕ → Call → StateRecord → Result AuthorityError StateRecord
unfolding acquire_lease renew_lease release_lease promote_to_armed compare_and_advance mark_terminal
apply_call now create r = ok r
apply_call now read r = ok r
apply_call now (acquire h ttl) r = acquire_lease now h ttl r
apply_call now (renew h ep ttl) r = renew_lease now h ep ttl r
apply_call now (release h ep) r = release_lease h ep r
apply_call now (promote h ep v hash) r = promote_to_armed h ep v hash r
apply_call now (advance h ep ev eh nv nh) r = compare_and_advance h ep ev eh nv nh r
apply_call now (mark h ep ph reason ev eh) r = mark_terminal h ep ph reason ev eh r

-- `this._store.get(stateId)`: only `create` makes a record that is not there.
unfoldable pub find_record : Authority → String → Call → Result AuthorityError StateRecord
unfolding fresh_record
find_record a state_id create = elim (lookup state_id a) [
  | some r ↦ ok r
  | none ↦ ok (fresh_record state_id)
]
find_record a state_id _ = elim (lookup state_id a) [ some r ↦ ok r | none ↦ raise no_such_state ]

-- One call of the transport: the record in the response, and the store after it.
unfoldable pub in_process_transport :
    ℕ → Authority → String → Call → Result AuthorityError (StateRecord × Authority)
in_process_transport now a state_id c = do
  r ← find_record a state_id c
  r' ← apply_call now c r
  ok (r', insert state_id r' a)

-- The store after one call: a refused call leaves it as it was.
unfoldable pub store_after : ℕ → Authority → String → Call → Authority
store_after now a state_id c = elim (in_process_transport now a state_id c) [
  | ok (_, a') ↦ a'
  | raise _ ↦ a
]

-- The store after a sequence of calls, each at its time.
unfoldable pub run : Authority → List (ℕ × String × Call) → Authority
run a [] = a
run a ((now, state_id, c) ∷ calls) = run (store_after now a state_id c) calls
