-- ===== src/Gateway/Accounts/Rounds.antt =====
-- gateway.mjs, the accounts together: the loops of `renewAllLeases`, `accountWatchdog` and
-- `releaseAllLeases`, `_ctx`, `healthyCount`, and a run of the operations one after the other.
use enclave_gateway.Base.{
  ℕ, ◌-◌, Bool, false, List, [], ◌∷◌, String, Option, none, some, Result, ok, raise, not, ◌==◌,
  ◌||◌, ltb, filter, map, length, if◌then◌else◌, lookup,
}
use enclave_gateway.Gateway.Accounts.{
  Account, Server, Opening, liveness_stale_ms, Adoption, adopt_armed_link, self_fence, renew,
  round_trip, back_off, is_quiet, watch, release_lease,
}

-- A loop over the accounts that are there when it starts.
unfoldable pub for_each : (String → Server → Server) → List String → Server → Server
for_each f [] v = v
for_each f (s ∷ ss) v = for_each f ss (f s v)

abbrev pub handles : Server → List String
handles v = map (λ e. e.0) v.accts

unfoldable pub renew_all_leases : (String → Result String ℕ) → Server → Server
renew_all_leases answers v = for_each (λ s. renew s (answers s)) (handles v) v

unfoldable pub account_watchdog : ℕ → ℕ → (String → Opening) → Server → Server
account_watchdog mono now openings v = for_each (λ s. watch s mono now (openings s)) (handles v) v

unfoldable pub release_all_leases : Server → Server
release_all_leases v = for_each release_lease (handles v) v

-- `_ctx`, for a request of an epoch.
pub data ContextError : Type 0 where
  unknown_handle stale_gen lease_expired : ContextError

abbrev pub other_gen : Option ℕ → ℕ → Bool
other_gen none gen = false
other_gen (some g) gen = not (g == gen)

unfoldable pub context_of : String → Option ℕ → ℕ → Server → Result ContextError Account
context_of s gen mono v = elim (lookup s v.accts) [
  | none ↦ raise unknown_handle
  | some a ↦
      if other_gen gen a.gen
      then raise stale_gen
      else if ltb a.lease_deadline mono
      then raise lease_expired
      else ok a
]

unfoldable pub healthy_count : ℕ → ℕ → Server → ℕ
healthy_count mono now v =
    length
      (filter (λ e. is_quiet now e.1 || ltb (mono - (e.1).last_rt_ok_at) liveness_stale_ms) v.accts)

abbrev pub no_accounts : Server
no_accounts = record { accts = []; log = [] }

-- The operations, with what they are answered; `mono` is the monotonic clock and `now` the other.
pub data Operation : Type 0 where
  adopting : String → ℕ → Adoption → Operation
  fencing : String → Operation
  renewing : (String → Result String ℕ) → Operation
  watching : ℕ → ℕ → (String → Opening) → Operation
  answering : String → ℕ → Operation
  backing_off : String → Option ℕ → Option ℕ → Operation
  releasing : Operation

abbrev pub perform : Operation → Server → Server
perform (adopting s mono q) v = adopt_armed_link s mono q v
perform (fencing s) v = self_fence s v
perform (renewing answers) v = renew_all_leases answers v
perform (watching mono now openings) v = account_watchdog mono now openings v
perform (answering s mono) v = round_trip s mono v
perform (backing_off s flood frozen) v = back_off s flood frozen v
perform releasing v = release_all_leases v

abbrev pub perform_all : List Operation → Server → Server
perform_all [] v = v
perform_all (o ∷ os) v = perform_all os (perform o v)
