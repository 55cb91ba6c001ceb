-- ===== src/Gateway/Accounts.antt =====
-- gateway.mjs, one account that a gateway serves: `adopt`, `_openAndConnect`, `selfFence`,
-- `recoverAccount`, and the bodies of the loops of `renewAllLeases`, `accountWatchdog` and
-- `releaseAllLeases`. A handle is `acct-` with the state id, so one map by state ids stands for `_accts` and `_byState`.
-- What the key service, Telegram and the State Authority answer are arguments. The operations run
-- one after the other, a self-healing to its end. An error in a disconnection is passed over.
use enclave_gateway.Base.{
  ◌↔◌, ◌≢◌, ◌%◌, ◌/◌, ◌>>◌, ◌>>=◌, ◌∙◌, ◌⊎◌, ◌≤◌, ◌<◌, ◌&&◌, ◌++◌, suc, zero, inr, inl, arith, ◌≡◌,
  refl, ℕ, ◌+◌, ◌-◌, ◌*◌, Bool, true, false, List, [], ◌∷◌, String, Option, none, some, Result, ok,
  raise, eqs, not, ◌==◌, ◌||◌, ltb, leb, filter, map, length, if◌then◌else◌, lookup, insert, remove,
}
use enclave_gateway.StateAuthority.Store.{Phase, is_armed}
use enclave_gateway.Policy.Chain.{PolicyAuthority}
use enclave_gateway.Gateway.Dispatch.{in_backoff}
pub mod Rounds
mod Tests

-- What a gateway does to the outside, with the state id, and the number of a connection or the epoch
-- of a lease. A connection is abandoned where it is made and its owner is not told.
pub data Event : Type 0 where
  opened closed abandoned released : String → ℕ → Event

pub record Account : Type 0 where
  pub gen : ℕ
  pub lease_deadline : ℕ
  pub tx : ℕ
  pub authority : PolicyAuthority
  pub renew_fail : ℕ
  pub reconnect_attempts : ℕ
  pub last_rt_ok_at : ℕ
  pub flood_until : Option ℕ
  pub frozen_until : Option ℕ

-- The accounts, and what was done, the latest first.
pub record Server : Type 0 where
  pub accts : List (String × Account)
  pub log : List Event

-- How `_openAndConnect` ends: nothing is connected; a connection whose `whoAmI` throws, which the
-- code leaves as it is; one of another user, which it closes; or one of the user.
pub data Opening : Type 0 where
  unconnected : Opening
  unidentified mismatched connected : ℕ → Opening

abbrev pub max_renew_fail : ℕ
max_renew_fail = 3

abbrev pub max_reconnect_attempts : ℕ
max_reconnect_attempts = 5

abbrev pub liveness_stale_ms : ℕ
liveness_stale_ms = 75000

abbrev pub emit : Event → Server → Server
emit e v = record v { log = e ∷ v.log }

abbrev pub store : String → Account → Server → Server
store s a v = record v { accts = insert s a v.accts }

abbrev pub drop : String → Server → Server
drop s v = record v { accts = remove s v.accts }

-- The connection of `_openAndConnect`, and whether it is one of the user.
abbrev pub open_and_connect : String → Opening → Server → Server × Option ℕ
open_and_connect s unconnected v = (v, none)
open_and_connect s (unidentified n) v = (emit (abandoned s n) (emit (opened s n) v), none)
open_and_connect s (mismatched n) v = (emit (closed s n) (emit (opened s n) v), none)
open_and_connect s (connected n) v = (emit (opened s n) v, some n)

-- What `adopt` meets: the phase that is read, the epoch and the deadline of the lease, the
-- connection, and the authority of the chain up to the State Authority's head.
pub record Adoption : Type 0 where
  pub phase : Result String Phase
  pub lease : Result String (ℕ × ℕ)
  pub opening : Opening
  pub derived : Option PolicyAuthority

abbrev pub fresh_account : ℕ → ℕ → ℕ → PolicyAuthority → ℕ → Account
fresh_account gen deadline tx authority mono = record {
  gen = gen;
  lease_deadline = deadline;
  tx = tx;
  authority = authority;
  renew_fail = 0;
  reconnect_attempts = 0;
  last_rt_ok_at = mono;
  flood_until = none;
  frozen_until = none;
}

-- The last steps: a connection that serves no account is closed, and then the lease released.
abbrev pub served : String → ℕ → ℕ → ℕ → Option PolicyAuthority → Server × Option ℕ → Server
served s gen deadline mono derived (v, none) = emit (released s gen) v
served s gen deadline mono none (v, some n) = emit (released s gen) (emit (closed s n) v)
served s gen deadline mono (some a) (v, some n) = store s (fresh_account gen deadline n a mono) v

abbrev pub with_lease : String → ℕ → Adoption → Result String (ℕ × ℕ) → Server → Server
with_lease s mono q (raise e) v = v
with_lease s mono q (ok (gen, deadline)) v =
    served s gen deadline mono q.derived (open_and_connect s q.opening v)

abbrev pub with_phase : String → ℕ → Adoption → Result String Phase → Server → Server
with_phase s mono q (raise e) v = v
with_phase s mono q (ok p) v = if is_armed p then with_lease s mono q q.lease v else v

-- An account that is served already is overwritten.
unfoldable pub adopt : String → ℕ → Adoption → Server → Server
adopt s mono q v = with_phase s mono q q.phase v

-- `adoptArmedLinks` of gateway-main.mjs, for one link: a state id that is served is skipped.
unfoldable pub adopt_armed_link : String → ℕ → Adoption → Server → Server
adopt_armed_link s mono q v = elim (lookup s v.accts) [ none ↦ adopt s mono q v | some a ↦ v ]

-- `disconnect` and the removal from the map, of `selfFence` and of a finished `reconcileDisconnect`.
abbrev pub fence : String → Account → Server → Server
fence s a v = emit (closed s a.tx) (drop s v)

unfoldable pub self_fence : String → Server → Server
self_fence s v = elim (lookup s v.accts) [ none ↦ v | some a ↦ fence s a v ]

abbrev pub renewed : String → Account → Result String ℕ → Server → Server
renewed s a (ok deadline) v = store s (record a { lease_deadline = deadline; renew_fail = 0 }) v
renewed s a (raise e) v =
    if leb max_renew_fail (a.renew_fail + 1)
    then fence s a v
    else store s (record a { renew_fail = a.renew_fail + 1 }) v

unfoldable pub renew : String → Result String ℕ → Server → Server
renew s r v = elim (lookup s v.accts) [ none ↦ v | some a ↦ renewed s a r v ]

-- The user's connection is there again, or the attempt has failed.
abbrev pub reattached : String → Account → ℕ → ℕ → Server → Server
reattached s a n mono v =
    store s (record a { tx = n; last_rt_ok_at = mono; reconnect_attempts = 0 }) v

abbrev pub reattach_failed : String → Account → Server → Server
reattach_failed s a v =
    if leb max_reconnect_attempts (a.reconnect_attempts + 1)
    then fence s a v
    else store s (record a { reconnect_attempts = a.reconnect_attempts + 1 }) v

abbrev pub is_mismatched : Opening → Bool
is_mismatched (mismatched n) = true
is_mismatched _ = false

-- A connection of another user is not tried again.
abbrev pub rebuilt : String → Account → ℕ → Bool → Server × Option ℕ → Server
rebuilt s a mono mismatch (v, some n) = reattached s a n mono v
rebuilt s a mono mismatch (v, none) = if mismatch then fence s a v else reattach_failed s a v

unfoldable pub recover_account : String → ℕ → Opening → Server → Server
recover_account s mono o v = elim (lookup s v.accts) [
  | none ↦ v
  | some a ↦ rebuilt s a mono (is_mismatched o) (open_and_connect s o (emit (closed s a.tx) v))
]

-- A round-trip that Telegram answered, and the backoffs that the calls set.
unfoldable pub round_trip : String → ℕ → Server → Server
round_trip s mono v = elim (lookup s v.accts) [
  | none ↦ v
  | some a ↦ store s (record a { last_rt_ok_at = mono }) v
]

unfoldable pub back_off : String → Option ℕ → Option ℕ → Server → Server
back_off s flood frozen v = elim (lookup s v.accts) [
  | none ↦ v
  | some a ↦ store s (record a { flood_until = flood; frozen_until = frozen }) v
]

abbrev pub is_quiet : ℕ → Account → Bool
is_quiet now a = in_backoff a.flood_until now || in_backoff a.frozen_until now

-- An account in the watchdog's loop.
abbrev pub watched : String → Account → ℕ → ℕ → Opening → Server → Server
watched s a mono now o v =
    if is_quiet now a
    then store s (record a { last_rt_ok_at = mono }) v
    else if ltb liveness_stale_ms (mono - a.last_rt_ok_at)
    then recover_account s mono o v
    else v

unfoldable pub watch : String → ℕ → ℕ → Opening → Server → Server
watch s mono now o v = elim (lookup s v.accts) [ none ↦ v | some a ↦ watched s a mono now o v ]

unfoldable pub release_lease : String → Server → Server
release_lease s v = elim (lookup s v.accts) [
  | none ↦ v
  | some a ↦ drop s (emit (released s a.gen) (emit (closed s a.tx) v))
]
