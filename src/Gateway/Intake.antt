-- ===== src/Gateway/Intake.antt =====
-- gateway.mjs, `reconcilePolicy`: the policy that the owner signs next reaches the gateway. The State
-- Authority is the reference store's record, behind a network that may lose a request or its answer;
-- while the lease is held no other writer moves that record. The clock stands still in one run.
use enclave_gateway.Base.{
  ◌↔◌, ◌≢◌, ◌%◌, ◌/◌, ◌*◌, ◌>>◌, ◌>>=◌, ◌∙◌, ◌⊎◌, ◌≤◌, ◌<◌, ◌++◌, inr, inl, arith, ◌≡◌, refl, ℕ,
  zero, suc, ◌+◌, ◌-◌, Bool, true, false, List, [], ◌∷◌, String, Option, none, some, Result, ok,
  raise, eqs, not, ◌==◌, ◌||◌, leb, filter, if◌then◌else◌, same?, ◌&&◌,
}
use enclave_gateway.Policy.Json.{Value, null}
use enclave_gateway.Policy.Core.{Core}
use enclave_gateway.Policy.Row.{Row, Config, Signature, given, payload_hash}
use enclave_gateway.Policy.Chain.{Anchor, ChainError, PolicyAuthority, sort_rows, derive_authority}
use enclave_gateway.StateAuthority.Store.{
  StateRecord, AuthorityError, is_armed, compare_and_advance,
}
mod Tests

-- What the network does to one call.
pub data Delivery : Type 0 where
  delivered request_lost answer_lost : Delivery

-- The authority that the gateway enforces, and the record of the State Authority.
pub record Live : Type 0 where
  pub authority : PolicyAuthority
  pub stored : StateRecord

-- The head of the chain as the probe reads it.
pub record Probe : Type 0 where
  pub version : ℕ
  pub action : String

-- What a run reads, or the message of the error: the head, the chain, and whether the record is read.
pub record Readings : Type 0 where
  pub probe : Result String (Option Probe)
  pub rows : Result String (List Row)
  pub read : Result String (Unit {0})

abbrev pub is_disconnect : String → Bool
is_disconnect action = eqs action "disconnect"

-- `byV.get(v)`: the last row of the version.
unfoldable pub by_version : ℕ → List Row → Option Row
by_version v [] = none
by_version v (r ∷ rs) = elim (by_version v rs) [
  | some s ↦ some s
  | none ↦ if r.version == v then some r else none
]

-- `ordered[ordered.length - 1]`
unfoldable pub last_row : List Row → Option Row
last_row [] = none
last_row (r ∷ []) = some r
last_row (r ∷ s ∷ rs) = last_row (s ∷ rs)

abbrev pub body_of : Option Core → Value
body_of none = null
body_of (some c) = c.body

abbrev pub up_to : ℕ → List Row → List Row
up_to v rows = filter (λ r. leb r.version v) rows

-- The record after a call that was carried out, and whether the gateway saw it done.
abbrev pub answered : Bool → StateRecord → Result AuthorityError StateRecord → StateRecord × Bool
answered seen r (ok s) = (s, seen)
answered seen r (raise e) = (r, false)

-- A compare-and-advance over the network.
unfoldable pub advance_over :
    Delivery → String → ℕ → ℕ → String → ℕ → String → StateRecord → StateRecord × Bool
advance_over request_lost holder epoch v h next hash r = (r, false)
advance_over answer_lost holder epoch v h next hash r =
    answered false r (compare_and_advance holder epoch v h next hash r)
advance_over delivered holder epoch v h next hash r =
    answered true r (compare_and_advance holder epoch v h next hash r)

-- What a round of the walk comes to: it stops, or goes on at a row.
pub data Step : Type 0 where
  stopped : Live → Step
  moved : Row → Live → Step

-- What a run is given: how dates, hashes and signatures are read, the link's keys, the lease's holder
-- and generation, and what the network does to the call of each round.
pub record Env : Type 0 where
  pub date : Value → Option ℕ
  pub sha256 : String → String
  pub counts : String → String → Signature → Value → Value → Bool
  pub config : Config
  pub holder : String
  pub generation : ℕ
  pub network : ℕ → Delivery

module _ (env : Env) where
  abbrev pub hash_of : Row → String
  hash_of r = payload_hash env.date env.sha256 env.counts r.action (body_of r.core)

  abbrev pub anchor_at : Row → Option Anchor
  anchor_at r = some (record { version = r.version; hash = some (hash_of r) })

  abbrev pub derive : List Row → Option Anchor → Result ChainError PolicyAuthority
  derive rows anchor = derive_authority env.date env.sha256 env.counts env.config rows anchor

  -- The rows up to a row, derived at that row.
  abbrev pub derive_at : List Row → Row → Result ChainError PolicyAuthority
  derive_at rows r = derive (up_to r.version rows) (anchor_at r)

  -- Why the walk stops at the next row: there is none, it disconnects, or its stored hash differs.
  abbrev pub takes : Option Row → Option Row
  takes none = none
  takes (some r) =
      if is_disconnect r.action
      then none
      else if given r.core_hash && not (same? r.core_hash (hash_of r))
      then none
      else some r

  abbrev pub swapped_step : Row → Live → Result ChainError PolicyAuthority → Step
  swapped_step r s (raise e) = stopped s
  swapped_step r s (ok a) = moved r (record s { authority = a })

  abbrev pub advanced_step : List Row → Row → Live → StateRecord × Bool → Step
  advanced_step rows r s (stored, false) = stopped (record s { stored = stored })
  advanced_step rows r s (stored, true) =
      swapped_step r (record s { stored = stored }) (derive_at rows r)

  abbrev pub next_step : List Row → ℕ → ℕ → String → Live → Option Row → Step
  next_step rows n v h s none = stopped s
  next_step rows n v h s (some r) =
      advanced_step rows r s
        (advance_over (env.network n) env.holder env.generation v h r.version (hash_of r) s.stored)

  abbrev pub continued : ℕ → (ℕ → String → Live → ℕ × Live) → Step → ℕ × Live
  continued v k (stopped s) = (v, s)
  continued v k (moved r s) = k r.version (hash_of r) s

  -- The loop: the rounds that are left, the version and the hash of the head that was reached, and
  -- the version that is reported with the state at the end.
  unfoldable pub walk_head : List Row → ℕ → ℕ → String → Live → ℕ × Live
  walk_head rows zero v h s = (v, s)
  walk_head rows (suc n) v h s =
      continued v (walk_head rows n) (next_step rows n v h s (takes (by_version (v + 1) rows)))

  -- An armed record has a head.
  abbrev pub walk_from : List Row → Row → Live → Option ℕ → Option String → Option ℕ × Live
  walk_from ordered head s (some v) (some h) =
      let (reached, s') = walk_head ordered (head.version - v) v h s in (some reached, s')
  walk_from ordered head s _ _ = (none, s)

  abbrev pub if_verified :
      List Row → Row → Live → Result ChainError PolicyAuthority → Option ℕ × Live
  if_verified ordered head s (raise e) = (none, s)
  if_verified ordered head s (ok a) =
      walk_from ordered head s s.stored.policy_version s.stored.policy_head_hash

  -- `version <= ctx.authority.headVersion`, or a disconnect, which is left to `reconcileDisconnect`.
  abbrev pub passed_over : PolicyAuthority → ℕ → String → Bool
  passed_over a version action = is_disconnect action || leb version a.head_version

  abbrev pub with_record : List Row → Row → Live → Result String (Unit {0}) → Option ℕ × Live
  with_record rows head s (raise e) = (none, s)
  with_record rows head s (ok _) =
      if is_armed s.stored.phase
      then if_verified (sort_rows rows) head s (derive rows (anchor_at head))
      else (none, s)

  abbrev pub with_head : List Row → Readings → Live → Option Row → Option ℕ × Live
  with_head rows q s none = (none, s)
  with_head rows q s (some head) =
      if passed_over s.authority head.version head.action
      then (none, s)
      else with_record rows head s q.read

  abbrev pub with_rows : Readings → Live → Result String (List Row) → Option ℕ × Live
  with_rows q s (raise e) = (none, s)
  with_rows q s (ok rows) = with_head rows q s (last_row (sort_rows rows))

  abbrev pub with_probe : Readings → Live → Result String (Option Probe) → Option ℕ × Live
  with_probe q s (raise e) = (none, s)
  with_probe q s (ok none) = (none, s)
  with_probe q s (ok (some p)) =
      if passed_over s.authority p.version p.action then (none, s) else with_rows q s q.rows

  -- The version that the run reports, where it does, and the state after it.
  unfoldable pub reconcile_policy : Readings → Live → Option ℕ × Live
  reconcile_policy q s = with_probe q s q.probe
