-- ===== src/Gateway/Disconnect.antt =====
-- gateway.mjs, `reconcileDisconnect`: the owner's signed disconnect signs the guard out. The State
-- Authority is the reference store's record, which no other writer moves while the lease is held. What
-- a flood wait leaves in the context is in Dispatch, and left out here.
use enclave_gateway.Base.{
  Bool, true, false, List, ◌∷◌, String, Option, none, some, Result, ok, raise, if◌then◌else◌,
}
use Prim.Native.String.{◌++◌ as concat}
use enclave_gateway.Policy.Json.{decimal}
use enclave_gateway.Policy.Row.{Row, payload_hash}
use enclave_gateway.Policy.Chain.{Anchor, ChainError, PolicyAuthority, sort_rows}
use enclave_gateway.Policy.Ops.{OpError, OpArg, logout_self, assert_op_allowed}
use enclave_gateway.StateAuthority.Store.{StateRecord, armed, is_terminal, mark_terminal}
use enclave_gateway.Gateway.Intake.{
  Env, Probe, Delivery, request_lost, answered, body_of, derive, is_disconnect, last_row,
}
mod Tests

-- What is asked of the outside, whether it is then done or throws, and the end of the account.
pub data Effect : Type 0 where
  logging_out finalizing dropped : Effect

-- The authority that is enforced, the record of the State Authority, and the effects, the latest
-- first.
pub record Leaving : Type 0 where
  pub authority : PolicyAuthority
  pub stored : StateRecord
  pub effects : List Effect

-- What a run meets: the head, whether the account is still there under the lock, the chain, whether
-- the record is read, whether `_ctx` and the flood backoff let a call pass, and how the sign-out,
-- the call to the State Authority and the finalization go.
pub record Course : Type 0 where
  pub probe : Result String (Option Probe)
  pub is_adopted : Bool
  pub rows : Result String (List Row)
  pub read : Result String (Unit {0})
  pub passes : Bool
  pub logout : Result String Bool
  pub marking : Delivery
  pub finalize : Result String (Unit {0})

abbrev pub effect : Effect → Leaving → Leaving
effect e s = record s { effects = e ∷ s.effects }

abbrev pub no_arg : OpArg
no_arg = record { hash = ""; fresh_roster = none; contest_override = false }

-- Whether the account is disconnected, and the state. The connection is closed with the drop.
abbrev pub finalized : Course → Leaving → Result String (Unit {0}) → Bool × Leaving
finalized q s (raise e) = (false, effect finalizing s)
finalized q s (ok _) = (true, effect dropped (effect finalizing s))

abbrev pub logged_out : Leaving → Result String Bool → Leaving × Bool
logged_out s (raise e) = (effect logging_out s, false)
logged_out s (ok _) = (effect logging_out s, true)

-- `_call` of LOGOUT_SELF: the gate is asked about the authority that is enforced now.
abbrev pub gated : Course → Leaving → Result OpError (Unit {0}) → Leaving × Bool
gated q s (raise e) = (s, false)
gated q s (ok _) = logged_out s q.logout

abbrev pub call_logout : Course → Leaving → Leaving × Bool
call_logout q s =
    if q.passes then gated q s (assert_op_allowed s.authority logout_self no_arg) else (s, false)

module _ (env : Env) where
  abbrev pub reason_at : Row → String
  reason_at head = concat "signed disconnect v" (decimal head.version)

  -- ARMED to TERMINAL, whose failure is passed over.
  unfoldable pub terminalize : Delivery → String → StateRecord → StateRecord
  terminalize request_lost reason r = r
  terminalize _ reason r =
      (answered true r (
        mark_terminal env.holder env.generation armed (some reason) r.policy_version
          r.policy_head_hash r)).0

  abbrev pub after_logout : Course → Row → Leaving × Bool → Bool × Leaving
  after_logout q head (s, false) = (false, s)
  after_logout q head (s, true) =
      finalized q (record s { stored = terminalize q.marking (reason_at head) s.stored }) q.finalize

  abbrev pub signed_out :
      Course → Leaving → Row → Result ChainError PolicyAuthority → Bool × Leaving
  signed_out q s head (raise e) = (false, s)
  signed_out q s head (ok a) = after_logout q head (call_logout q (record s { authority = a }))

  abbrev pub disconnect_anchor : Row → Option Anchor
  disconnect_anchor head = some (record {
    version = head.version;
    hash = some (payload_hash env.date env.sha256 env.counts "disconnect" (body_of head.core));
  })

  abbrev pub with_state :
      Course → Leaving → List Row → Row → Result String (Unit {0}) → Bool × Leaving
  with_state q s rows head (raise e) = (false, s)
  with_state q s rows head (ok _) =
      if is_terminal s.stored.phase
      then finalized q s q.finalize
      else signed_out q s head (derive env rows (disconnect_anchor head))

  abbrev pub at_disconnect : Course → Leaving → List Row → Option Row → Bool × Leaving
  at_disconnect q s rows none = (false, s)
  at_disconnect q s rows (some head) =
      if is_disconnect head.action then with_state q s rows head q.read else (false, s)

  abbrev pub with_chain : Course → Leaving → Result String (List Row) → Bool × Leaving
  with_chain q s (raise e) = (false, s)
  with_chain q s (ok rows) = at_disconnect q s rows (last_row (sort_rows rows))

  abbrev pub probed : Course → Leaving → Result String (Option Probe) → Bool × Leaving
  probed q s (raise e) = (false, s)
  probed q s (ok none) = (false, s)
  probed q s (ok (some p)) =
      if is_disconnect p.action
      then (if q.is_adopted then with_chain q s q.rows else (false, s))
      else (false, s)

  -- Whether it reports `disconnected`, and the state after it.
  unfoldable pub reconcile_disconnect : Course → Leaving → Bool × Leaving
  reconcile_disconnect q s = probed q s q.probe
