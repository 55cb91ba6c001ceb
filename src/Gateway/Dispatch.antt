-- ===== src/Gateway/Dispatch.antt =====
-- gateway.mjs, `_dispatch` and `_call`: the handlers of an eviction and of the roster's reading, and the
-- flood backoff around them. The connection is a parameter: its calls change a world of any type, and
-- throw, with the seconds to wait where the error is a flood wait.
use enclave_gateway.Base.{
  not, true, ◌*◌, ◌+◌, false, raise, ok, some, none, List, Option, String, Bool, ℕ, map, ltb, leb,
  if◌then◌else◌, Result,
}
use enclave_gateway.Replay.Geo.{Session}
use enclave_gateway.Policy.Chain.{PolicyAuthority}
use enclave_gateway.Policy.Ops.{
  OpError, Session as RosterRow, OpArg, assert_op_allowed, evict_session,
}
use enclave_gateway.Brain.Sweep.{Gateway, EvictArg}

-- What a call of the connection throws, or what it returns.
pub data Reply (A : Type 0) : Type 0 where
  returned : A → Reply A
  thrown : Option ℕ → Reply A

pub record Connection (W : Type 0) : Type 0 where
  pub list_sessions : W → W × Reply (List Session)
  pub evict_session : W → String → W × Reply Bool

-- The part of `ctx` that the handlers read and write, and whether `_accts` has it.
pub record Context : Type 0 where
  pub served : Bool
  pub lease_deadline : ℕ
  pub authority : PolicyAuthority
  pub flood_until : Option ℕ
  pub flood_strikes : ℕ
  pub fast_until : Option ℕ

abbrev pub roster_row : Session → RosterRow
roster_row s = record { hash = s.hash; current = s.current }

abbrev pub evict_request : EvictArg → List Session → OpArg
evict_request arg roster = record {
  hash = arg.hash;
  fresh_roster = some (map roster_row roster);
  contest_override = arg.contest_override;
}

-- `floodUntil && clock() < floodUntil`
abbrev pub in_backoff : Option ℕ → ℕ → Bool
in_backoff none now = false
in_backoff (some until) now = ltb now until

-- What `_call` refuses before the handler: an account that `_ctx` does not find, one whose lease has
-- lapsed, and a call during the backoff.
abbrev pub is_refused : ℕ → ℕ → Context → Bool
is_refused now monotonic ctx =
    if not ctx.served
    then true
    else if ltb ctx.lease_deadline monotonic
    then true
    else in_backoff ctx.flood_until now

-- What a thrown error does to the context: a second flood wait in a row ends the fast polling.
unfoldable pub note_flood : ℕ → Option ℕ → Context → Context
note_flood now none ctx = ctx
note_flood now (some seconds) ctx = record ctx {
  flood_until = some (now + seconds * 1000);
  flood_strikes = ctx.flood_strikes + 1;
  fast_until = if leb 2 (ctx.flood_strikes + 1) then none else ctx.fast_until;
}

module _ {W : Type 0} (tx : Connection W) (now monotonic : ℕ) where
  abbrev pub evict_approved : EvictArg → Result OpError (Unit {0}) → W → W × Reply Bool
  evict_approved arg (raise e) w = (w, thrown none)
  evict_approved arg (ok _) w = tx.evict_session w arg.hash

  abbrev pub evict_listed : PolicyAuthority → EvictArg → W × Reply (List Session) → W × Reply Bool
  evict_listed authority arg (w, thrown e) = (w, thrown e)
  evict_listed authority arg (w, returned roster) =
      evict_approved arg (assert_op_allowed authority evict_session (evict_request arg roster)) w

  -- The case `EVICT_SESSION`
  unfoldable pub dispatch_evict : PolicyAuthority → EvictArg → W → W × Reply Bool
  dispatch_evict authority arg w = evict_listed authority arg (tx.list_sessions w)

  abbrev pub settled : {A : Type 0} → Context → W × Reply A → (Context × W) × Option A
  settled ctx (w, returned a) = ((ctx, w), some a)
  settled ctx (w, thrown e) = ((note_flood now e ctx, w), none)

  unfoldable pub call_list : Context × W → (Context × W) × Option (List Session)
  call_list (ctx, w) =
      if is_refused now monotonic ctx then ((ctx, w), none) else settled ctx (tx.list_sessions w)

  unfoldable pub call_evict : Context × W → EvictArg → (Context × W) × Option Bool
  call_evict (ctx, w) arg =
      if is_refused now monotonic ctx
      then ((ctx, w), none)
      else settled ctx (dispatch_evict ctx.authority arg w)

  -- The gateway that the sweep calls.
  unfoldable pub in_process : Gateway (Context × W)
  in_process = record { list_sessions = call_list; evict_session = call_evict }
