-- ===== src/Chokepoint/Gate.antt =====
-- tg-chokepoint.mjs, `makeChokepoint`: one chokepoint per connection, with its mode fixed at
-- construction, its grants for one privileged operation, and the frames it has let through.
use enclave_gateway.Base.{
  not, throw_if, ◌>>◌, [], ◌∷◌, if◌then◌else◌, same?, raise, ◌∷◌, false, String, ◌||◌, true, none,
  some, List, Result, Option, ok, Bool,
}
use enclave_gateway.Chokepoint.Check.{flag_set, Hooks, assert_allowed, Blocked, is_valid}
use enclave_gateway.Chokepoint.Frame.{Mode, Frame}

pub data GateError : Type 0 where
  bad_mode sender_already_bound not_a_sender no_sender_bound : GateError
  blocked : Blocked → GateError

-- `sent` holds what `SENDER.send` was given, the latest first.
pub record Gate : Type 0 where
  pub mode : Mode
  pub hooks : Hooks
  pub has_sender : Bool
  pub bound_evict : Option String
  pub bound_teardown : Bool
  pub sent : List Frame

unfoldable pub make_chokepoint : Mode → Hooks → Result GateError Gate
make_chokepoint mode hooks = do
  throw_if (not (is_valid mode)) bad_mode
  ok (record {
    mode = mode;
    hooks = hooks;
    has_sender = false;
    bound_evict = none;
    bound_teardown = false;
    sent = [];
  })

-- A property of `{ ...base, ...extra }`.
abbrev pub override {ℓ} : {A : Type ℓ} → Option A → Option A → Option A
override base none = base
override base (some x) = some x

-- The gate that `eff` installs: the bound hash passes, and the caller's own gate decides the rest.
abbrev pub evict_gate : Option String → Option (String → Bool) → String → Bool
evict_gate bound none hash = same? bound hash
evict_gate bound (some user) hash = if same? bound hash then true else user hash

unfoldable pub eff : Gate → Hooks → Hooks
eff g extra = record {
  assert_evict_allowed =
      some (
        evict_gate g.bound_evict
          (override g.hooks.assert_evict_allowed extra.assert_evict_allowed));
  onboarding_teardown = some (
      g.bound_teardown
      || flag_set (override g.hooks.onboarding_teardown extra.onboarding_teardown));
}

abbrev pub from_check : Result Blocked (Unit {0}) → Result GateError (Unit {0})
from_check (ok _) = ok tt
from_check (raise e) = raise (blocked e)

-- The calls on the frozen object; a sender that is bound either is one or is not.
pub data GateCall : Type 0 where
  bind_evict : Option String → GateCall
  bind_teardown : Bool → GateCall
  assert_only : Frame → Hooks → GateCall
  bind_sender : Bool → GateCall
  send : Frame → Hooks → GateCall

unfoldable pub gate_call : Bool → Gate → GateCall → Result GateError Gate
unfolding eff
gate_call hc g (bind_evict hash) = ok (record g { bound_evict = hash })
gate_call hc g (bind_teardown on) = ok (record g { bound_teardown = on })
gate_call hc g (assert_only f extra) = do
  from_check (assert_allowed hc g.mode (eff g extra) f)
  ok g
gate_call hc g (bind_sender is_sender) = do
  throw_if g.has_sender sender_already_bound
  throw_if (not is_sender) not_a_sender
  ok (record g { has_sender = true })
gate_call hc g (send f extra) = do
  throw_if (not g.has_sender) no_sender_bound
  from_check (assert_allowed hc g.mode (eff g extra) f)
  ok (record g { sent = f ∷ g.sent })

-- A call that throws changes nothing.
unfoldable pub gate_after : Bool → Gate → GateCall → Gate
gate_after hc g c = elim (gate_call hc g c) [ ok g' ↦ g' | raise _ ↦ g ]

unfoldable pub gate_run : Bool → Gate → List GateCall → Gate
gate_run hc g [] = g
gate_run hc g (c ∷ cs) = gate_run hc (gate_after hc g c) cs
