-- ===== src/Chokepoint/Grants.antt =====
-- tg-chokepoint.mjs, `makeChokepoint`: what a connection's frames may be over its whole life, and
-- what its grant for an eviction allows.
use enclave_gateway.Base.{
  inr, inl, some, Bool-cases, All, String, subst, raise, true, List, ok, Result, none, All-mono,
  arith, Option, false, [], ◌∷◌, ◌∙◌, ◌≡◌, Bool, refl,
}
use enclave_gateway.Chokepoint.Check.{Hooks, assert_allowed, Blocked, is_valid}
use enclave_gateway.Chokepoint.Frame.{
  Mode, armed, onboarding, invalid, Frame, Ctor, is_onboarding_only, is_armed_only,
}
use enclave_gateway.Chokepoint.Ceiling.{
  Node, node, missing, Capability, reached, assert_allowed_iff,
}
use enclave_gateway.Chokepoint.Gate.{
  Gate, GateCall, gate_call, gate_after, gate_run, make_chokepoint, eff,
}

-- What a connection's mode rules out: the login constructors when armed, and those of an armed
-- account while onboarding.
abbrev pub FitsMode : Mode → Node → Type 0
FitsMode armed (node c ps h b) = is_onboarding_only c ≡ false
FitsMode onboarding (node c ps h b) = is_armed_only c ≡ false
FitsMode _ _ = ⊥

Capability-FitsMode :
    (hc : Bool) (mode : Mode) (hooks : Hooks) (n : Node)
    → is_valid mode ≡ true
    → Capability hc mode hooks n
    → FitsMode mode n
unfolding is_onboarding_only is_armed_only
Capability-FitsMode hc mode hooks missing v h = absurd h
Capability-FitsMode hc armed hooks (node c ps k b) v h = ground arith
Capability-FitsMode hc onboarding hooks (node c ps k b) v h = ground arith
Capability-FitsMode hc (invalid s) hooks (node c ps k b) v h = cc

-- An eviction that a node asks for is of the bound hash.
abbrev pub EvictsOnly : Option String → Node → Type 0
EvictsOnly bound (node Ctor.reset_authorization ps h b) = bound ≡ some h
EvictsOnly bound _ = Unit

Capability-EvictsOnly :
    (hc : Bool) (g : Gate) (extra : Hooks) (n : Node)
    → g.hooks.assert_evict_allowed ≡ none
    → extra.assert_evict_allowed ≡ none
    → Capability hc g.mode (eff g extra) n
    → EvictsOnly g.bound_evict n
unfolding eff
Capability-EvictsOnly hc g extra missing p q h = absurd h
Capability-EvictsOnly hc g extra (node c ps k b) p q h = ground arith

-- A call keeps the mode, and leaves the sent frames alone or adds the one that it checked.
data Sends (hc : Bool) (g : Gate) (c : GateCall) (g' : Gate) : Type 0 where
  quiet : g'.mode ≡ g.mode → g'.sent ≡ g.sent → Sends hc g c g'
  sends :
      (f : Frame) (extra : Hooks)
      → c ≡ GateCall.send f extra
      → g'.mode ≡ g.mode
      → assert_allowed hc g.mode (eff g extra) f ≡ ok tt
      → g'.sent ≡ f ∷ g.sent
      → Sends hc g c g'

gate_after-send :
    (hc : Bool) (g : Gate) (f : Frame) (extra : Hooks) (x : Result Blocked (Unit {0}))
    → assert_allowed hc g.mode (eff g extra) f ≡ x
    → Sends hc g (GateCall.send f extra) (gate_after hc g (GateCall.send f extra))
unfolding gate_after gate_call
gate_after-send hc g f extra (raise e) p = Sends.quiet (ground arith) (ground arith)
gate_after-send hc g f extra (ok u) p = elim (Bool-cases g.has_sender) [
  | inl has ↦ Sends.sends f extra refl (ground arith) (ground arith) (ground arith)
  | inr n ↦ Sends.quiet (ground arith) (ground arith)
]

gate_after-Sends : (hc : Bool) (g : Gate) (c : GateCall) → Sends hc g c (gate_after hc g c)
unfolding gate_after gate_call
gate_after-Sends hc g (GateCall.bind_evict h) = Sends.quiet refl refl
gate_after-Sends hc g (GateCall.bind_teardown on) = Sends.quiet refl refl
gate_after-Sends hc g (GateCall.assert_only f extra) = Sends.quiet (ground arith) (ground arith)
gate_after-Sends hc g (GateCall.bind_sender s) = Sends.quiet (ground arith) (ground arith)
gate_after-Sends hc g (GateCall.send f extra) = gate_after-send hc g f extra _ refl

-- Every frame that was sent fits the mode, with all that it carries.
pub record SentFits (hc : Bool) (mode : Mode) (g : Gate) : Type 0 where
  pub valid : is_valid mode ≡ true
  pub fixed : g.mode ≡ mode
  pub fits : All (λ f. All (FitsMode mode) (reached hc f)) g.sent

Sends-SentFits :
    {hc : Bool} {mode : Mode} {g : Gate} {c : GateCall} {g' : Gate}
    → Sends hc g c g'
    → SentFits hc mode g
    → SentFits hc mode g'
Sends-SentFits (Sends.quiet m s) v = record {
  valid = v.valid;
  fixed = m ∙ v.fixed;
  fits = rw s v.fits;
}
Sends-SentFits {hc} {mode} {g} (Sends.sends f extra is_send m passed s) v =
    let (_, permitted) = (assert_allowed_iff hc g.mode (eff g extra) f).0 passed in
    let fitting =
      All-mono _ (FitsMode g.mode)
        (λ n. Capability-FitsMode hc g.mode (eff g extra) n (rw v.fixed v.valid)) _ permitted in
    record {
      valid = v.valid;
      fixed = m ∙ v.fixed;
      fits = rw s (subst (λ k. All (FitsMode k) (reached hc f)) v.fixed fitting, v.fits);
    }

gate_run-SentFits :
    (hc : Bool) (mode : Mode) (g : Gate) (cs : List GateCall)
    → SentFits hc mode g
    → SentFits hc mode (gate_run hc g cs)
unfolding gate_run
gate_run-SentFits hc mode g [] v = v
gate_run-SentFits hc mode g (c ∷ cs) v =
    gate_run-SentFits hc mode (gate_after hc g c) cs (Sends-SentFits (gate_after-Sends hc g c) v)

made_sent :
    (mode : Mode) (hooks : Hooks) (g : Gate) → make_chokepoint mode hooks ≡ ok g → g.sent ≡ []
unfolding make_chokepoint
made_sent mode hooks g made = ground arith

-- Whatever is called on a chokepoint, its mode stays the one it was made with, and no frame that it
-- sends carries, at any depth, a login constructor when armed or an armed one while onboarding.
pub mode_partition :
    (hc : Bool) (mode : Mode) (hooks : Hooks) (g : Gate) (cs : List GateCall)
    → make_chokepoint mode hooks ≡ ok g
    → SentFits hc mode (gate_run hc g cs)
unfolding make_chokepoint
mode_partition hc mode hooks g cs made = gate_run-SentFits hc mode g cs (record {
  valid = ground arith;
  fixed = ground arith;
  fits = rw (made_sent mode hooks g made) tt;
})

-- With no other policy gate installed, a send that goes through evicts nothing but the hash that
-- was bound for it, whatever the frame wraps; with nothing bound it evicts nothing.
pub send-EvictsOnly :
    (hc : Bool) (g g' : Gate) (f : Frame) (extra : Hooks)
    → g.hooks.assert_evict_allowed ≡ none
    → extra.assert_evict_allowed ≡ none
    → gate_call hc g (GateCall.send f extra) ≡ ok g'
    → (g'.sent ≡ f ∷ g.sent) × All (EvictsOnly g.bound_evict) (reached hc f)
unfolding gate_call
send-EvictsOnly hc g g' f extra p q e =
    let passed : assert_allowed hc g.mode (eff g extra) f ≡ ok tt = ground arith in
    let (_, permitted) = (assert_allowed_iff hc g.mode (eff g extra) f).0 passed in
    (ground arith, All-mono _ _ (λ n. Capability-EvictsOnly hc g extra n p q) _ permitted)
