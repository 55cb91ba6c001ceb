-- ===== src/Gateway/Signed.antt =====
-- gateway.mjs, `reconcileDisconnect`: the guard is signed out on a verified chain only.
use enclave_gateway.Base.{
  Bool, true, false, List, ◌∷◌, String, Option, none, some, Result, ok, raise, ℕ, ◌≡◌, refl, arith,
  ◌⊎◌, inl, inr, Bool-cases,
}
use enclave_gateway.Policy.Row.{Row}
use enclave_gateway.Policy.Chain.{ChainError, PolicyAuthority, sort_rows}
use enclave_gateway.Policy.Derive.{Derived, derive_authority-Derived}
use enclave_gateway.Policy.Ops.{OpError, logout_self, assert_op_allowed, assert_op}
use enclave_gateway.StateAuthority.Store.{
  StateRecord, AuthorityError, Phase, armed, terminal, is_terminal, mark_terminal,
}
use enclave_gateway.Gateway.Intake.{
  Env, Probe, Delivery, delivered, request_lost, answer_lost, answered, is_disconnect, last_row,
}
use enclave_gateway.Gateway.Disconnect.{
  Course, Leaving, Effect, logging_out, finalizing, dropped, no_arg, finalized, logged_out, gated,
  reason_at, terminalize, after_logout, signed_out, disconnect_anchor, with_state, at_disconnect,
  with_chain, probed, reconcile_disconnect,
}

-- The finalization that throws, or that is followed by the drop.
pub data Finalization (f : Result String (Unit {0})) (before : List Effect)
    : Bool → List Effect → Type 0 where
  failed : (e : String) → f ≡ raise e → Finalization f before false (finalizing ∷ before)
  done : f ≡ ok tt → Finalization f before true (dropped ∷ finalizing ∷ before)

module _ (env : Env) where
  -- What a sign-out rests on: a chain that was read, which derives an authority at its head, a
  -- disconnect.
  pub record Warrant (q : Course) (a : PolicyAuthority) : Type 0 where
    pub rows : List Row
    pub read : q.rows ≡ ok rows
    pub head : Row
    pub last : last_row (sort_rows rows) ≡ some head
    pub disconnects : is_disconnect head.action ≡ true
    pub verified :
        Derived env.date env.sha256 env.counts env.config rows (disconnect_anchor env head) a

  -- How a run ends: with nothing done; with the finalization alone, where the record was terminal;
  -- with the gate's refusal; with a sign-out that throws; or with one that does not, after which the
  -- account is finalized.
  pub data Ending (q : Course) (s : Leaving) : Bool × Leaving → Type 0 where
    idle : Ending q s (false, s)
    finalized_only :
        (b : Bool) (es : List Effect)
        → is_terminal s.stored.phase ≡ true
        → Finalization q.finalize s.effects b es
        → Ending q s (b, record s { effects = es })
    refused : (a : PolicyAuthority) → Warrant q a → Ending q s (false, record s { authority = a })
    not_left :
        (a : PolicyAuthority) (e : String)
        → Warrant q a
        → a.disconnected ≡ true
        → q.logout ≡ raise e
        → Ending q s
            (false, record { authority = a; stored = s.stored; effects = logging_out ∷ s.effects })
    left :
        (a : PolicyAuthority) (r : StateRecord) (gone b : Bool) (es : List Effect)
        → Warrant q a
        → a.disconnected ≡ true
        → q.logout ≡ ok gone
        → (r ≡ s.stored) ⊎ (r.phase ≡ terminal)
        → Finalization q.finalize (logging_out ∷ s.effects) b es
        → Ending q s (b, record { authority = a; stored = r; effects = es })

  gate_disconnected :
      (a : PolicyAuthority) → assert_op_allowed a logout_self no_arg ≡ ok tt → a.disconnected ≡ true
  unfolding assert_op_allowed assert_op
  gate_disconnected a e = ground (arith, e)

  mark_terminal-phase :
      (holder : String) (epoch : ℕ) (p : Phase) (reason : Option String) (v : Option ℕ)
      (h : Option String) (r s : StateRecord)
      → mark_terminal holder epoch p reason v h r ≡ ok s
      → s.phase ≡ terminal
  unfolding mark_terminal
  mark_terminal-phase holder epoch p reason v h r s e = ground (arith, e)

  answered-phase :
      (r : StateRecord) (d : Result AuthorityError StateRecord)
      → ((s : StateRecord) → d ≡ ok s → s.phase ≡ terminal)
      → ((answered true r d).0 ≡ r) ⊎ ((answered true r d).0.phase ≡ terminal)
  answered-phase r (ok s) h = inr (h s refl)
  answered-phase r (raise e) h = inl refl

  terminalize-phase :
      (d : Delivery) (reason : String) (r : StateRecord)
      → (terminalize env d reason r ≡ r) ⊎ ((terminalize env d reason r).phase ≡ terminal)
  unfolding terminalize
  terminalize-phase request_lost reason r = inl refl
  terminalize-phase answer_lost reason r = answered-phase r _ (
      mark_terminal-phase env.holder env.generation armed (some reason) r.policy_version
        r.policy_head_hash r)
  terminalize-phase delivered reason r = answered-phase r _ (
      mark_terminal-phase env.holder env.generation armed (some reason) r.policy_version
        r.policy_head_hash r)

  finalized-left :
      (q : Course) (s : Leaving) (a : PolicyAuthority) (r : StateRecord) (gone : Bool)
      (f : Result String (Unit {0}))
      → q.finalize ≡ f
      → Warrant q a
      → a.disconnected ≡ true
      → q.logout ≡ ok gone
      → (r ≡ s.stored) ⊎ (r.phase ≡ terminal)
      → Ending q s
          (finalized q (record { authority = a; stored = r; effects = logging_out ∷ s.effects }) f)
  finalized-left q s a r gone (raise e) h w d l at = left a r gone false _ w d l at (failed e h)
  finalized-left q s a r gone (ok _) h w d l at = left a r gone true _ w d l at (done h)

  logged_out-Ending :
      (q : Course) (s : Leaving) (head : Row) (a : PolicyAuthority) (l : Result String Bool)
      → Warrant q a
      → a.disconnected ≡ true
      → q.logout ≡ l
      → Ending q s (after_logout env q head (logged_out (record s { authority = a }) l))
  logged_out-Ending q s head a (raise e) w d l = not_left a e w d l
  logged_out-Ending q s head a (ok gone) w d l =
      finalized-left q s a _ gone q.finalize refl w d l
        (terminalize-phase q.marking (reason_at env head) s.stored)

  gated-Ending :
      (q : Course) (s : Leaving) (head : Row) (a : PolicyAuthority) (g : Result OpError (Unit {0}))
      → Warrant q a
      → assert_op_allowed a logout_self no_arg ≡ g
      → Ending q s (after_logout env q head (gated q (record s { authority = a }) g))
  gated-Ending q s head a (raise e) w h = refused a w
  gated-Ending q s head a (ok _) w h =
      logged_out-Ending q s head a q.logout w (gate_disconnected a h) refl

  signed_out-Ending :
      (q : Course) (s : Leaving) (head : Row) (d : Result ChainError PolicyAuthority)
      → ((a : PolicyAuthority) → d ≡ ok a → Warrant q a)
      → Ending q s (signed_out env q s head d)
  signed_out-Ending q s head (raise e) w = idle
  signed_out-Ending q s head (ok a) w = elim (Bool-cases q.passes) [
    | inl e ↦ simp e (gated-Ending q s head a _ (w a refl) refl)
    | inr e ↦ simp e (refused a (w a refl))
  ]

  finalized_only-Ending :
      (q : Course) (s : Leaving) (f : Result String (Unit {0}))
      → q.finalize ≡ f
      → is_terminal s.stored.phase ≡ true
      → Ending q s (finalized q s f)
  finalized_only-Ending q s (raise e) h t = finalized_only false _ t (failed e h)
  finalized_only-Ending q s (ok _) h t = finalized_only true _ t (done h)

  with_state-Ending :
      (q : Course) (s : Leaving) (rows : List Row) (head : Row) (r : Result String (Unit {0}))
      → q.rows ≡ ok rows
      → last_row (sort_rows rows) ≡ some head
      → is_disconnect head.action ≡ true
      → Ending q s (with_state env q s rows head r)
  with_state-Ending q s rows head (raise e) read last d = idle
  with_state-Ending q s rows head (ok _) read last d =
      elim (Bool-cases (is_terminal s.stored.phase)) [
        | inl e ↦ rw e (finalized_only-Ending q s q.finalize refl e)
        | inr e ↦ rw e (
            signed_out-Ending q s head _ (λ a v. record {
              rows = rows;
              read = read;
              head = head;
              last = last;
              disconnects = d;
              verified =
                  derive_authority-Derived env.date env.sha256 env.counts env.config rows
                    (disconnect_anchor env head) a v;
            }))
      ]

  at_disconnect-Ending :
      (q : Course) (s : Leaving) (rows : List Row) (o : Option Row)
      → q.rows ≡ ok rows
      → last_row (sort_rows rows) ≡ o
      → Ending q s (at_disconnect env q s rows o)
  at_disconnect-Ending q s rows none read last = idle
  at_disconnect-Ending q s rows (some head) read last =
      elim (Bool-cases (is_disconnect head.action)) [
        | inl e ↦ rw e (with_state-Ending q s rows head q.read read last e)
        | inr e ↦ rw e idle
      ]

  with_chain-Ending :
      (q : Course) (s : Leaving) (r : Result String (List Row))
      → q.rows ≡ r
      → Ending q s (with_chain env q s r)
  with_chain-Ending q s (raise e) read = idle
  with_chain-Ending q s (ok rows) read = at_disconnect-Ending q s rows _ read refl

  probed-Ending :
      (q : Course) (s : Leaving) (r : Result String (Option Probe)) → Ending q s (probed env q s r)
  probed-Ending q s (raise e) = idle
  probed-Ending q s (ok none) = idle
  probed-Ending q s (ok (some p)) = elim (Bool-cases (is_disconnect p.action)) [
    | inl e ↦ elim (Bool-cases q.is_adopted) [
      | inl f ↦ simp (e, f) (with_chain-Ending q s q.rows refl)
      | inr f ↦ simp (e, f) idle
    ]
    | inr e ↦ rw e idle
  ]

  -- Whatever is read and answered, a run of `reconcileDisconnect` on a served account does nothing;
  -- or it finalizes, where the record is terminal; or the whole chain that was read ends in a
  -- disconnect and derives an authority, which is enforced from then on. In the last case the guard
  -- is signed out only where that authority is disconnected, the record stays or becomes terminal,
  -- the account is finalized only after a sign-out that did not throw, and it is dropped only after a
  -- finalization that did not throw.
  pub reconcile_disconnect-Ending :
      (q : Course) (s : Leaving) → Ending q s (reconcile_disconnect env q s)
  unfolding reconcile_disconnect
  reconcile_disconnect-Ending q s = probed-Ending q s q.probe
