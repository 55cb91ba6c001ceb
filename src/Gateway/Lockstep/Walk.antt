-- ===== src/Gateway/Lockstep/Walk.antt =====
-- gateway.mjs, `reconcilePolicy`: what a round of the loop comes to, and the walk.
use enclave_gateway.Base.{
  ℕ, zero, suc, ◌+◌, ◌≤◌, Bool, true, false, List, String, Option, none, some, Result, ok, raise,
  if◌then◌else◌, ◌≡◌, refl, sym, ap, subst, ◌∙◌, ◌⊎◌, inl, inr, arith,
}
use enclave_gateway.Policy.Row.{Row}
use enclave_gateway.Policy.Chain.{ChainError, PolicyAuthority}
use enclave_gateway.Policy.Derive.{Derived, derive_authority-Derived}
use enclave_gateway.StateAuthority.Store.{StateRecord}
use enclave_gateway.Gateway.Intake.{
  Live, is_disconnect, by_version, up_to, Step, stopped, moved, anchor_at, derive_at, takes,
  swapped_step, advanced_step, next_step, continued, walk_head, Env,
}
use enclave_gateway.Gateway.Lockstep.Head.{by_version-version, Moves, advance_over-Moves}

unless_some :
    (b : Bool) (o : Option Row) (r : Row)
    → (if b then none else o) ≡ some r
    → (b ≡ false) × (o ≡ some r)
unless_some true o r e = cc
unless_some false o r e = (refl, e)

some_inj : (x y : Row) → ◌≡◌ {A = Option Row} (some x) (some y) → x ≡ y
some_inj x y e = ground arith

-- The stored head is at a version or one after it, which is the lead of a lost answer.
pub record Anchored (v : ℕ) (stored : StateRecord) : Type 0 where
  pub version : ℕ
  pub is_head : stored.policy_version ≡ some version
  pub not_behind : v ≤ version
  pub near : version ≤ v + 1

Anchored-here : (v : ℕ) (stored : StateRecord) → stored.policy_version ≡ some v → Anchored v stored
Anchored-here v stored e = record {
  version = v;
  is_head = e;
  not_behind = omega arith;
  near = omega arith;
}

Anchored-next :
    (v w : ℕ) (stored : StateRecord)
    → w ≡ v + 1
    → stored.policy_version ≡ some w
    → Anchored v stored
Anchored-next v w stored at e = record {
  version = w;
  is_head = e;
  not_behind = omega (arith, at);
  near = omega (arith, at);
}

module _ (env : Env) where
  -- An authority that the rows up to one of them derive, which disconnects nothing.
  pub record Enforces (rows : List Row) (r : Row) (a : PolicyAuthority) : Type 0 where
    pub listed : by_version r.version rows ≡ some r
    pub connected : is_disconnect r.action ≡ false
    pub derived :
        Derived env.date env.sha256 env.counts env.config (up_to r.version rows) (anchor_at env r) a

  -- The state after a walk from a version: the authority is the same, or that of the version
  -- reached, and the stored head is there.
  pub record Follows (rows : List Row) (v : ℕ) (s : Live) (end : ℕ × Live) : Type 0 where
    pub grows : v ≤ end.0
    pub enforced :
        ((end.0 ≡ v) × (end.1.authority ≡ s.authority))
        ⊎ ((r : Row) × (r.version ≡ end.0) × Enforces rows r end.1.authority)
    pub anchored : Anchored end.0 end.1.stored

  -- What a round comes to.
  abbrev pub RoundFits : List Row → ℕ → Live → Step → Type 0
  RoundFits rows v s (stopped s') = (s'.authority ≡ s.authority) × Anchored v s'.stored
  RoundFits rows v s (moved r s') =
      (r.version ≡ v + 1)
      × Enforces rows r s'.authority
      × (s'.stored.policy_version ≡ some r.version)

  takes_sound :
      (o : Option Row) (r : Row)
      → takes env o ≡ some r
      → (o ≡ some r) × (is_disconnect r.action ≡ false)
  takes_sound none r e = cc
  takes_sound (some x) r e =
      let (connected, e) = unless_some (is_disconnect x.action) _ r e in
      let (_, e) = unless_some _ (some x) r e in
      (e, ap (λ y. is_disconnect y.action) (sym (some_inj x r e)) ∙ connected)

  -- The swap after the head was moved to a row: a chain up to a verified row derives its authority.
  swapped_step-RoundFits :
      (rows : List Row) (v : ℕ) (r : Row) (s m : Live) (a : Result ChainError PolicyAuthority)
      → derive_at env rows r ≡ a
      → r.version ≡ v + 1
      → by_version r.version rows ≡ some r
      → is_disconnect r.action ≡ false
      → m.authority ≡ s.authority
      → m.stored.policy_version ≡ some r.version
      → RoundFits rows v s (swapped_step env r m a)
  swapped_step-RoundFits rows v r s m (raise x) d at listed connected same there =
      (same, Anchored-next v r.version _ at there)
  swapped_step-RoundFits rows v r s m (ok a) d at listed connected same there = (
    at,
    record {
      listed = listed;
      connected = connected;
      derived =
          derive_authority-Derived env.date env.sha256 env.counts env.config (up_to r.version rows)
            _ a d;
    },
    there,
  )

  advanced_step-RoundFits :
      (rows : List Row) (v : ℕ) (r : Row) (s : Live) (d : StateRecord × Bool)
      → Moves s.stored r.version d
      → s.stored.policy_version ≡ some v
      → r.version ≡ v + 1
      → by_version r.version rows ≡ some r
      → is_disconnect r.action ≡ false
      → RoundFits rows v s (advanced_step env rows r s d)
  advanced_step-RoundFits rows v r s (stored, false) h start at listed connected = (
    refl,
    elim h.at [
      | inl e ↦ Anchored-here v _ (ap (λ x. x.policy_version) e ∙ start)
      | inr e ↦ Anchored-next v r.version _ at e
    ],
  )
  advanced_step-RoundFits rows v r s (stored, true) h start at listed connected =
      swapped_step-RoundFits rows v r s (record s { stored = stored }) _ refl at listed connected
        refl (h.seen refl)

  next_step-RoundFits :
      (rows : List Row) (n v : ℕ) (h : String) (s : Live) (o : Option Row)
      → s.stored.policy_version ≡ some v
      → ((r : Row)
          → o ≡ some r
          → (by_version (v + 1) rows ≡ some r) × (is_disconnect r.action ≡ false))
      → RoundFits rows v s (next_step env rows n v h s o)
  next_step-RoundFits rows n v h s none start found = (refl, Anchored-here v _ start)
  next_step-RoundFits rows n v h s (some r) start found =
      let (listed, connected) = found r refl in
      let at = by_version-version (v + 1) rows r listed in
      advanced_step-RoundFits rows v r s _
        (advance_over-Moves (env.network n) env.holder env.generation v h r.version _ s.stored)
        start at (subst (λ x. by_version x rows ≡ some r) (sym at) listed) connected

  Follows-next :
      (rows : List Row) (v : ℕ) (s m : Live) (r : Row) (end : ℕ × Live)
      → r.version ≡ v + 1
      → Enforces rows r m.authority
      → Follows rows r.version m end
      → Follows rows v s end
  Follows-next rows v s m r end at e f = record {
    grows = omega (arith, at, f.grows);
    enforced = inr (elim f.enforced [
      | inl (same, kept) ↦ (r, sym same, subst (Enforces rows r) (sym kept) e)
      | inr x ↦ x
    ]);
    anchored = f.anchored;
  }

  continued-Follows :
      (rows : List Row) (v : ℕ) (s : Live) (k : ℕ → String → Live → ℕ × Live) (st : Step)
      → RoundFits rows v s st
      → ((w : ℕ) (h : String) (m : Live)
          → m.stored.policy_version ≡ some w
          → Follows rows w m (k w h m))
      → Follows rows v s (continued env v k st)
  continued-Follows rows v s k (stopped m) (same, anchored) go = record {
    grows = omega arith;
    enforced = inl (refl, same);
    anchored = anchored;
  }
  continued-Follows rows v s k (moved r m) (at, e, there) go =
      Follows-next rows v s m r _ at e (go r.version _ m there)

  -- A walk from the stored head.
  pub walk_head-Follows :
      (rows : List Row) (n v : ℕ) (h : String) (s : Live)
      → s.stored.policy_version ≡ some v
      → Follows rows v s (walk_head env rows n v h s)
  unfolding walk_head
  walk_head-Follows rows zero v h s start = record {
    grows = omega arith;
    enforced = inl (refl, refl);
    anchored = Anchored-here v _ start;
  }
  walk_head-Follows rows (suc n) v h s start =
      continued-Follows rows v s _ _
        (next_step-RoundFits rows n v h s _ start
          (λ r e. takes_sound (by_version (v + 1) rows) r e))
        (walk_head-Follows rows n)
