-- ===== src/Gateway/Lockstep.antt =====
-- The authority that the gateway enforces follows the State Authority's head.
use enclave_gateway.Base.{
  ◌↔◌, ◌≢◌, ◌%◌, ◌/◌, ◌*◌, ◌>>◌, ◌>>=◌, ◌<◌, ◌||◌, ◌&&◌, ◌++◌, ℕ, zero, suc, ◌+◌, ◌-◌, ◌≤◌, Bool,
  true, false, List, [], ◌∷◌, String, Option, none, some, Result, ok, raise, ◌==◌, if◌then◌else◌,
  ◌≡◌, refl, sym, ap, subst, ◌∙◌, ◌⊎◌, inl, inr, arith, Bool-cases, Option-cases,
}
use enclave_gateway.Policy.Json.{Value}
use enclave_gateway.Policy.Row.{Row, Config, Signature}
use enclave_gateway.Policy.Chain.{ChainError, PolicyAuthority, sort_rows, derive_authority}
use enclave_gateway.Policy.Derive.{Derived, derive_authority-Derived}
use enclave_gateway.StateAuthority.Store.{
  StateRecord, AuthorityError, is_armed, compare_and_advance,
}
use enclave_gateway.Gateway.Intake.{
  Delivery, delivered, request_lost, answer_lost, Live, Probe, Readings, is_disconnect, by_version,
  up_to, answered, advance_over, Step, stopped, moved, anchor_at, derive_at, takes, swapped_step,
  advanced_step, next_step, continued, walk_head, walk_from, if_verified, passed_over, with_record,
  with_head, with_rows, with_probe, reconcile_policy, Env, derive,
}
use enclave_gateway.Gateway.Lockstep.Walk.{Enforces, Anchored, Follows, walk_head-Follows}
pub mod Head
pub mod Walk
pub mod Prefix
pub mod Reach
pub mod Stages
pub mod Arrival
pub mod Enforced

nat_inj : (x y : ℕ) → ◌≡◌ {A = Option ℕ} (some x) (some y) → x ≡ y
nat_inj x y e = ground arith

module _ (env : Env) where
  -- The authority that is enforced is not ahead of the stored head.
  pub record InStep (s : Live) : Type 0 where
    pub version : ℕ
    pub is_head : s.stored.policy_version ≡ some version
    pub not_ahead : s.authority.head_version ≤ version

  -- A new authority: the whole chain that was read derives one at its head, and the rows up to a row
  -- that disconnects nothing derive this one; the stored head is at that row or one after it.
  pub record Swapped (q : Readings) (s' : Live) : Type 0 where
    pub rows : List Row
    pub read : q.rows ≡ ok rows
    pub head : Row
    pub whole : PolicyAuthority
    pub verified : Derived env.date env.sha256 env.counts env.config rows (anchor_at env head) whole
    pub row : Row
    pub enforced : Enforces env (sort_rows rows) row s'.authority
    pub anchored : Anchored row.version s'.stored

  abbrev pub Reconciled : Readings → Live → Live → Type 0
  Reconciled q s s' = InStep s' × ((s'.authority ≡ s.authority) ⊎ Swapped q s')

  same-Reconciled : (q : Readings) (s : Live) → InStep s → Reconciled q s s
  same-Reconciled q s i = (i, inl refl)

  Enforces-version :
      (rows : List Row) (r : Row) (a : PolicyAuthority)
      → Enforces env rows r a
      → a.head_version ≡ r.version
  Enforces-version rows r a e = let d = e.derived in d.version ∙ sym (d.anchored _ refl)

  -- A walk that ends where it started.
  kept-InStep :
      (s m : Live) (v : ℕ)
      → InStep s
      → s.stored.policy_version ≡ some v
      → m.authority ≡ s.authority
      → Anchored v m.stored
      → InStep m
  kept-InStep s m v i start kept at = record {
    version = at.version;
    is_head = at.is_head;
    not_ahead =
        subst (λ a. a.head_version ≤ at.version) (sym kept)
          (omega (arith, i.not_ahead, nat_inj i.version v (sym i.is_head ∙ start), at.not_behind));
  }

  -- A walk that enforces a row.
  enforced-InStep :
      (rows : List Row) (r : Row) (m : Live)
      → Enforces env rows r m.authority
      → Anchored r.version m.stored
      → InStep m
  enforced-InStep rows r m e at = record {
    version = at.version;
    is_head = at.is_head;
    not_ahead = omega (arith, Enforces-version rows r m.authority e, at.not_behind);
  }

  walked-Reconciled :
      (q : Readings) (rows : List Row) (head : Row) (whole : PolicyAuthority) (s : Live) (v : ℕ)
      (end : ℕ × Live)
      → q.rows ≡ ok rows
      → Derived env.date env.sha256 env.counts env.config rows (anchor_at env head) whole
      → InStep s
      → s.stored.policy_version ≡ some v
      → Follows env (sort_rows rows) v s end
      → Reconciled q s end.1
  walked-Reconciled q rows head whole s v end read verified i start f = elim f.enforced [
    | inl (same, kept) ↦ (
      kept-InStep s end.1 v i start kept (subst (λ x. Anchored x end.1.stored) same f.anchored),
      inl kept,
    )
    | inr (r, reached, e) ↦
        let at = subst (λ x. Anchored x end.1.stored) (sym reached) f.anchored in
        (
          enforced-InStep (sort_rows rows) r end.1 e at,
          inr (record {
            rows = rows;
            read = read;
            head = head;
            whole = whole;
            verified = verified;
            row = r;
            enforced = e;
            anchored = at;
          }),
        )
  ]

  walk_from-Reconciled :
      (q : Readings) (rows : List Row) (head : Row) (whole : PolicyAuthority) (s : Live)
      (v : Option ℕ) (h : Option String)
      → q.rows ≡ ok rows
      → Derived env.date env.sha256 env.counts env.config rows (anchor_at env head) whole
      → InStep s
      → s.stored.policy_version ≡ v
      → Reconciled q s (walk_from env (sort_rows rows) head s v h).1
  walk_from-Reconciled q rows head whole s (some v) (some h) read verified i start =
      walked-Reconciled q rows head whole s v _ read verified i start
        (walk_head-Follows env (sort_rows rows) (head.version - v) v h s start)
  walk_from-Reconciled q rows head whole s none h read verified i start = same-Reconciled q s i
  walk_from-Reconciled q rows head whole s (some v) none read verified i start =
      same-Reconciled q s i

  if_verified-Reconciled :
      (q : Readings) (rows : List Row) (head : Row) (s : Live)
      (a : Result ChainError PolicyAuthority)
      → q.rows ≡ ok rows
      → derive env rows (anchor_at env head) ≡ a
      → InStep s
      → Reconciled q s (if_verified env (sort_rows rows) head s a).1
  if_verified-Reconciled q rows head s (raise e) read d i = same-Reconciled q s i
  if_verified-Reconciled q rows head s (ok a) read d i =
      walk_from-Reconciled q rows head a s _ _ read
        (derive_authority-Derived env.date env.sha256 env.counts env.config rows _ a d) i refl

  with_record-Reconciled :
      (q : Readings) (rows : List Row) (head : Row) (s : Live) (r : Result String (Unit {0}))
      → q.rows ≡ ok rows
      → InStep s
      → Reconciled q s (with_record env rows head s r).1
  with_record-Reconciled q rows head s (raise e) read i = same-Reconciled q s i
  with_record-Reconciled q rows head s (ok _) read i = elim (Bool-cases (is_armed s.stored.phase)) [
    | inl e ↦ rw e (if_verified-Reconciled q rows head s _ read refl i)
    | inr e ↦ rw e (same-Reconciled q s i)
  ]

  with_head-Reconciled :
      (q : Readings) (rows : List Row) (s : Live) (o : Option Row)
      → q.rows ≡ ok rows
      → InStep s
      → Reconciled q s (with_head env rows q s o).1
  with_head-Reconciled q rows s none read i = same-Reconciled q s i
  with_head-Reconciled q rows s (some head) read i =
      elim (Bool-cases (passed_over env s.authority head.version head.action)) [
        | inl e ↦ rw e (same-Reconciled q s i)
        | inr e ↦ rw e (with_record-Reconciled q rows head s q.read read i)
      ]

  with_rows-Reconciled :
      (q : Readings) (s : Live) (r : Result String (List Row))
      → q.rows ≡ r
      → InStep s
      → Reconciled q s (with_rows env q s r).1
  with_rows-Reconciled q s (raise e) read i = same-Reconciled q s i
  with_rows-Reconciled q s (ok rows) read i = with_head-Reconciled q rows s _ read i

  with_probe-Reconciled :
      (q : Readings) (s : Live) (r : Result String (Option Probe))
      → InStep s
      → Reconciled q s (with_probe env q s r).1
  with_probe-Reconciled q s (raise e) i = same-Reconciled q s i
  with_probe-Reconciled q s (ok none) i = same-Reconciled q s i
  with_probe-Reconciled q s (ok (some p)) i =
      elim (Bool-cases (passed_over env s.authority p.version p.action)) [
        | inl e ↦ rw e (same-Reconciled q s i)
        | inr e ↦ rw e (with_rows-Reconciled q s q.rows refl i)
      ]

  -- Whatever is read, and whatever the network loses: where the authority that is enforced is not
  -- ahead of the stored head, it is not ahead of it after `reconcilePolicy`; and it is the same one,
  -- or the whole chain that was read derives an authority at its head, the rows up to a row that
  -- disconnects nothing derive this one, and the stored head is at that row or one after it.
  pub reconcile_policy-Reconciled :
      (q : Readings) (s : Live) → InStep s → Reconciled q s (reconcile_policy env q s).1
  unfolding reconcile_policy
  reconcile_policy-Reconciled q s i = with_probe-Reconciled q s q.probe i
