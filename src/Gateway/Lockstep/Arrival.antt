-- ===== src/Gateway/Lockstep/Arrival.antt =====
-- gateway.mjs, `reconcilePolicy`: while the lease is held and the network loses nothing, the walk
-- arrives at the head of the chain.
use enclave_gateway.Base.{
  ℕ, zero, suc, ◌+◌, ◌≤◌, ◌<◌, false, List, String, some, ok, ◌≡◌, refl, ap, subst, ◌∙◌, arith,
  eqs_refl, same?, ◌&&◌, not,
}
use enclave_gateway.Policy.Row.{Row, given}
use enclave_gateway.Policy.Chain.{PolicyAuthority}
use enclave_gateway.StateAuthority.Store.{StateRecord, Phase, compare_and_advance}
use enclave_gateway.Gateway.Intake.{
  Env, Live, delivered, by_version, hash_of, is_disconnect, takes, walk_head, advance_over,
}
use enclave_gateway.Gateway.Lockstep.Stages.{Stage}

-- The record after the head was moved to a row.
abbrev pub headed : StateRecord → ℕ → String → StateRecord
headed s version hash = record s { policy_version = some version; policy_head_hash = some hash }

module _ (env : Env) where
  -- The lease is held, and the record is armed at a head.
  pub record Held (v : ℕ) (h : String) (s : StateRecord) : Type 0 where
    pub armed : s.phase ≡ Phase.armed
    pub holder : s.lease_holder ≡ some env.holder
    pub generation : s.lease_epoch ≡ env.generation
    pub version : s.policy_version ≡ some v
    pub hash : s.policy_head_hash ≡ some h

  -- A row that the walk does not stop at.
  pub record Passable (r : Row) : Type 0 where
    pub connected : is_disconnect r.action ≡ false
    pub hash : (given r.core_hash && not (same? r.core_hash (hash_of env r))) ≡ false

  takes-Passable : (r : Row) → Passable r → takes env (some r) ≡ some r
  takes-Passable r p = rw (p.connected, p.hash) refl

  Held-headed : (v w : ℕ) (h k : String) (s : StateRecord) → Held v h s → Held w k (headed s w k)
  Held-headed v w h k s held = record {
    armed = held.armed;
    holder = held.holder;
    generation = held.generation;
    version = refl;
    hash = refl;
  }

  compare_and_advance-Held :
      (v : ℕ) (h : String) (s : StateRecord) (next : ℕ) (hash : String)
      → Held v h s
      → v < next
      → compare_and_advance env.holder env.generation v h next hash s ≡ ok (headed s next hash)
  unfolding compare_and_advance
  compare_and_advance-Held v h s next hash held lt =
      let own = eqs_refl env.holder in let same = eqs_refl h in ground (arith, own, same, lt)

  -- The state at a row: its authority is enforced, and the stored head is there.
  abbrev pub arrived : Live → Row → PolicyAuthority → ℕ → Live
  arrived s r a version = record { authority = a; stored = headed s.stored version (hash_of env r) }

  round :
      (rows : List Row) (n v w : ℕ) (h : String) (s : Live) (stage : Stage env rows w)
      → w ≡ v + 1
      → Held v h s.stored
      → Passable stage.row
      → env.network n ≡ delivered
      → walk_head env rows (suc n) v h s
        ≡ walk_head env rows n w (hash_of env stage.row) (arrived s stage.row stage.authority w)
  unfolding walk_head advance_over
  round rows n v w h s stage next held pass lossless =
      let taken : takes env (by_version (v + 1) rows) ≡ some stage.row =
        subst (λ x. takes env (by_version x rows) ≡ some stage.row) next
          (ap (takes env) stage.listed ∙ takes-Passable stage.row pass) in
      let advanced =
        compare_and_advance-Held v h s.stored stage.row.version (hash_of env stage.row) held
          (omega (arith, stage.version, next)) in
      rw (taken, lossless, advanced, stage.derived)
        (ap
          (λ x.
            walk_head env rows n x (hash_of env stage.row) (arrived s stage.row stage.authority x))
          stage.version)

  -- From a head that is behind, over rows that do not stop it, the walk ends at the last stage.
  pub walk_head-arrives :
      (rows : List Row) (n v t : ℕ) (h : String) (s : Live) (last : Stage env rows t)
      → v + suc n ≡ t
      → Held v h s.stored
      → ((k : ℕ) → env.network k ≡ delivered)
      → ((w : ℕ) (r : Row) → v < w → by_version w rows ≡ some r → Passable r)
      → ((w : ℕ) → v < w → w ≤ t → Stage env rows w)
      → walk_head env rows (suc n) v h s ≡ (t, arrived s last.row last.authority t)
  unfolding walk_head
  walk_head-arrives rows zero v t h s last end held lossless pass stages =
      round rows 0 v t h s last (omega (arith, end)) held
        (pass t last.row (omega (arith, end)) last.listed) (lossless 0)
  walk_head-arrives rows (suc n) v t h s last end held lossless pass stages =
      let stage = stages (v + 1) (omega arith) (omega (arith, end)) in
      round rows (suc n) v (v + 1) h s stage refl held
        (pass (v + 1) stage.row (omega arith) stage.listed) (lossless (suc n))
      ∙ walk_head-arrives rows n (v + 1) t (hash_of env stage.row)
          (arrived s stage.row stage.authority (v + 1)) last (omega (arith, end))
          (Held-headed v (v + 1) h (hash_of env stage.row) s.stored held) lossless
          (λ w r lt e. pass w r (omega (arith, lt)) e) (λ w lt le. stages w (omega (arith, lt)) le)
