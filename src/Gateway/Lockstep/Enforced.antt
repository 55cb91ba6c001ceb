-- ===== src/Gateway/Lockstep/Enforced.antt =====
-- gateway.mjs, `reconcilePolicy`: a new policy is enforced.
use enclave_gateway.Base.{
  ℕ, ◌+◌, ◌-◌, ◌<◌, true, false, List, [], ◌∷◌, String, Option, none, some, ok, length, ◌≡◌, refl,
  sym, ap, subst, ◌∙◌, arith, >>=-eq-ok,
}
use enclave_gateway.Policy.Row.{Row}
use enclave_gateway.Policy.Chain.{
  PolicyAuthority, walk, walk_all, sort_rows, derive_authority, at_head,
}
use enclave_gateway.Policy.Derive.{derive_authority-Derived, length-sort_rows}
use enclave_gateway.StateAuthority.Store.{is_armed}
use enclave_gateway.Gateway.Intake.{
  walk_from, Env, Live, Probe, Readings, delivered, by_version, last_row, derive, derive_at,
  anchor_at, passed_over, walk_head, reconcile_policy,
}
use enclave_gateway.Gateway.Lockstep.Prefix.{by_version-later}
use enclave_gateway.Gateway.Lockstep.Stages.{Stage, walk-Stage, whole-derive_at}
use enclave_gateway.Gateway.Lockstep.Arrival.{Held, Passable, arrived, walk_head-arrives}

last_row-listed :
    (rows : List Row) (r : Row) → last_row rows ≡ some r → by_version r.version rows ≡ some r
unfolding last_row by_version
last_row-listed [] r e = cc
last_row-listed (x ∷ []) r e = ground (arith, e)
last_row-listed (x ∷ y ∷ rows) r e =
    by_version-later r.version x r (y ∷ rows) (last_row-listed (y ∷ rows) r e)

module _ (env : Env) where
  -- The head and the chain that are read are newer than the authority that is enforced, and the whole
  -- chain derives an authority at its head.
  pub record NewPolicy (q : Readings) (s : Live) (rows : List Row) (head : Row)
      (whole : PolicyAuthority) : Type 0 where
    pub probe : Probe
    pub probed : q.probe ≡ ok (some probe)
    pub newer_probe : passed_over env s.authority probe.version probe.action ≡ false
    pub rows_read : q.rows ≡ ok rows
    pub last : last_row (sort_rows rows) ≡ some head
    pub newer : passed_over env s.authority head.version head.action ≡ false
    pub record_read : q.read ≡ ok tt
    pub verified : derive env rows (anchor_at env head) ≡ ok whole

  walk_all-walk :
      (rows : List Row) (last : Row)
      → walk_all env.date env.sha256 env.counts env.config rows ≡ ok last
      → (first : Row) × (rest : List Row) × (rows ≡ first ∷ rest)
        × (walk env.date env.sha256 env.counts env.config none first rest ≡ ok last)
  unfolding walk_all
  walk_all-walk [] last e = cc
  walk_all-walk (first ∷ rest) last e = (first, rest, refl, e)

  -- The chain in the order of its versions: its first row, and the walk over it.
  derive-walk :
      (rows : List Row) (head : Row) (whole : PolicyAuthority)
      → derive env rows (anchor_at env head) ≡ ok whole
      → (first : Row) × (rest : List Row) × (last : Row) × (sort_rows rows ≡ first ∷ rest)
        × (walk env.date env.sha256 env.counts env.config none first rest ≡ ok last)
        × (head.version ≡ length (first ∷ rest))
  unfolding derive_authority
  derive-walk rows head whole e =
      let (last, walked, _) =
        >>=-eq-ok (walk_all env.date env.sha256 env.counts env.config (sort_rows rows))
          (λ l. at_head env.date env.sha256 env.counts env.config (anchor_at env head) l l.core)
          e in
      let d =
        derive_authority-Derived env.date env.sha256 env.counts env.config rows (anchor_at env head)
          whole e in
      let (first, rest, sorted, walked) = walk_all-walk (sort_rows rows) last walked in
      (
        first,
        rest,
        last,
        sorted,
        walked,
        d.anchored _ refl ∙ sym (length-sort_rows rows) ∙ ap (λ l. length l) sorted,
      )

  -- The walk over the sorted chain ends at its head, with the authority of the whole chain.
  walk_head-whole :
      (rows : List Row) (head : Row) (whole : PolicyAuthority) (s : Live) (v : ℕ) (h : String)
      → derive env rows (anchor_at env head) ≡ ok whole
      → last_row (sort_rows rows) ≡ some head
      → Held env v h s.stored
      → v < head.version
      → ((k : ℕ) → env.network k ≡ delivered)
      → ((w : ℕ) (r : Row) → v < w → by_version w (sort_rows rows) ≡ some r → Passable env r)
      → walk_head env (sort_rows rows) (head.version - v) v h s
        ≡ (head.version, arrived env s head whole head.version)
  walk_head-whole rows head whole s v h verified ends held behind lossless pass =
      let (first, rest, last, sorted, walked, number) = derive-walk rows head whole verified in
      let end : Stage env (sort_rows rows) head.version = record {
        row = head;
        authority = whole;
        listed = last_row-listed (sort_rows rows) head ends;
        version = refl;
        derived =
            ap (λ l. derive_at env l head) sorted
            ∙ whole-derive_at env rows first rest last head sorted walked number
            ∙ verified;
      } in
      subst
        (λ n.
          walk_head env (sort_rows rows) n v h s
          ≡ (head.version, arrived env s head whole head.version))
        (omega (arith, behind))
        (walk_head-arrives env (sort_rows rows) (head.version - (v + 1)) v head.version h s end
          (omega (arith, behind)) held lossless pass
          (λ w lt le.
            subst (λ l. Stage env l w) (sym sorted)
              (walk-Stage env first rest last w walked (omega (arith, lt))
                (omega (arith, le, number)))))

  walk_from-walk_head :
      (rows : List Row) (head : Row) (s m : Live) (v w : ℕ) (h : String) (o : Option ℕ)
      (k : Option String)
      → o ≡ some v
      → k ≡ some h
      → walk_head env rows (head.version - v) v h s ≡ (w, m)
      → walk_from env rows head s o k ≡ (some w, m)
  walk_from-walk_head rows head s m v w h o k at hash e =
      rw (at, hash) (ap (λ p. (some p.0, p.1)) e)

  -- Where the head and the chain that are read are newer than the authority that is enforced, the
  -- whole chain derives an authority at its head, the lease is held, the record is armed at an older
  -- head, no answer and no request is lost, and no later row disconnects or has another stored hash,
  -- `reconcilePolicy` reports the head's version, enforces the whole chain's authority, and moves the
  -- stored head to that row, and changes nothing else of the record.
  pub reconcile_policy_arrives :
      (q : Readings) (s : Live) (rows : List Row) (head : Row) (whole : PolicyAuthority) (v : ℕ)
      (h : String)
      → NewPolicy q s rows head whole
      → Held env v h s.stored
      → v < head.version
      → ((k : ℕ) → env.network k ≡ delivered)
      → ((w : ℕ) (r : Row) → v < w → by_version w (sort_rows rows) ≡ some r → Passable env r)
      → reconcile_policy env q s ≡ (some head.version, arrived env s head whole head.version)
  unfolding reconcile_policy
  reconcile_policy_arrives q s rows head whole v h new held behind lossless pass =
      let walked =
        walk_head-whole rows head whole s v h new.verified new.last held behind lossless pass in
      let is_armed_now : is_armed s.stored.phase ≡ true = ap is_armed held.armed in
      rw
        (
          new.probed, new.newer_probe, new.rows_read, new.last, new.newer, new.record_read,
          is_armed_now, new.verified,
        )
        (walk_from-walk_head (sort_rows rows) head s (arrived env s head whole head.version) v
          head.version h _ _ held.version held.hash walked)
