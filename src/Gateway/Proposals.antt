-- ===== src/Gateway/Proposals.antt =====
-- gateway.mjs with brain.mjs: a sweep over the op handlers, and the gate on every eviction.
use enclave_gateway.Base.{
  sym, subst, ◌∙◌, inr, inl, ◌≡◌, raise, ok, some, none, refl, List, Option, String, ℕ, Result,
  Bool-cases,
}
use enclave_gateway.Replay.Geo.{Session, Params}
use enclave_gateway.Policy.Json.{Value}
use enclave_gateway.Policy.Chain.{PolicyAuthority}
use enclave_gateway.Policy.Ops.{OpError, assert_op_allowed, evict_session}
use enclave_gateway.Policy.Permits.{Permitted, assert_op_allowed_iff}
use enclave_gateway.Brain.Sweep.{EvictArg, PolicyView, sweep}
use enclave_gateway.Gateway.Dispatch.{
  is_refused, Reply, returned, thrown, Connection, Context, evict_request, note_flood,
  evict_approved, evict_listed, dispatch_evict, settled, call_list, call_evict, in_process,
}
use enclave_gateway.Gateway.Guard.{sweep-keeps}

module _ {W : Type 0} (tx : Connection W) (now monotonic : ℕ) (authority : PolicyAuthority)
    (Inv : W → Type 0) (on_list : (w : W) → Inv w → Inv (tx.list_sessions w).0)
    (on_evict : (w : W) (arg : EvictArg) (roster : List Session)
      → (tx.list_sessions w).1 ≡ returned roster
      → Permitted authority evict_session (evict_request arg roster)
      → Inv (tx.list_sessions w).0
      → Inv (tx.evict_session (tx.list_sessions w).0 arg.hash).0) where
  -- The context has the authority, and the world the invariant.
  abbrev Kept : Context × W → Type 0
  Kept (ctx, w) = (ctx.authority ≡ authority) × Inv w

  pub record Guarded (g : Context × W) : Type 0 where
    pub unchanged : g.0.authority ≡ authority
    pub holds : Inv g.1

  note_flood-authority :
      (e : Option ℕ) (ctx : Context) → (note_flood now e ctx).authority ≡ ctx.authority
  unfolding note_flood
  note_flood-authority none ctx = refl
  note_flood-authority (some s) ctx = refl

  settled-Kept :
      {A : Type 0} (ctx : Context) (r : W × Reply A)
      → ctx.authority ≡ authority
      → Inv r.0
      → Kept (settled tx now monotonic ctx r).0
  settled-Kept ctx (w, returned a) q h = (q, h)
  settled-Kept ctx (w, thrown e) q h = (note_flood-authority e ctx ∙ q, h)

  call_list-Kept : (g : Context × W) → Kept g → Kept (call_list tx now monotonic g).0
  unfolding call_list
  call_list-Kept (ctx, w) (q, h) = elim (Bool-cases (is_refused now monotonic ctx)) [
    | inl e ↦ rw e (q, h)
    | inr e ↦ rw e (settled-Kept ctx (tx.list_sessions w) q (on_list w h))
  ]

  approved-Kept :
      (w : W) (arg : EvictArg) (roster : List Session) (verdict : Result OpError (Unit {0}))
      → (tx.list_sessions w).1 ≡ returned roster
      → assert_op_allowed authority evict_session (evict_request arg roster) ≡ verdict
      → Inv (tx.list_sessions w).0
      → Inv (evict_approved tx now monotonic arg verdict (tx.list_sessions w).0).0
  approved-Kept w arg roster (raise e) listed q h = h
  approved-Kept w arg roster (ok tt) listed q h =
      on_evict w arg roster listed
        ((assert_op_allowed_iff authority evict_session (evict_request arg roster)).0 q) h

  listed-Kept :
      (w : W) (arg : EvictArg) (reply : Reply (List Session))
      → (tx.list_sessions w).1 ≡ reply
      → Inv (tx.list_sessions w).0
      → Inv (evict_listed tx now monotonic authority arg ((tx.list_sessions w).0, reply)).0
  listed-Kept w arg (thrown e) listed h = h
  listed-Kept w arg (returned roster) listed h = approved-Kept w arg roster _ listed refl h

  dispatch_evict-Kept :
      (w : W) (arg : EvictArg) → Inv w → Inv (dispatch_evict tx now monotonic authority arg w).0
  unfolding dispatch_evict
  dispatch_evict-Kept w arg h = listed-Kept w arg (tx.list_sessions w).1 refl (on_list w h)

  call_evict-Kept :
      (g : Context × W) (arg : EvictArg) → Kept g → Kept (call_evict tx now monotonic g arg).0
  unfolding call_evict
  call_evict-Kept (ctx, w) arg (q, h) = elim (Bool-cases (is_refused now monotonic ctx)) [
    | inl e ↦ rw e (q, h)
    | inr e ↦ rw e (
        settled-Kept ctx (dispatch_evict tx now monotonic ctx.authority arg w) q (
          subst (λ a. Inv (dispatch_evict tx now monotonic a arg w).0) (sym q)
            (dispatch_evict-Kept w arg h)))
  ]

  -- Whatever the brain proposes: a sweep over the op handlers of a context with an authority keeps
  -- every property of the world that the reading of the roster keeps, and that an eviction keeps if
  -- the authority permits it on the roster that was read just before. So nothing is evicted but what
  -- the authority permits on a fresh roster; and the authority itself is kept.
  pub sweep-Guarded :
      (date : Value → Option ℕ) (iso2 : String → Option String) (upper : String → String)
      (params : Params) (cap : ℕ) (view : Option PolicyView) (g : Context × W)
      → Guarded g
      → Guarded (sweep (in_process tx now monotonic) date iso2 upper params cap now view g).0
  unfolding in_process
  sweep-Guarded date iso2 upper params cap view g h =
      let kept =
        sweep-keeps (in_process tx now monotonic) Kept call_list-Kept call_evict-Kept date iso2
          upper params cap now view g (h.unchanged, h.holds) in
      record { unchanged = kept.0; holds = kept.1 }
