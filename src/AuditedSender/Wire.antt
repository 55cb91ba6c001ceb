-- ===== src/AuditedSender/Wire.antt =====
-- The sender at work: states that are appended, changes that the library makes to its own queue,
-- and batches that are taken to be encrypted, in any order.
use enclave_gateway.Base.{
  subst, sym, All-append, ◌⊎◌, arith, Bool, List, [], ◌∷◌, ◌++◌, Result, ok, raise, Option, none,
  some, All, ◌≡◌, refl, inl, inr, Option-cases, Result-cases,
}
use enclave_gateway.AuditedSender.Seams.{
  audited_get, audited_append, RequestState, Item, Packer, validate_states, all_states,
}
use enclave_gateway.Chokepoint.Frame.{Frame, Mode}
use enclave_gateway.Chokepoint.Check.{Hooks, Blocked, assert_allowed}

pub data Step (Q : Type 0) : Type 0 where
  append : RequestState → Bool → Bool → Step Q
  internal : (Q → Q) → Step Q
  flush : Step Q

unfoldable pub requests : List RequestState → List Frame
requests [] = []
requests (s ∷ ss) = elim s.request [ none ↦ requests ss | some f ↦ f ∷ requests ss ]

-- The requests of a batch that goes on to be encrypted.
abbrev pub emitted : {A : Type 0} → Result A (Option (List Item)) → List Frame
emitted (ok (some batch)) = requests (all_states batch)
emitted _ = []

-- A request that the chokepoint lets through.
abbrev pub Allowed : Bool → Mode → Hooks → Frame → Type 0
Allowed has_container mode hooks f = assert_allowed has_container mode hooks f ≡ ok tt

module _ (has_container : Bool) (mode : Mode) (hooks : Hooks) (listens : Bool) {Q : Type 0}
    (orig_append : RequestState → Bool → Bool → Q → Q) (orig_get : Q → Option (List Item) × Q) where
  unfoldable pub after_step : Step Q → Packer Q → Packer Q
  after_step (append s r a) p =
      (audited_append has_container mode hooks listens orig_append s r a p).packer
  after_step (internal f) p = record p { queue = f p.queue }
  after_step flush p = (audited_get has_container mode hooks listens orig_get p).packer

  unfoldable pub sent_by : Step Q → Packer Q → List Frame
  unfolding requests
  sent_by flush p = emitted ((audited_get has_container mode hooks listens orig_get p).result)
  sent_by _ p = []

  -- What goes to the wire in a run.
  unfoldable pub wire : List (Step Q) → Packer Q → List Frame
  unfolding after_step sent_by
  wire [] p = []
  wire (s ∷ steps) p = sent_by s p ++ wire steps (after_step s p)

  validate_states-Allowed :
      (ss : List RequestState) (p : Packer Q)
      → (validate_states has_container mode hooks listens ss p).result ≡ ok tt
      → All (Allowed has_container mode hooks) (requests ss)
  unfolding validate_states requests
  validate_states-Allowed [] p h = tt
  validate_states-Allowed (s ∷ ss) p h = elim (Option-cases s.request) [
    | inl e ↦ rw e (validate_states-Allowed ss p (ground arith))
    | inr (f, e) ↦ elim (Result-cases (assert_allowed has_container mode hooks f)) [
      | inl (u, a) ↦ rw e (a, validate_states-Allowed ss p (ground arith))
      | inr (b, a) ↦ absurd (ground arith)
    ]
  ]

  audited_get-Allowed :
      (p : Packer Q)
      → All
          (Allowed has_container mode hooks)
          (emitted ((audited_get has_container mode hooks listens orig_get p).result))
  unfolding audited_get
  audited_get-Allowed p =
      let taken : Packer Q = record p { queue = (orig_get p.queue).1 } in
      let got = (audited_get has_container mode hooks listens orig_get p).result in
      elim (Option-cases ((orig_get p.queue).0)) [
        | inl e ↦
            let idle : got ≡ ok none = ground arith in
            subst (λ r. All (Allowed has_container mode hooks) (emitted r)) (sym idle) tt
        | inr (batch, e) ↦
            let checked =
              validate_states has_container mode hooks listens (all_states batch) taken in
            elim (Result-cases checked.result) [
              | inl (u, h) ↦
                  let out : got ≡ ok (some batch) = ground arith in
                  subst (λ r. All (Allowed has_container mode hooks) (emitted r)) (sym out)
                    (validate_states-Allowed (all_states batch) taken h)
              | inr (b, h) ↦
                  let refused : got ≡ raise b = ground arith in
                  subst (λ r. All (Allowed has_container mode hooks) (emitted r)) (sym refused) tt
            ]
      ]

  -- Whatever the library does to its queue, only allowed requests go to the wire.
  pub wire-Allowed :
      (steps : List (Step Q)) (p : Packer Q) → All (Allowed has_container mode hooks) (wire steps p)
  unfolding wire sent_by
  wire-Allowed [] p = tt
  wire-Allowed (append s r a ∷ steps) p = wire-Allowed steps _
  wire-Allowed (internal f ∷ steps) p = wire-Allowed steps _
  wire-Allowed (flush ∷ steps) p =
      All-append (Allowed has_container mode hooks) _ (wire steps _) (audited_get-Allowed p)
        (wire-Allowed steps _)

  -- A request that is refused when it is appended stays out of the queue, and its promise is
  -- rejected; any other state is appended as the library does it.
  pub audited_append_lem :
      (s : RequestState) (r a : Bool) (p : Packer Q)
      → ((audited_append has_container mode hooks listens orig_append s r a p).result ≡ ok tt
          × (audited_append has_container mode hooks listens orig_append s r a p).packer
            ≡ record p { queue = orig_append s r a p.queue }
          × All (Allowed has_container mode hooks) (requests (s ∷ [])))
        ⊎ ((b : Blocked) × (f : Frame) × (s.request ≡ some f)
            × (assert_allowed has_container mode hooks f ≡ raise b)
            × (audited_append has_container mode hooks listens orig_append s r a p).packer.queue
              ≡ p.queue)
  unfolding audited_append requests
  audited_append_lem s r a p = elim (Option-cases s.request) [
    | inl e ↦ inl (rw e refl, rw e refl, rw e tt)
    | inr (f, e) ↦ elim (Result-cases (assert_allowed has_container mode hooks f)) [
      | inl (u, h) ↦ inl (ground arith, ground arith, rw e (h, tt))
      | inr (b, h) ↦ inr (b, f, e, h, ground arith)
    ]
  ]
