-- ===== src/Chokepoint/Ceiling.antt =====
-- tg-chokepoint.mjs: the capability ceiling. What a checked frame may carry is described anew, by
-- constructor, over every frame that is reached through containers and wrappers.
use enclave_gateway.Base.{
  first_ok, second_ok, inr, inl, Bool-cases, All-append, ◌↔◌, refl, All, Result, ◌++◌, arith, ◌&&◌,
  true, ok, false, some, if◌then◌else◌, [], ◌≡◌, ◌∷◌, String, List, ◌≢◌, Bool,
}
use enclave_gateway.Chokepoint.Check.{
  assert_messages, assert_frame, assert_allowed, is_valid, route, Blocked, Hooks, check_leaf,
  is_bring_up,
}
use enclave_gateway.Chokepoint.Frame.{
  Ctor, Peer, self_peer, Mode, onboarding, Frame, no_frame, frame, Messages, is_transport,
  is_wrapper, is_hard_blocked, is_container,
}

-- A frame as it stands on the wire: its constructor and arguments, and whether its query is one of
-- the two bring-up queries; `missing` where a frame should be.
pub data Node : Type 0 where
  missing : Node
  node : Ctor → List Peer → String → Bool → Node

module _ (has_container : Bool) (mode : Mode) (hooks : Hooks) where
  -- What one frame needs to be permitted.
  abbrev pub Capability : Node → Type 0
  Capability missing = ⊥
  Capability (node Ctor.get_authorizations ps h b) = Unit
  Capability (node Ctor.reset_authorization ps h b) =
      (mode ≢ onboarding)
      × ((gate : String → Bool) × (hooks.assert_evict_allowed ≡ some gate) × (gate h ≡ true))
  Capability (node Ctor.decline_password_reset ps h b) = mode ≢ onboarding
  Capability (node Ctor.get_password ps h b) = Unit
  Capability (node Ctor.get_account_ttl ps h b) = mode ≢ onboarding
  Capability (node Ctor.log_out ps h b) = mode ≡ onboarding → hooks.onboarding_teardown ≡ some true
  Capability (node Ctor.get_users ps h b) = ps ≡ self_peer ∷ []
  Capability (node Ctor.get_config ps h b) = Unit
  Capability (node Ctor.get_state ps h b) = Unit
  Capability (node Ctor.get_difference ps h b) = Unit
  Capability (node Ctor.export_authorization ps h b) = Unit
  Capability (node Ctor.import_authorization ps h b) = Unit
  Capability (node Ctor.send_code ps h b) = mode ≡ onboarding
  Capability (node Ctor.sign_in ps h b) = mode ≡ onboarding
  Capability (node Ctor.check_password ps h b) = mode ≡ onboarding
  Capability (node Ctor.msgs_ack ps h b) = Unit
  Capability (node Ctor.ping ps h b) = Unit
  Capability (node Ctor.ping_delay_disconnect ps h b) = Unit
  Capability (node Ctor.msgs_state_info ps h b) = Unit
  Capability (node Ctor.invoke_with_layer ps h b) = Unit
  Capability (node Ctor.init_connection ps h b) = b ≡ true
  Capability (node Ctor.invoke_after_msg ps h b) = Unit
  Capability (node Ctor.invoke_after_msgs ps h b) = Unit
  Capability (node Ctor.msg_container ps h b) = has_container ≡ true
  Capability _ = ⊥

-- Every frame that is sent with a frame, itself included.
unfoldable mutual
  pub reached : Bool → Frame → List Node
  reached has_container no_frame = missing ∷ []
  reached has_container (frame c ps h q ms) =
      node c ps h (is_bring_up q)
      ∷ (if has_container && is_container c
          then reached_messages has_container ms
          else if is_wrapper c
          then reached has_container q
          else [])

  pub reached_messages : Bool → Messages → List Node
  reached_messages has_container Messages.nil = []
  reached_messages has_container (Messages.with_body f ms) =
      reached has_container f ++ reached_messages has_container ms
  reached_messages has_container (Messages.bare f ms) =
      reached has_container f ++ reached_messages has_container ms

All-append-inv {ℓ κ} :
    {A : Type ℓ} (P : A → Type κ) (xs ys : List A) → All P (xs ++ ys) → All P xs × All P ys
All-append-inv P [] ys h = (tt, h)
All-append-inv P (x ∷ xs) ys h = let (l, r) = All-append-inv P xs ys h.1 in ((h.0, l), r)

module _ (hc : Bool) (mode : Mode) (hooks : Hooks) where
  abbrev Permitted : List Node → Type 0
  Permitted = All (Capability hc mode hooks)

  -- A frame passes exactly when it has its capability and what it carries passes.
  route_sound :
      (c : Ctor) (ps : List Peer) (h : String) (q : Frame)
      (on_messages on_query : Result Blocked (Unit {0}))
      → route hc mode hooks c ps h q on_messages on_query ≡ ok tt
      → Capability hc mode hooks (node c ps h (is_bring_up q))
        × ((hc && is_container c) ≡ true → on_messages ≡ ok tt)
        × (is_wrapper c ≡ true → on_query ≡ ok tt)
  unfolding check_leaf is_hard_blocked is_transport is_wrapper is_container
  route_sound c ps h q m r e = ground arith

  route_complete :
      (c : Ctor) (ps : List Peer) (h : String) (q : Frame)
      (on_messages on_query : Result Blocked (Unit {0}))
      → Capability hc mode hooks (node c ps h (is_bring_up q))
      → ((hc && is_container c) ≡ true → on_messages ≡ ok tt)
      → (is_wrapper c ≡ true → on_query ≡ ok tt)
      → is_valid mode ≡ true
      → route hc mode hooks c ps h q on_messages on_query ≡ ok tt
  unfolding check_leaf is_hard_blocked is_transport is_wrapper is_container
  route_complete c ps h q m r cap em eq valid = ground arith

  Permitted-branch :
      (b w : Bool) (xs ys : List Node)
      → (b ≡ true → Permitted xs)
      → (w ≡ true → Permitted ys)
      → Permitted (if b then xs else if w then ys else [])
  Permitted-branch true w xs ys f g = f refl
  Permitted-branch false true xs ys f g = g refl
  Permitted-branch false false xs ys f g = tt

  mutual
    unfolding assert_frame reached

    assert_frame_sound :
        (f : Frame) → assert_frame hc mode hooks f ≡ ok tt → Permitted (reached hc f)
    assert_frame_sound no_frame e = cc
    assert_frame_sound (frame c ps h q ms) e =
        let parts =
          route_sound c ps h q (assert_messages hc mode hooks ms) (assert_frame hc mode hooks q)
            e in
        (
          parts.0,
          Permitted-branch (hc && is_container c) (is_wrapper c) (reached_messages hc ms)
              (reached hc q) (λ t. assert_messages_sound ms (parts.1 t))
              (λ t. assert_frame_sound q (parts.2 t)),
        )

    assert_messages_sound :
        (ms : Messages)
        → assert_messages hc mode hooks ms ≡ ok tt
        → Permitted (reached_messages hc ms)
    assert_messages_sound Messages.nil e = tt
    assert_messages_sound (Messages.with_body f ms) e =
        All-append _ (reached hc f) (reached_messages hc ms)
          (assert_frame_sound f (first_ok (assert_frame hc mode hooks f) _ e))
          (assert_messages_sound ms (second_ok (assert_frame hc mode hooks f) _ e))
    assert_messages_sound (Messages.bare f ms) e =
        All-append _ (reached hc f) (reached_messages hc ms)
          (assert_frame_sound f (first_ok (assert_frame hc mode hooks f) _ e))
          (assert_messages_sound ms (second_ok (assert_frame hc mode hooks f) _ e))

  Permitted-branch-inv :
      (b w : Bool) (xs ys : List Node)
      → Permitted (if b then xs else if w then ys else [])
      → (b ≡ true → Permitted xs) × (b ≡ false → w ≡ true → Permitted ys)
  Permitted-branch-inv true w xs ys h = (λ _. h, λ e. cc)
  Permitted-branch-inv false true xs ys h = (λ e. cc, λ _ _. h)
  Permitted-branch-inv false false xs ys h = (λ e. cc, λ _ e. cc)

  wrapper_not_container : (c : Ctor) → is_wrapper c ≡ true → (hc && is_container c) ≡ false
  unfolding is_wrapper is_container
  wrapper_not_container c e = ground arith

  module _ (valid : is_valid mode ≡ true) where
    mutual
      unfolding assert_frame reached

      assert_frame_complete :
          (f : Frame) → Permitted (reached hc f) → assert_frame hc mode hooks f ≡ ok tt
      assert_frame_complete no_frame p = absurd p.0
      assert_frame_complete (frame c ps h q ms) p =
          let parts =
            Permitted-branch-inv (hc && is_container c) (is_wrapper c) (reached_messages hc ms)
              (reached hc q) p.1 in
          route_complete c ps h q (assert_messages hc mode hooks ms) (assert_frame hc mode hooks q)
            p.0 (λ t. assert_messages_complete ms (parts.0 t))
            (λ t. assert_frame_complete q (parts.1 (wrapper_not_container c t) t)) valid

      assert_messages_complete :
          (ms : Messages)
          → Permitted (reached_messages hc ms)
          → assert_messages hc mode hooks ms ≡ ok tt
      assert_messages_complete Messages.nil p = refl
      assert_messages_complete (Messages.with_body f ms) p =
          let (l, r) = All-append-inv _ (reached hc f) (reached_messages hc ms) p in
          rw (assert_frame_complete f l) (assert_messages_complete ms r)
      assert_messages_complete (Messages.bare f ms) p =
          let (l, r) = All-append-inv _ (reached hc f) (reached_messages hc ms) p in
          rw (assert_frame_complete f l) (assert_messages_complete ms r)

-- `assertAllowed` passes a frame in exactly these conditions: the mode is one of the two, and every
-- frame that is reached through containers and wrappers has its capability; so no frame of the bulk
-- wrappers or outside the lists ever passes, at any depth.
pub assert_allowed_iff :
    (hc : Bool) (mode : Mode) (hooks : Hooks) (f : Frame)
    → (assert_allowed hc mode hooks f ≡ ok tt)
      ↔ ((is_valid mode ≡ true) × All (Capability hc mode hooks) (reached hc f))
unfolding assert_allowed
assert_allowed_iff hc mode hooks f = (
  λ e. elim (Bool-cases (is_valid mode)) [
    | inl v ↦ (v, assert_frame_sound hc mode hooks f (rw v at e))
    | inr n ↦ cc (rw n at e)
  ],
  λ p. rw p.0 (assert_frame_complete hc mode hooks p.0 f p.1),
)
