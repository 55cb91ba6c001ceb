-- ===== src/Chokepoint/Check.antt =====
-- tg-chokepoint.mjs, `checkLeaf` and `assertAllowed`: the check of a frame and of all it carries.
-- Whether the library has a `MsgContainer` constructor is the parameter `has_container`.
use enclave_gateway.Base.{
  Bool, true, false, not, ◌&&◌, Option, none, some, List, [], ◌∷◌, String, Result, ok, raise, ◌>>◌,
  throw_if, if◌then◌else◌,
}
use enclave_gateway.Chokepoint.Frame.{
  Ctor, Peer, self_peer, Mode, onboarding, invalid, Frame, no_frame, frame, Messages, is_allowed,
  is_onboarding_only, is_armed_only, is_transport, is_wrapper, is_hard_blocked, is_container,
}

pub data Blocked : Type 0 where
  invalid_mode not_a_frame : Blocked
  not_allowlisted outside_onboarding in_onboarding hard_blocked : Ctor → Blocked
  non_self_peer no_policy_gate policy_refused onboarding_logout not_bring_up : Blocked

-- `hooks`: the policy gate, which throws where it is `false`, and the teardown flag.
pub record Hooks : Type 0 where
  pub assert_evict_allowed : Option (String → Bool)
  pub onboarding_teardown : Option Bool

abbrev pub is_onboarding : Mode → Bool
is_onboarding onboarding = true
is_onboarding _ = false

abbrev pub is_valid : Mode → Bool
is_valid (invalid _) = false
is_valid _ = true

-- `users.getUsers` of the own account alone
abbrev pub self_only : List Peer → Bool
self_only (self_peer ∷ []) = true
self_only _ = false

abbrev pub flag_set : Option Bool → Bool
flag_set none = false
flag_set (some b) = b

-- The three tests of `checkLeaf` on particular constructors.
unfoldable pub check_arguments :
    Ctor → List Peer → String → Mode → Hooks → Result Blocked (Unit {0})
check_arguments Ctor.get_users peers hash mode hooks =
    throw_if (not (self_only peers)) non_self_peer
check_arguments Ctor.reset_authorization peers hash mode hooks = elim hooks.assert_evict_allowed [
  | none ↦ raise no_policy_gate
  | some gate ↦ throw_if (not (gate hash)) policy_refused
]
check_arguments Ctor.log_out peers hash mode hooks =
    throw_if (is_onboarding mode && not (flag_set hooks.onboarding_teardown)) onboarding_logout
check_arguments _ peers hash mode hooks = ok tt

unfoldable pub check_leaf : Ctor → List Peer → String → Mode → Hooks → Result Blocked (Unit {0})
unfolding check_arguments is_allowed is_onboarding_only is_armed_only
check_leaf c peers hash mode hooks = do
  throw_if (not (is_allowed c) && not (is_onboarding_only c)) (not_allowlisted c)
  throw_if (is_onboarding_only c && not (is_onboarding mode)) (outside_onboarding c)
  throw_if (is_onboarding mode && is_armed_only c) (in_onboarding c)
  check_arguments c peers hash mode hooks

-- `q instanceof Api.help.GetConfig || q instanceof Api.auth.ImportAuthorization`
abbrev pub is_bring_up : Frame → Bool
is_bring_up (frame Ctor.get_config _ _ _ _) = true
is_bring_up (frame Ctor.import_authorization _ _ _ _) = true
is_bring_up _ = false

abbrev pub is_init_connection : Ctor → Bool
is_init_connection Ctor.init_connection = true
is_init_connection _ = false

module _ (has_container : Bool) (mode : Mode) (hooks : Hooks) where
  -- The tests of `assertAllowed` after its guards, in their order, given the verdicts on the
  -- messages and on the query.
  abbrev pub route :
      Ctor
      → List Peer
      → String
      → Frame
      → Result Blocked (Unit {0})
      → Result Blocked (Unit {0})
      → Result Blocked (Unit {0})
  route c peers hash q on_messages on_query =
      if is_hard_blocked c
      then raise (hard_blocked c)
      else if has_container && is_container c
      then on_messages
      else if is_transport c
      then ok tt
      else if is_wrapper c
      then (do throw_if (is_init_connection c && not (is_bring_up q)) not_bring_up; on_query)
      else check_leaf c peers hash mode hooks

unfoldable mutual
  pub assert_frame : Bool → Mode → Hooks → Frame → Result Blocked (Unit {0})
  assert_frame has_container mode hooks no_frame = raise not_a_frame
  assert_frame has_container mode hooks (frame c peers hash q ms) =
      route has_container mode hooks c peers hash q (assert_messages has_container mode hooks ms)
        (assert_frame has_container mode hooks q)

  pub assert_messages : Bool → Mode → Hooks → Messages → Result Blocked (Unit {0})
  assert_messages has_container mode hooks Messages.nil = ok tt
  assert_messages has_container mode hooks (Messages.with_body f ms) = do
    assert_frame has_container mode hooks f
    assert_messages has_container mode hooks ms
  assert_messages has_container mode hooks (Messages.bare f ms) = do
    assert_frame has_container mode hooks f
    assert_messages has_container mode hooks ms

unfoldable pub assert_allowed : Bool → Mode → Hooks → Frame → Result Blocked (Unit {0})
assert_allowed has_container mode hooks f =
    if is_valid mode then assert_frame has_container mode hooks f else raise invalid_mode
