-- ===== src/Chokepoint/Tests.antt =====
-- tg-chokepoint.mjs at concrete frames, and instances of the theorems on it.
use enclave_gateway.Base.{
  ◌↔◌, ok, raise, All, some, none, ◌≡◌, true, false, String-discrete, refl, [], ◌∷◌,
}
use enclave_gateway.Chokepoint.Check.{
  Hooks, assert_allowed, assert_frame, check_leaf, is_valid, hard_blocked, not_allowlisted,
}
use enclave_gateway.Chokepoint.Frame.{
  armed, Frame, frame, no_frame, Ctor, Messages, is_transport, is_wrapper, is_hard_blocked,
  is_container,
}
use enclave_gateway.Chokepoint.Ceiling.{Capability, reached, assert_allowed_iff}
use enclave_gateway.Chokepoint.Gate.{Gate, GateCall, gate_call, gate_run, make_chokepoint}
use enclave_gateway.Chokepoint.Grants.{SentFits, EvictsOnly, mode_partition, send-EvictsOnly}

abbrev no_hooks : Hooks
no_hooks = record { assert_evict_allowed = none; onboarding_teardown = none }

abbrev leaf : Ctor → Frame
leaf c = frame c [] "" no_frame Messages.nil

abbrev wrap : Ctor → Frame → Frame
wrap c f = frame c [] "" f Messages.nil

-- Reading messages (an unlisted constructor) is refused under two wrappers in a container.
history_in_container :
    assert_allowed true armed no_hooks (
      frame Ctor.msg_container [] "" no_frame (
        Messages.bare (leaf Ctor.ping) (
          Messages.with_body
            (wrap Ctor.invoke_with_layer (wrap Ctor.invoke_after_msg (leaf (Ctor.unlisted 7))))
            Messages.nil)))
    ≡ raise (not_allowlisted (Ctor.unlisted 7))
unfolding assert_allowed assert_frame check_leaf is_hard_blocked is_transport is_wrapper
    is_container
history_in_container = refl

takeout_in_layer :
    assert_allowed true armed no_hooks
      (wrap Ctor.invoke_with_layer (wrap Ctor.invoke_with_takeout (leaf Ctor.get_state)))
    ≡ raise (hard_blocked Ctor.invoke_with_takeout)
unfolding assert_allowed assert_frame check_leaf is_hard_blocked is_transport is_wrapper
    is_container
takeout_in_layer = refl

abbrev bring_up : Frame
bring_up = wrap Ctor.invoke_with_layer (wrap Ctor.init_connection (leaf Ctor.get_config))

assert_allowed_iff_example :
    (assert_allowed true armed no_hooks bring_up ≡ ok tt)
    ↔ ((is_valid armed ≡ true) × All (Capability true armed no_hooks) (reached true bring_up))
assert_allowed_iff_example = assert_allowed_iff true armed no_hooks bring_up

abbrev made : Gate
made = record {
  mode = armed;
  hooks = no_hooks;
  has_sender = false;
  bound_evict = none;
  bound_teardown = false;
  sent = [];
}

mode_partition_example : SentFits true armed (
    gate_run true made (
      GateCall.bind_sender true
      ∷ GateCall.send (leaf Ctor.sign_in) no_hooks
      ∷ GateCall.send bring_up no_hooks
      ∷ []))
mode_partition_example =
    mode_partition true armed no_hooks made
      (GateCall.bind_sender true
        ∷ GateCall.send (leaf Ctor.sign_in) no_hooks
        ∷ GateCall.send bring_up no_hooks
        ∷ [])
      (unfold make_chokepoint in refl)

abbrev granted : Gate
granted = record made { has_sender = true; bound_evict = some "42" }

abbrev evict_42 : Frame
evict_42 = frame Ctor.reset_authorization [] "42" no_frame Messages.nil

abbrev granted_after : Gate
granted_after = record granted { sent = evict_42 ∷ [] }

granted_sends : gate_call true granted (GateCall.send evict_42 no_hooks) ≡ ok granted_after
unfolding gate_call assert_allowed assert_frame check_leaf is_hard_blocked is_transport is_wrapper
    is_container String-discrete
granted_sends = refl

send-EvictsOnly_example :
    (granted_after.sent ≡ evict_42 ∷ []) × All (EvictsOnly (some "42")) (reached true evict_42)
send-EvictsOnly_example =
    send-EvictsOnly true granted granted_after evict_42 no_hooks refl refl granted_sends
