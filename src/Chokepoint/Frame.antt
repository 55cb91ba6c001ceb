-- ===== src/Chokepoint/Frame.antt =====
-- tg-chokepoint.mjs: the constructors that the lists name, and the frames that are checked. A frame
-- of the GramJS library is told by its constructor, so that `instanceof` and `CONSTRUCTOR_ID` agree.
use enclave_gateway.Base.{ℕ, Bool, true, false, List, String}

pub data Ctor : Type 0 where
  get_authorizations reset_authorization decline_password_reset get_password : Ctor
  get_account_ttl log_out get_users get_config get_state get_difference : Ctor
  export_authorization import_authorization : Ctor
  send_code sign_in check_password : Ctor
  msgs_ack ping ping_delay_disconnect msgs_state_info : Ctor
  invoke_with_layer init_connection invoke_after_msg invoke_after_msgs : Ctor
  invoke_with_takeout invoke_with_messages_range msg_container : Ctor
  unlisted : ℕ → Ctor

-- An entry of `users.getUsers`'s `id`.
pub data Peer : Type 0 where
  self_peer : Peer
  other_peer : ℕ → Peer

-- `MODES`, and anything else that is passed as one.
pub data Mode : Type 0 where
  armed onboarding : Mode
  invalid : String → Mode

-- A frame with its `id` and `hash` arguments, its `query` and its `messages`; `no_frame` is null,
-- undefined, or a value with no numeric constructor id. A message of a container is checked at its
-- `body` if it has one, and else itself.
mutual
  pub data Frame : Type 0 where
    no_frame : Frame
    frame : Ctor → List Peer → String → Frame → Messages → Frame

  pub data Messages : Type 0 where
    nil : Messages
    with_body : Frame → Messages → Messages
    bare : Frame → Messages → Messages

-- `ALLOWED`
unfoldable pub is_allowed : Ctor → Bool
is_allowed Ctor.get_authorizations = true
is_allowed Ctor.reset_authorization = true
is_allowed Ctor.decline_password_reset = true
is_allowed Ctor.get_password = true
is_allowed Ctor.get_account_ttl = true
is_allowed Ctor.log_out = true
is_allowed Ctor.get_users = true
is_allowed Ctor.get_config = true
is_allowed Ctor.get_state = true
is_allowed Ctor.get_difference = true
is_allowed Ctor.export_authorization = true
is_allowed Ctor.import_authorization = true
is_allowed _ = false

-- `ONBOARDING_ONLY`
unfoldable pub is_onboarding_only : Ctor → Bool
is_onboarding_only Ctor.send_code = true
is_onboarding_only Ctor.sign_in = true
is_onboarding_only Ctor.check_password = true
is_onboarding_only _ = false

-- `ARMED_ONLY`
unfoldable pub is_armed_only : Ctor → Bool
is_armed_only Ctor.reset_authorization = true
is_armed_only Ctor.decline_password_reset = true
is_armed_only Ctor.get_account_ttl = true
is_armed_only _ = false

-- `TRANSPORT`
unfoldable pub is_transport : Ctor → Bool
is_transport Ctor.msgs_ack = true
is_transport Ctor.ping = true
is_transport Ctor.ping_delay_disconnect = true
is_transport Ctor.msgs_state_info = true
is_transport _ = false

-- `WRAPPERS`
unfoldable pub is_wrapper : Ctor → Bool
is_wrapper Ctor.invoke_with_layer = true
is_wrapper Ctor.init_connection = true
is_wrapper Ctor.invoke_after_msg = true
is_wrapper Ctor.invoke_after_msgs = true
is_wrapper _ = false

-- `HARD_BLOCKED_WRAPPERS`
unfoldable pub is_hard_blocked : Ctor → Bool
is_hard_blocked Ctor.invoke_with_takeout = true
is_hard_blocked Ctor.invoke_with_messages_range = true
is_hard_blocked _ = false

unfoldable pub is_container : Ctor → Bool
is_container Ctor.msg_container = true
is_container _ = false
