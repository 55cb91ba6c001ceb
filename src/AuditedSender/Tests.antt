-- ===== src/AuditedSender/Tests.antt =====
-- Runs of the audited sender over a queue that is a list, and the theorems at concrete inputs.
use enclave_gateway.Base.{
  if◌then◌else◌, Bool, true, false, List, [], ◌∷◌, ◌++◌, raise, Option, none, some, All, ◌≡◌, refl,
}
use enclave_gateway.Chokepoint.Frame.{
  is_wrapper, is_transport, is_hard_blocked, Frame, armed, frame, no_frame, Ctor, Messages,
}
use enclave_gateway.Chokepoint.Check.{Hooks, assert_allowed, assert_frame, check_leaf}
use enclave_gateway.AuditedSender.Seams.{
  RequestState, Item, single, several, Packer, audited_append, audited_get, install,
  already_installed,
}
use enclave_gateway.AuditedSender.Wire.{Step, append, internal, flush, wire, Allowed, wire-Allowed}

abbrev no_hooks : Hooks
no_hooks = record { assert_evict_allowed = none; onboarding_teardown = none }

abbrev ping : Frame
ping = frame Ctor.ping [] "" no_frame Messages.nil

-- A request for the dialogs, which no list allows.
abbrev dialogs : Frame
dialogs = frame (Ctor.unlisted 7) [] "" no_frame Messages.nil

abbrev state : Frame → RequestState
state f = record { request = some f; promise = 1 }

abbrev Queue : Type 0
Queue = List RequestState

abbrev list_append : RequestState → Bool → Bool → Queue → Queue
list_append s ready at_start q = if at_start then s ∷ q else q ++ (s ∷ [])

abbrev take_all : Queue → Option (List Item) × Queue
take_all [] = (none, [])
take_all (s ∷ q) = (some (single s ∷ several q ∷ []), [])

abbrev start : Packer Queue
start = record { queue = []; rejected = []; violations = []; audited = true }

-- The refused request is not sent, though the library queues it by itself the second time.
abbrev steps : List (Step Queue)
steps =
    append (state ping) true false
    ∷ append (state dialogs) true false
    ∷ flush
    ∷ internal (λ q. q ++ (state dialogs ∷ []))
    ∷ flush
    ∷ append (state ping) true true
    ∷ flush
    ∷ []

sent : wire false armed no_hooks true list_append take_all steps start ≡ ping ∷ ping ∷ []
unfolding wire audited_get audited_append assert_allowed assert_frame is_hard_blocked is_transport
    is_wrapper check_leaf
sent = refl

wire-Allowed_example : All (Allowed false armed no_hooks) (ping ∷ ping ∷ [])
unfolding wire audited_get audited_append assert_allowed assert_frame is_hard_blocked is_transport
    is_wrapper check_leaf
wire-Allowed_example = wire-Allowed false armed no_hooks true list_append take_all steps start

twice : install (some start) ≡ raise already_installed
unfolding install
twice = refl
