-- ===== src/AuditedSender/Seams.antt =====
-- audited-sender.mjs, `installAuditedSerialization`: the audited `append` and `get`. The library's
-- own `append` and `get`, on its queue `Q`, are parameters; a state without a request, or null, has
-- no request here. Whether a caller listens to violations is `listens`.
use enclave_gateway.Base.{
  Bool, true, List, [], ◌∷◌, ◌++◌, Result, ok, raise, Option, none, some, ◌>>◌, throw_if, ℕ,
  if◌then◌else◌,
}
use enclave_gateway.Chokepoint.Frame.{Frame, Mode}
use enclave_gateway.Chokepoint.Check.{Hooks, Blocked, assert_allowed}

pub record RequestState : Type 0 where
  pub request : Option Frame
  pub promise : ℕ

-- An element of a batch: a state, or an array of them.
pub data Item : Type 0 where
  single : RequestState → Item
  several : List RequestState → Item

abbrev pub states : Item → List RequestState
states (single s) = s ∷ []
states (several ss) = ss

pub data AuditError : Type 0 where
  unexpected_shape already_installed : AuditError
  refused_at_append refused_at_serialize : Blocked → AuditError

-- The packer: the library's queue, the promises rejected so far, the violations reported so far,
-- and the mark `__sessionsAudited`.
pub record Packer (Q : Type 0) : Type 0 where
  pub queue : Q
  pub rejected : List ℕ
  pub violations : List Frame
  pub audited : Bool

-- What a call comes to, and the packer after it.
pub record Outcome (Q A : Type 0) : Type 0 where
  pub result : Result AuditError A
  pub packer : Packer Q

-- The states of a batch, one after the other.
unfoldable pub all_states : List Item → List RequestState
all_states [] = []
all_states (i ∷ is) = states i ++ all_states is

module _ (has_container : Bool) (mode : Mode) (hooks : Hooks) (listens : Bool) where
  abbrev pub check : Frame → Result Blocked (Unit {0})
  check f = assert_allowed has_container mode hooks f

  abbrev pub reported : {Q : Type 0} → Frame → Packer Q → Packer Q
  reported f p = if listens then record p { violations = f ∷ p.violations } else p

  module _ {Q : Type 0} (orig_append : RequestState → Bool → Bool → Q → Q) where
    -- `packer.append`
    unfoldable pub audited_append : RequestState → Bool → Bool → Packer Q → Outcome Q (Unit {0})
    audited_append s set_ready at_start p =
        let appended : Outcome Q (Unit {0}) = record {
          result = ok tt;
          packer = record p { queue = orig_append s set_ready at_start p.queue };
        } in
        elim s.request [
          | none ↦ appended
          | some f ↦ elim (check f) [
            | ok _ ↦ appended
            | raise b ↦ record {
              result = raise (refused_at_append b);
              packer = record (reported f p) { rejected = s.promise ∷ p.rejected };
            }
          ]
        ]

  -- The loop over the states of a batch, which ends at the first that is refused.
  unfoldable pub validate_states :
      {Q : Type 0} → List RequestState → Packer Q → Outcome Q (Unit {0})
  validate_states [] p = record { result = ok tt; packer = p }
  validate_states (s ∷ ss) p =
      let rest = validate_states ss p in
      elim s.request [
        | none ↦ rest
        | some f ↦ elim (check f) [
          | ok _ ↦ rest
          | raise b ↦ record { result = raise (refused_at_serialize b); packer = reported f p }
        ]
      ]

  module _ {Q : Type 0} (orig_get : Q → Option (List Item) × Q) where
    -- `packer.get`, whose batch goes on to be encrypted
    unfoldable pub audited_get : Packer Q → Outcome Q (Option (List Item))
    unfolding validate_states all_states
    audited_get p =
        let taken : Packer Q = record p { queue = (orig_get p.queue).1 } in
        elim ((orig_get p.queue).0) [
          | none ↦ record { result = ok none; packer = taken }
          | some batch ↦
              let checked = validate_states (all_states batch) taken in
              record { result = checked.result >> ok (some batch); packer = checked.packer }
        ]

-- The installation: the sender's packer, absent where it has not the shape of the pinned build.
unfoldable pub install : {Q : Type 0} → Option (Packer Q) → Result AuditError (Packer Q)
install none = raise unexpected_shape
install (some p) = throw_if p.audited already_installed >> ok (record p { audited = true })
