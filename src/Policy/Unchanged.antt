-- ===== src/Policy/Unchanged.antt =====
-- policy-verify.mjs, `verifyDelta`: the fields that a change leaves alone, by a table of their own.
use enclave_gateway.Base.{
  not, ℕ, List, Option, ◌&&◌, arith, ◌≡◌, false, true, ok, ◌∷◌, [], first_ok, second_ok, All,
  throw_if,
}
use enclave_gateway.Policy.Json.{Value, canonical_eq}
use enclave_gateway.Policy.Core.{Core, PolicyField, get}
use enclave_gateway.Policy.Action.{Action, DeltaError}
use enclave_gateway.Policy.Delta.{verify_delta, same_except, same_fields, includes, all_fields}

abbrev pub may_change : Action → List PolicyField
may_change Action.set_whitelist = PolicyField.whitelist ∷ []
may_change Action.set_threshold = PolicyField.threshold ∷ []
may_change Action.allow_reset = PolicyField.reset_allowed_until ∷ []
may_change Action.protect_reset = PolicyField.reset_allowed_until ∷ []
may_change Action.disconnect = []
may_change Action.set_contest_protection = PolicyField.contest_protection ∷ []
may_change Action.set_allow_ip_jumping = PolicyField.allow_ip_jumping ∷ []
may_change Action.set_locality_allowlist = PolicyField.locality_allowlist ∷ []
may_change Action.set_travel_mode = PolicyField.travel_mode ∷ []
may_change Action.set_country_allowlist = PolicyField.country_allowlist ∷ []
may_change Action.set_travel_window = PolicyField.travel_until ∷ []
may_change Action.open_enroll = PolicyField.enroll_until ∷ []
may_change Action.remove_key = PolicyField.signers ∷ PolicyField.threshold ∷ []
may_change Action.add_key = PolicyField.signers ∷ []
may_change Action.arm = []
may_change (Action.unknown s) = []

abbrev Pinned : List PolicyField → Core → Core → PolicyField → Type 0
Pinned changed prev core f =
    includes changed f ≡ false → canonical_eq (get f prev) (get f core) ≡ true

same_fields_sound :
    (changed : List PolicyField) (prev core : Core) (fs : List PolicyField)
    → same_fields changed prev core fs ≡ ok tt
    → All (Pinned changed prev core) fs
unfolding same_fields
same_fields_sound changed prev core [] e = tt
same_fields_sound changed prev core (f ∷ fs) e =
    let test =
      throw_if (not (includes changed f) && not (canonical_eq (get f prev) (get f core)))
        (DeltaError.may_not_change f) in
    let first : test ≡ ok tt = first_ok test (same_fields changed prev core fs) e in
    (
      λ out. ground arith,
      same_fields_sound changed prev core fs (second_ok test (same_fields changed prev core fs) e),
    )

All-all_fields {ℓ} : (P : PolicyField → Type ℓ) → All P all_fields → (f : PolicyField) → P f
All-all_fields P h PolicyField.whitelist = h.0
All-all_fields P h PolicyField.threshold = h.1.0
All-all_fields P h PolicyField.reset_allowed_until = h.1.1.0
All-all_fields P h PolicyField.signers = h.1.1.1.0
All-all_fields P h PolicyField.contest_protection = h.1.1.1.1.0
All-all_fields P h PolicyField.allow_ip_jumping = h.1.1.1.1.1.0
All-all_fields P h PolicyField.enroll_until = h.1.1.1.1.1.1.0
All-all_fields P h PolicyField.locality_allowlist = h.1.1.1.1.1.1.1.0
All-all_fields P h PolicyField.travel_mode = h.1.1.1.1.1.1.1.1.0
All-all_fields P h PolicyField.country_allowlist = h.1.1.1.1.1.1.1.1.1.0
All-all_fields P h PolicyField.travel_until = h.1.1.1.1.1.1.1.1.1.1.0

pub verify_delta-same_except :
    (date : Value → Option ℕ) (action : Action) (prev core : Core)
    → verify_delta date action prev core ≡ ok tt
    → same_except prev core (may_change action) ≡ ok tt
unfolding verify_delta
verify_delta-same_except date Action.set_whitelist prev core e = e
verify_delta-same_except date Action.disconnect prev core e = e
verify_delta-same_except date Action.arm prev core e = cc
verify_delta-same_except date (Action.unknown s) prev core e = cc
verify_delta-same_except date action prev core e = first_ok _ _ e

-- If a delta is verified, every policy field outside those that its action may change is canonically
-- the same in the two cores: one approval cannot carry a second change.
pub verify_delta_pinned :
    (date : Value → Option ℕ) (action : Action) (prev core : Core)
    → verify_delta date action prev core ≡ ok tt
    → (f : PolicyField) → includes (may_change action) f ≡ false
    → canonical_eq (get f prev) (get f core) ≡ true
unfolding same_except
verify_delta_pinned date action prev core e f out =
    All-all_fields (Pinned (may_change action) prev core)
      (same_fields_sound (may_change action) prev core all_fields
        (verify_delta-same_except date action prev core e))
      f out
