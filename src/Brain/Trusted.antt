-- ===== src/Brain/Trusted.antt =====
-- brain.mjs, `resolveActiveAllowlist`: the localities of a roster that are trusted now. Parameters:
-- `iso2` is `countryNameToIso2`, `upper` is `toUpperCase`, and `date` parses a time (`none` for NaN).
-- The notice that is logged for an unknown country is left out.
use enclave_gateway.Base.{
  ◌||◌, ◌&&◌, false, true, ◌∷◌, [], some, none, List, Option, String, Bool, ℕ, any, eqs,
  if◌then◌else◌,
}
use enclave_gateway.Replay.Geo.{Session, has, add}
use enclave_gateway.Replay.Locality.{country_of}
use enclave_gateway.Policy.Json.{Value}
use enclave_gateway.Policy.Core.{is_truthy}
use enclave_gateway.Policy.Ops.{string_of}
use enclave_gateway.Brain.Plan.{before}

module _ (iso2 : String → Option String) (upper : String → String) (date : Value → Option ℕ) where
  -- `travelActive`
  unfoldable pub travel_active : Value → ℕ → Bool
  travel_active travel_until now = is_truthy travel_until && before now (date travel_until)

  -- `citySet.has(loc)` of a locality that is not empty
  unfoldable pub is_city : List (String × Value) → String → Bool
  is_city [] loc = false
  is_city ((city, until) ∷ cities) loc = eqs city loc || is_city cities loc

  unfoldable pub is_country : List Value → String → Bool
  is_country countries code = any (λ c. eqs (upper (string_of c)) code) countries

  -- The test by the country: an unknown one counts as trusted.
  abbrev pub country_trusted : List Value → Option String → Bool
  country_trusted countries none = true
  country_trusted countries (some code) = is_country countries code

  unfoldable pub trusts : List (String × Value) → List Value → Value → ℕ → String → Bool
  trusts cities countries travel_until now loc =
      travel_active travel_until now
      || is_city cities loc
      || country_trusted countries (iso2 (country_of (some loc)))

  -- The body of the loop, on the localities that are active so far.
  unfoldable pub note_locality :
      List (String × Value) → List Value → Value → ℕ → List String → Option String → List String
  note_locality cities countries travel_until now active none = active
  note_locality cities countries travel_until now active (some loc) =
      if eqs loc "" || has active loc
      then active
      else if trusts cities countries travel_until now loc
      then add active loc
      else active

  unfoldable pub note_localities :
      List (String × Value) → List Value → Value → ℕ → List String → List Session → List String
  note_localities cities countries travel_until now active [] = active
  note_localities cities countries travel_until now active (s ∷ ss) =
      note_localities cities countries travel_until now
        (note_locality cities countries travel_until now active s.country) ss

  unfoldable pub resolve_active_allowlist :
      List (String × Value) → List Value → Value → ℕ → List Session → List String
  resolve_active_allowlist cities countries travel_until now sessions =
      note_localities cities countries travel_until now [] sessions
