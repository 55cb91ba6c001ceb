-- ===== src/Brain/Plan.antt =====
-- brain.mjs, `Brain.sweep`: from the roster and the verdicts to the plan of the evictions. The parameter
-- `date` is `Date.parse` (`none` for NaN).
use mathlib.Core.Option
use enclave_gateway.Base.{
  ◌||◌, ◌&&◌, ◌++◌, ◌==◌, false, true, ◌∷◌, [], some, none, List, Option, String, Bool, ℕ, any,
  filter, find, not, eqs, ltb, leb, length, if◌then◌else◌,
}
use enclave_gateway.Replay.Geo.{Session, Verdict, TierClass, tier_a, tier_b, tier_c, has, add}
use enclave_gateway.Replay.Locality.{Platform, desktop}
use enclave_gateway.Policy.Json.{Value}
use enclave_gateway.Policy.Core.{is_truthy, text_is}

-- What of `view` the plan is made from.
pub record View : Type 0 where
  pub whitelist : List String
  pub fresh_until : Option ℕ
  pub enroll_until : Value
  pub recently_killed : Option (List String)
  pub contest_protection : Value

-- `DEFAULTS.MAX_EVICT_PER_SWEEP`
abbrev pub max_evict_per_sweep : ℕ
max_evict_per_sweep = 3

abbrev pub is_fresh : Option ℕ → ℕ → Bool
is_fresh none now = false
is_fresh (some until) now = ltb now until

abbrev pub before : ℕ → Option ℕ → Bool
before now none = false
before now (some t) = ltb now t

abbrev pub is_killed : Option (List String) → String → Bool
is_killed none hash = false
is_killed (some killed) hash = has killed hash

-- Neither the guard's own session nor one that was removed within the cooldown.
abbrev pub is_evictable : View → Session → Bool
is_evictable view s =
    not s.current && not (eqs s.hash "0") && not (is_killed view.recently_killed s.hash)

-- The filter of `candidatesAll`.
abbrev pub is_candidate : View → Session → Bool
is_candidate view s =
    not s.current
    && not (eqs s.hash "0")
    && not (has view.whitelist s.hash)
    && not (is_killed view.recently_killed s.hash)

-- `Number(s.dateActive ?? 0)`
abbrev pub active_at : Session → ℕ
active_at s = Option.get_or s.date_active 0

-- The stable sort, the most recent first.
unfoldable pub insert_recent : Session → List Session → List Session
insert_recent s [] = s ∷ []
insert_recent s (t ∷ ts) =
    if ltb (active_at s) (active_at t) then t ∷ insert_recent s ts else s ∷ t ∷ ts

unfoldable pub sort_recent : List Session → List Session
unfolding insert_recent
sort_recent [] = []
sort_recent (s ∷ ss) = insert_recent s (sort_recent ss)

unfoldable pub candidates_all : View → List Session → List Session
unfolding sort_recent
candidates_all view sessions = sort_recent (filter (is_candidate view) sessions)

abbrev pub is_desktop : Option Platform → Bool
is_desktop (some desktop) = true
is_desktop _ = false

-- The classes that are burnt: a teleport of the same identity on a desktop alone.
abbrev pub burnt_class : Option TierClass → Option Platform → Bool
burnt_class (some tier_a) p = true
burnt_class (some tier_b) p = true
burnt_class (some tier_c) p = is_desktop p
burnt_class none p = false

abbrev pub is_burnable : Verdict → Bool
is_burnable v = v.tier == 3 && burnt_class v.tier_class v.platform

-- The keys of `tier3`, in the order in which they were set first.
unfoldable pub tier3_keys : List Verdict → List String → List String
unfolding add
tier3_keys [] keys = keys
tier3_keys (v ∷ vs) keys = tier3_keys vs (if is_burnable v then add keys v.hash else keys)

abbrev pub burn_enabled : View → Bool
burn_enabled view = text_is "auto_burn" view.contest_protection

abbrev pub found_burn : View → Option Session → List Session → List Session
found_burn view none rest = rest
found_burn view (some s) rest = if is_evictable view s then s ∷ rest else rest

unfoldable pub burns_of : View → List Session → List String → List Session
burns_of view sessions [] = []
burns_of view sessions (h ∷ hs) =
    let rest = burns_of view sessions hs in found_burn view (find (λ s. eqs s.hash h) sessions) rest

unfoldable pub contested_burns : View → List Session → List Verdict → List Session
contested_burns view sessions verdicts =
    if burn_enabled view then burns_of view sessions (tier3_keys verdicts []) else []

-- An entry of the plan.
pub record Proposal : Type 0 where
  pub session : Session
  pub contested : Bool

-- The loop that fills the plan, up to the cap.
unfoldable pub fill : ℕ → Bool → List Session → List Proposal → List Proposal
fill cap contested [] plan = plan
fill cap contested (s ∷ ss) plan =
    if leb cap (length plan)
    then plan
    else fill cap contested ss (plan ++ (record { session = s; contested = contested } ∷ []))

-- The candidates that are not contested.
unfoldable pub mvp_candidates : View → List Session → List Session → List Session
mvp_candidates view sessions contested =
    filter (λ s. not (any (λ c. eqs c.hash s.hash) contested)) (candidates_all view sessions)

module _ (date : Value → Option ℕ) where
  -- `fresh || enrollHold`
  unfoldable pub enroll_hold : View → ℕ → Bool
  enroll_hold view now = is_truthy view.enroll_until && before now (date view.enroll_until)

  unfoldable pub holding : View → ℕ → Bool
  unfolding enroll_hold
  holding view now = is_fresh view.fresh_until now || enroll_hold view now

  unfoldable pub plan_sweep : ℕ → View → ℕ → List Session → List Verdict → List Proposal
  plan_sweep cap view now sessions verdicts =
      let contested = contested_burns view sessions verdicts in
      let burns = fill cap true contested [] in
      if holding view now
      then burns
      else fill cap false (mvp_candidates view sessions contested) burns
