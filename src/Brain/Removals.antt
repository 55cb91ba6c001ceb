-- ===== src/Brain/Removals.antt =====
-- brain.mjs, `Brain.sweep`: what a sweep reports and what it has had removed, whatever the gateway
-- answers.
use mathlib.Core.List.{Memᴰ}
use enclave_gateway.Base.{
  ◌≤◌, ◌≡◌, false, true, [], some, none, List, Option, String, ℕ, All, length,
}
use enclave_gateway.Replay.Geo.{Params, GeoState, Session, Verdict, has}
use enclave_gateway.Policy.Json.{Value}
use enclave_gateway.Brain.Plan.{View, is_evictable, burn_enabled, holding}
use enclave_gateway.Brain.Planned.{Planned, Burnt}
use enclave_gateway.Brain.Sweep.{has_current, PolicyView, Summary, Gateway, Evicted, Tally}

-- The tally of a loop after `n` replies; `Q` holds of what it lists.
pub record Tallied (Q : Evicted → Type 0) (n : ℕ) (t : Tally) : Type 0 where
  pub counted : length t.evicted ≡ t.removed
  pub contested : t.contested_removed ≤ t.removed
  pub replies : t.removed ≤ n
  pub each : All Q t.evicted

-- What holds of a removed session.
pub record Removed (date : Value → Option ℕ) (view : View) (now : ℕ) (sessions : List Session)
    (verdicts : List Verdict) (e : Evicted) : Type 0 where
  pub listed : Memᴰ e.session sessions
  pub evictable : is_evictable view e.session ≡ true
  pub kept :
      has view.whitelist e.session.hash ≡ true
      → (burn_enabled view ≡ true) × Burnt verdicts e.session.hash
  pub held :
      holding date view now ≡ true → (burn_enabled view ≡ true) × Burnt verdicts e.session.hash

-- What a summary says.
pub record Accounted (date : Value → Option ℕ) (cap now : ℕ) (view : PolicyView) (s : Summary)
    : Type 0 where
  pub within : s.proposed ≤ cap
  pub answered : s.removed ≤ s.proposed
  pub counted : length s.evicted ≡ s.removed
  pub contested : s.contested_removed ≤ s.removed
  pub each : All (Removed date view.planning now s.sessions s.replay_verdicts) s.evicted

-- Without a current session in the roster nothing is proposed, and the geo state stays.
abbrev pub Cautious : PolicyView → Option GeoState → Summary → Type 0
Cautious view geo s =
    has_current s.sessions ≡ false → (s.proposed ≡ 0) × (s.evicted ≡ []) × (geo ≡ view.geo)

abbrev pub Reported :
    (Value → Option ℕ) → ℕ → ℕ → PolicyView → Option (Option GeoState × Summary) → Type 0
Reported date cap now view none = Unit
Reported date cap now view (some (geo, s)) = Accounted date cap now view s × Cautious view geo s

module _ {G : Type 0} (gateway : Gateway G) (date : Value → Option ℕ)
    (iso2 : String → Option String) (upper : String → String) (params : Params) (cap now : ℕ)
    (view : PolicyView) where
  -- The roster that is acted on has a current session.
  abbrev Sane : Option (List Session) → Type 0
  Sane none = Unit
  Sane (some sessions) = has_current sessions ≡ true
