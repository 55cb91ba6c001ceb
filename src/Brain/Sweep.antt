-- ===== src/Brain/Sweep.antt =====
-- brain.mjs, `Brain.sweep`: the whole sweep, over a gateway whose calls are its parameters.
use enclave_gateway.Base.{
  length, filter, not, ◌-◌, ◌+◌, ◌&&◌, ◌++◌, true, ◌∷◌, [], some, none, List, Option, String, Bool,
  ℕ, any, eqs, if◌then◌else◌,
}
use enclave_gateway.Replay.Geo.{Session, Verdict, Params, GeoState, Trigger, TierClass}
use enclave_gateway.Replay.Classify.{classify_replay}
use enclave_gateway.Policy.Json.{Value}
use enclave_gateway.Brain.Trusted.{resolve_active_allowlist}
use enclave_gateway.Brain.Plan.{
  plan_sweep, mvp_candidates, contested_burns, holding, enroll_hold, View, Proposal, is_burnable,
}

-- `arg` of a proposed eviction; `contest_override` is absent where it is false.
pub record EvictArg : Type 0 where
  pub hash : String
  pub authorized : String
  pub contest_override : Bool

-- The calls of the gateway, with the world that they change; `none` where a call throws.
pub record Gateway (G : Type 0) : Type 0 where
  pub list_sessions : G → G × Option (List Session)
  pub evict_session : G → EvictArg → G × Option Bool

pub record PolicyView : Type 0 where
  pub planning : View
  pub auth_token : String
  pub geo : Option GeoState
  pub locality_allowlist : List (String × Value)
  pub country_allowlist : List Value
  pub travel_until : Value

-- A session that was removed; `burn` holds the trigger (`none` for "replay"), the class and the
-- locality of a contested one.
pub record Evicted : Type 0 where
  pub session : Session
  pub burn : Option (Option Trigger × Option TierClass × Option String)

pub data Skipped : Type 0 where
  no_policy_view roster_torn in_enroll_hold in_fresh_window : Skipped

pub record Summary : Type 0 where
  pub listed : ℕ
  pub proposed : ℕ
  pub removed : ℕ
  pub contested_removed : ℕ
  pub pending : ℕ
  pub sessions : List Session
  pub evicted : List Evicted
  pub replay_verdicts : List Verdict
  pub skipped : Option Skipped

pub record Tally : Type 0 where
  pub removed : ℕ
  pub contested_removed : ℕ
  pub evicted : List Evicted

-- `sessions.some((s) => s.current)`
abbrev pub has_current : List Session → Bool
has_current sessions = any (λ s. s.current) sessions

-- `tier3.get(hash)`: the last burnable verdict on the hash
unfoldable pub burn_of : List Verdict → String → Option Verdict
burn_of [] hash = none
burn_of (v ∷ vs) hash = elim (burn_of vs hash) [
  | some w ↦ some w
  | none ↦ if is_burnable v && eqs v.hash hash then some v else none
]

abbrev pub or_country : Option String → Session → Option String
or_country (some locality) s = some locality
or_country none s = s.country

unfoldable pub burn_tag :
    Option Verdict → Session → Option Trigger × Option TierClass × Option String
burn_tag none s = (none, none, s.country)
burn_tag (some v) s = (some v.trigger, v.tier_class, or_country v.locality s)

unfoldable pub evicted_entry : List Verdict → Proposal → Evicted
evicted_entry verdicts p = record {
  session = p.session;
  burn = if p.contested then some (burn_tag (burn_of verdicts p.session.hash) p.session) else none;
}

-- What the answer to one proposal adds; a refusal adds nothing.
unfoldable pub count_reply : List Verdict → Proposal → Option Bool → Tally → Tally
count_reply verdicts p (some true) t = record {
  removed = t.removed + 1;
  contested_removed = if p.contested then t.contested_removed + 1 else t.contested_removed;
  evicted = t.evicted ++ (evicted_entry verdicts p ∷ []);
}
count_reply verdicts p _ t = t

-- The summary of a sweep that only watches; a count that the code leaves out is 0.
abbrev pub empty_summary : List Session → Option Skipped → Summary
empty_summary sessions skipped = record {
  listed = length sessions;
  proposed = 0;
  removed = 0;
  contested_removed = 0;
  pending = 0;
  sessions = sessions;
  evicted = [];
  replay_verdicts = [];
  skipped = skipped;
}

module _ {G : Type 0} (gateway : Gateway G) where
  unfoldable pub evict_all : String → List Verdict → List Proposal → G → Tally → G × Tally
  evict_all token verdicts [] g t = (g, t)
  evict_all token verdicts (p ∷ ps) g t =
      let (g', reply) =
        gateway.evict_session g
          (record { hash = p.session.hash; authorized = token; contest_override = p.contested }) in
      evict_all token verdicts ps g' (count_reply verdicts p reply t)

  -- The roster that is read again once where it has no current session; `none` where it is torn still.
  abbrev pub retry_roster : G × Option (List Session) → G × Option (List Session)
  retry_roster (g, none) = (g, none)
  retry_roster (g, some sessions) = (g, if has_current sessions then some sessions else none)

  unfoldable pub sane_roster : G → List Session → G × Option (List Session)
  sane_roster g sessions =
      if has_current sessions then (g, some sessions) else retry_roster (gateway.list_sessions g)

  module _ (date : Value → Option ℕ) (iso2 : String → Option String) (upper : String → String)
      (params : Params) (cap now : ℕ) where
    unfoldable pub classify_view :
        PolicyView → List Session → Option GeoState → Option GeoState × List Verdict
    classify_view view sessions none = (none, [])
    classify_view view sessions (some geo) =
        let (geo', verdicts) =
          classify_replay
            (record params {
              active_allowlist = some (
                  resolve_active_allowlist iso2 upper date view.locality_allowlist
                    view.country_allowlist view.travel_until now sessions);
            })
            now sessions geo in
        (some geo', verdicts)

    -- `pending`
    abbrev pub pending_of : Bool → List Session → List Proposal → ℕ
    pending_of hold mvp plan =
        if hold then length mvp else length mvp - length (filter (λ p. not p.contested) plan)

    abbrev pub skipped_of : View → Option Skipped
    skipped_of view =
        if holding date view now
        then some (if enroll_hold date view now then in_enroll_hold else in_fresh_window)
        else none

    -- The rest of a sweep, on a roster that has a current session.
    unfoldable pub act :
        PolicyView
        → List Session
        → Option GeoState
        → List Verdict
        → G
        → G × Option GeoState × Summary
    act view sessions geo verdicts g =
        let plan = plan_sweep date cap view.planning now sessions verdicts in
        let mvp =
          mvp_candidates view.planning sessions (contested_burns view.planning sessions verdicts) in
        let (g', tally) =
          evict_all view.auth_token verdicts plan g
            (record { removed = 0; contested_removed = 0; evicted = [] }) in
        (
          g',
          geo,
          record {
            listed = length sessions;
            proposed = length plan;
            removed = tally.removed;
            contested_removed = tally.contested_removed;
            pending = pending_of (holding date view.planning now) mvp plan;
            sessions = sessions;
            evicted = tally.evicted;
            replay_verdicts = verdicts;
            skipped = skipped_of view.planning;
          },
        )

    abbrev pub on_roster :
        PolicyView → List Session → G × Option (List Session) → G × Option GeoState × Summary
    on_roster view first (g, none) = (g, view.geo, empty_summary first (some roster_torn))
    on_roster view first (g, some sessions) =
        let (geo, verdicts) = classify_view view sessions view.geo in
        act view sessions geo verdicts g

    abbrev pub on_listed :
        PolicyView → G × Option (List Session) → G × Option (Option GeoState × Summary)
    on_listed view (g, none) = (g, none)
    on_listed view (g, some sessions) =
        let (g', geo, summary) = on_roster view sessions (sane_roster g sessions) in
        (g', some (geo, summary))

    -- `none` where the first reading of the roster throws, and the sweep with it.
    unfoldable pub sweep : Option PolicyView → G → G × Option (Option GeoState × Summary)
    sweep none g = (g, some (none, empty_summary [] (some no_policy_view)))
    sweep (some view) g = on_listed view (gateway.list_sessions g)
