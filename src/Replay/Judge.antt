-- ===== src/Replay/Judge.antt =====
-- replay-detect.mjs: how a row is judged, and the body of the loop of `classifyReplay`.
use enclave_gateway.Base.{
  leb, length, ◌||◌, min, true, eqs, map, lookup, false, ◌&&◌, ◌+◌, some, if◌then◌else◌, not,
  remove, insert, none, Option, List, ℕ, Bool, String,
}
use enclave_gateway.Replay.Locality.{country_of}
use enclave_gateway.Replay.Geo.{
  Session, Params, Baseline, Streak, GeoState, TierClass, tier_a, tier_b, tier_c, Trigger, Verdict,
  has, add,
}
use enclave_gateway.Replay.Observe.{
  Sighting, flap_stats, ring_at, note_row, record_row, sighting, seed,
}

-- `cap`: in a re-seed window every verdict is an alert at most.
unfoldable pub cap : GeoState → ℕ → ℕ
cap g tier = if g.reseed_hold then min tier 2 else tier

abbrev pub clear_streak : GeoState → String → GeoState
clear_streak g hash = record g { pending_teleport = remove hash g.pending_teleport }

unfoldable pub flap_verdict : Params → GeoState → Sighting → ℕ × List String → Verdict
unfolding cap
flap_verdict p g x (transitions, countries) = record {
  hash = x.hash;
  tier = cap g 3;
  tier_class = some tier_a;
  trigger = Trigger.flap;
  locality = x.locality;
  platform = some x.platform;
  signals = record {
    live = x.live;
    identity_changed = x.id_changed;
    device_changed = x.device_changed;
    cross_country = none;
    fast_path = none;
    flap =
        some (record { transitions = transitions; countries = countries; window_ms = p.w_flap_ms });
    teleport = none;
  };
}

unfoldable pub teleport_verdict :
    GeoState → Sighting → Baseline → String → TierClass → ℕ → Bool → ℕ → Verdict
unfolding cap
teleport_verdict g x base locality class tier fast polls = record {
  hash = x.hash;
  tier = cap g tier;
  tier_class = some class;
  trigger = Trigger.teleport;
  locality = some locality;
  platform = some x.platform;
  signals = record {
    live = x.live;
    identity_changed = fast;
    device_changed = x.device_changed;
    cross_country = some (not (has (map (λ k. country_of (some k)) base.home_keys) x.country));
    fast_path = some fast;
    flap = none;
    teleport =
        some (record { current = locality; baseline = base.home_keys; persisted_polls = polls });
  };
}

unfoldable pub advisory_verdict : Sighting → Verdict
advisory_verdict x = record {
  hash = x.hash;
  tier = 1;
  tier_class = none;
  trigger = Trigger.advisory;
  locality = x.locality;
  platform = none;
  signals = record {
    live = x.live;
    identity_changed = x.id_changed;
    device_changed = x.device_changed;
    cross_country = none;
    fast_path = none;
    flap = none;
    teleport = none;
  };
}

abbrev pub is_trusted : Option (List String) → String → String → Bool
is_trusted none locality country = false
is_trusted (some trusted) locality country = has trusted locality || has trusted country

-- How many live polls in a row saw this locality, the present one included.
abbrev pub streak_count : Option Streak → String → ℕ
streak_count none locality = 1
streak_count (some s) locality = if eqs s.locality locality then s.count + 1 else 1

-- A live row outside its baseline: Tier B, a trusted locality, or Tier C.
unfoldable pub judge_teleport :
    Params → GeoState → Sighting → Baseline → String → GeoState × Option Verdict
unfolding teleport_verdict
judge_teleport p g x base locality =
    let count = streak_count (lookup x.hash g.pending_teleport) locality in
    if x.id_changed
    then (clear_streak g x.hash, some (teleport_verdict g x base locality tier_b 3 true 1))
    else if is_trusted p.active_allowlist locality x.country
    then (clear_streak g x.hash, none)
    else (
      record g {
        pending_teleport =
            insert x.hash (record { locality = locality; count = count }) g.pending_teleport;
      },
      some (
          teleport_verdict g x base locality tier_c
            (if leb p.teleport_min_polls count then 3 else 2) false count),
    )

-- Back in the baseline, or never out of it: the streak is broken, and a changed label is a notice.
unfoldable pub settle : Params → GeoState → Sighting → Baseline → GeoState × Option Verdict
unfolding advisory_verdict add
settle p g x base =
    let cleared = clear_streak g x.hash in
    elim x.locality [
      | none ↦ (cleared, none)
      | some locality ↦ (
        if p.allow_passive_widen && x.live
            then record cleared {
              baseline =
                  insert x.hash (record base { home_keys = add base.home_keys locality })
                    cleared.baseline;
            }
            else cleared,
        elim x.prev_locality [
          | none ↦ none
          | some previous ↦ if eqs previous locality then none else some (advisory_verdict x)
        ],
      )
    ]

-- The test of Tier A, on the transitions and the countries of the flap window.
abbrev pub is_flap : Params → Bool → ℕ × List String → Bool
is_flap p live (transitions, countries) =
    live && leb p.min_transitions transitions && leb p.min_distinct_countries (length countries)

unfoldable pub judge : Params → ℕ → GeoState → Sighting → Baseline → GeoState × Option Verdict
judge p now g x base =
    let stats = flap_stats (ring_at g x.hash) now p in
    if is_flap p x.live stats
    then (clear_streak g x.hash, some (flap_verdict p g x stats))
    else elim x.locality [
      | none ↦ settle p g x base
      | some locality ↦
          if x.live && not (has base.home_keys locality)
          then judge_teleport p g x base locality
          else settle p g x base
    ]

-- The body of the loop for a row that is neither current nor the guard's own.
unfoldable pub classify_row : Params → ℕ → GeoState → Session → GeoState × Option Verdict
classify_row p now g s = elim (lookup s.hash g.baseline) [
  | none ↦ (seed p now g s, none)
  | some base ↦ judge p now (record_row p now g s base) (sighting p now g s base) (note_row base s)
]
