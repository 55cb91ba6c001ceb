-- ===== src/Replay/Tests.antt =====
-- replay-detect.mjs at concrete rosters, and instances of the theorems on it.
use enclave_gateway.Base.{
  ◌⊎◌, All, arith, retain, insert, String, lookup, ◌≡◌, false, true, ◌∷◌, [], some, none, refl, ℕ,
  String-discrete,
}
use enclave_gateway.Replay.Locality.{country_of, platform_class, desktop, mobile}
use enclave_gateway.Replay.Geo.{
  Trigger, tier_b, Session, GeoState, Baseline, detect_defaults, make_geo_state, Verdict,
}
use enclave_gateway.Replay.Observe.{
  seed, push_ring, is_live, seed_with, flap_stats, sighting, record_row, note_row,
}
use enclave_gateway.Replay.Judge.{classify_row, judge, judge_teleport}
use enclave_gateway.Replay.Classify.{classify_loop, classify_replay, prune, seen_hashes}
use enclave_gateway.Replay.Home.{KeepsHome, classify_replay-KeepsHome}
use enclave_gateway.Replay.Evidence.{Burn, classify_row-Burn}
use enclave_gateway.Replay.Detect.{Foreign}
use enclave_gateway.Replay.Loop.{Raised}
use enclave_gateway.Replay.Polls.{classify_replay-Alarm}
use enclave_gateway.Replay.Row.{RingFits}
use enclave_gateway.Replay.Roster.{Sound, Bounded, classify_replay-Sound, classify_replay-Bounded}

country_of_tests :
    (country_of (some "Baltimore, United States") ≡ "United States")
    × (country_of (some "Singapore") ≡ "Singapore")
    × (country_of (some "A, B,  C ") ≡ "C")
    × (country_of none ≡ "")
unfolding country_of
country_of_tests = (refl, refl, refl, refl)

platform_class_tests :
    (platform_class (some "Apple iPhone") ≡ mobile)
    × (platform_class (some "ANDROID") ≡ mobile)
    × (platform_class (some "Windows") ≡ desktop)
    × (platform_class none ≡ desktop)
unfolding platform_class
platform_class_tests = (refl, refl, refl, refl)

-- A desktop that was enrolled in Baltimore, as it reports itself from a city at a time in seconds.
abbrev seen_at : String → ℕ → Session
seen_at city seconds = record {
  hash = "77";
  current = false;
  country = some city;
  date_active = some seconds;
  device_model = some "PC 64bit";
  platform = some "Windows";
  api_id = some "2040";
  official_app = some "true";
}

abbrev home : String
home = "Baltimore, United States"

abbrev abroad : String
abroad = "Warsaw, Poland"

abbrev after_home : GeoState
after_home = (classify_replay detect_defaults 1000000 (seen_at home 1000 ∷ []) make_geo_state).0

abbrev home_baseline : Baseline
home_baseline = record {
  home_keys = home ∷ [];
  known_devices = "PC 64bit" ∷ [];
  born_at = 1000000;
  seeded = true;
  enrolled = some (record {
    fp = record {
      device_model = some "PC 64bit";
      platform = some "Windows";
      api_id = some "2040";
      official_app = some "true";
    };
    platform = desktop;
  });
}

after_home_known : lookup "77" after_home.baseline ≡ some home_baseline
unfolding classify_replay classify_loop classify_row judge seed seed_with push_ring prune
    seen_hashes make_geo_state lookup insert retain String-discrete country_of platform_class
    is_live
after_home_known = refl

classify_replay-KeepsHome_example :
    KeepsHome "77" home_baseline
      (classify_replay detect_defaults 1005000 (seen_at abroad 1005 ∷ []) after_home).0
classify_replay-KeepsHome_example =
    classify_replay-KeepsHome detect_defaults refl 1005000 (seen_at abroad 1005 ∷ []) after_home
      "77" home_baseline after_home_known (unfold seen_hashes String-discrete in refl)

after_home_hold : after_home.reseed_hold ≡ false
unfolding classify_replay classify_loop classify_row seed seed_with push_ring prune make_geo_state
    lookup insert String-discrete
after_home_hold = refl

abroad-Foreign :
    Foreign detect_defaults 1005000 after_home (seen_at abroad 1005) home_baseline abroad
unfolding String-discrete is_live
abroad-Foreign = record {
  known = after_home_known;
  hold = after_home_hold;
  live = refl;
  at = refl;
  out = refl;
  untrusted = refl;
}

-- Another device of the account, at home.
abbrev at_home : Session
at_home = record (seen_at home 1005) { hash = "12" }

classify_replay-Alarm_example :
    Raised "77"
      (classify_replay detect_defaults 1005000 (at_home ∷ seen_at abroad 1005 ∷ []) after_home).1
    ⊎ Raised "77"
        (classify_replay detect_defaults 1007000
          (seen_at abroad 1007 ∷ at_home ∷ [])
          (classify_replay detect_defaults 1005000
            (at_home ∷ seen_at abroad 1005 ∷ [])
            after_home).0).1
unfolding is_live String-discrete
classify_replay-Alarm_example =
    classify_replay-Alarm detect_defaults refl 1005000 1007000 (at_home ∷ seen_at abroad 1005 ∷ [])
      (seen_at abroad 1007 ∷ at_home ∷ []) after_home (seen_at abroad 1005) (seen_at abroad 1007)
      home_baseline abroad (omega arith) refl abroad-Foreign refl refl refl refl

-- Another machine abroad is burnable at the first poll.
abbrev stranger : Session
stranger = record (seen_at abroad 1005) { device_model = some "MacBook" }

abbrev stranger_verdict : Verdict
stranger_verdict = record {
  hash = "77";
  tier = 3;
  tier_class = some tier_b;
  trigger = Trigger.teleport;
  locality = some abroad;
  platform = some desktop;
  signals = record {
    live = true;
    identity_changed = true;
    device_changed = true;
    cross_country = some true;
    fast_path = some true;
    flap = none;
    teleport = some (record { current = abroad; baseline = home ∷ []; persisted_polls = 1 });
  };
}

stranger_caught :
    (classify_row detect_defaults 1005000 after_home stranger).1 ≡ some stranger_verdict
unfolding classify_replay classify_loop classify_row judge judge_teleport seed seed_with push_ring
    prune seen_hashes make_geo_state lookup insert retain String-discrete country_of platform_class
    is_live flap_stats sighting record_row note_row
stranger_caught = refl

classify_row-Burn_example : Burn detect_defaults 1005000 after_home stranger stranger_verdict
classify_row-Burn_example =
    classify_row-Burn detect_defaults 1005000 after_home stranger stranger_verdict stranger_caught
      refl

classify_replay-Sound_example :
    All
      (Sound (stranger ∷ []) after_home.reseed_hold)
      (classify_replay detect_defaults 1005000 (stranger ∷ []) after_home).1
classify_replay-Sound_example =
    classify_replay-Sound detect_defaults 1005000 (stranger ∷ []) after_home

empty_fits : RingFits detect_defaults make_geo_state.ring
unfolding lookup make_geo_state
empty_fits h o e = cc

classify_replay-Bounded_example : Bounded detect_defaults (seen_at home 1000 ∷ []) after_home
classify_replay-Bounded_example =
    classify_replay-Bounded detect_defaults 1000000 (seen_at home 1000 ∷ []) make_geo_state
      empty_fits
