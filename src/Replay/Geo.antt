-- ===== src/Replay/Geo.antt =====
-- replay-detect.mjs: the roster's rows, the detector's parameters and the geo state.
use enclave_gateway.Base.{
  ℕ, Bool, false, Option, none, List, [], ◌∷◌, ◌++◌, String, eqs, any, if◌then◌else◌,
}
use enclave_gateway.Replay.Locality.{Platform}

-- A row of the roster. `api_id` and `official_app` are compared as strings, and are kept as such.
pub record Session : Type 0 where
  pub hash : String
  pub current : Bool
  pub country : Option String
  pub date_active : Option ℕ
  pub device_model : Option String
  pub platform : Option String
  pub api_id : Option String
  pub official_app : Option String

-- `params`, and the resolved set of trusted localities (null if it is not given)
pub record Params : Type 0 where
  pub w_flap_ms : ℕ
  pub min_transitions : ℕ
  pub min_distinct_countries : ℕ
  pub ring_n : ℕ
  pub live_window_ms : ℕ
  pub teleport_min_polls : ℕ
  pub allow_passive_widen : Bool
  pub active_allowlist : Option (List String)

-- `DETECT_DEFAULTS`
abbrev pub detect_defaults : Params
detect_defaults = record {
  w_flap_ms = 180000;
  min_transitions = 3;
  min_distinct_countries = 2;
  ring_n = 64;
  live_window_ms = 10000;
  teleport_min_polls = 2;
  allow_passive_widen = false;
  active_allowlist = none;
}

pub record Fingerprint : Type 0 where
  pub device_model : Option String
  pub platform : Option String
  pub api_id : Option String
  pub official_app : Option String

pub record Observation : Type 0 where
  pub locality : Option String
  pub country : String
  pub device_model : Option String
  pub date_active : Option ℕ
  pub at : ℕ
  pub live : Bool

-- `enrolledFp` and `enrolledPlatform`, which are set together
pub record Enrolled : Type 0 where
  pub fp : Fingerprint
  pub platform : Platform

pub record Baseline : Type 0 where
  pub home_keys : List String
  pub known_devices : List String
  pub born_at : ℕ
  pub seeded : Bool
  pub enrolled : Option Enrolled

pub record Streak : Type 0 where
  pub locality : String
  pub count : ℕ

pub record GeoState : Type 0 where
  pub ring : List (String × List Observation)
  pub baseline : List (String × Baseline)
  pub pending_teleport : List (String × Streak)
  pub reseed_hold : Bool

unfoldable pub make_geo_state : GeoState
make_geo_state = record { ring = []; baseline = []; pending_teleport = []; reseed_hold = false }

pub data TierClass : Type 0 where
  tier_a tier_b tier_c : TierClass

pub data Trigger : Type 0 where
  advisory flap teleport : Trigger

pub record FlapSignal : Type 0 where
  pub transitions : ℕ
  pub countries : List String
  pub window_ms : ℕ

pub record TeleportSignal : Type 0 where
  pub current : String
  pub baseline : List String
  pub persisted_polls : ℕ

-- `signals`; what a trigger does not set is `none`
pub record Signals : Type 0 where
  pub live : Bool
  pub identity_changed : Bool
  pub device_changed : Bool
  pub cross_country : Option Bool
  pub fast_path : Option Bool
  pub flap : Option FlapSignal
  pub teleport : Option TeleportSignal

pub record Verdict : Type 0 where
  pub hash : String
  pub tier : ℕ
  pub tier_class : Option TierClass
  pub trigger : Trigger
  pub locality : Option String
  pub platform : Option Platform
  pub signals : Signals

-- `Set.has` and `Set.add`, on a set as the list of its elements in the order of insertion
abbrev pub has : List String → String → Bool
has xs x = any (λ y. eqs y x) xs

unfoldable pub add : List String → String → List String
add xs x = if has xs x then xs else xs ++ (x ∷ [])
