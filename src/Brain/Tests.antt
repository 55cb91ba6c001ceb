-- ===== src/Brain/Tests.antt =====
-- brain.mjs at a concrete roster and gateway, and instances of the theorems on it. A time is a number
-- here, and the resolver knows one country.
use enclave_gateway.Base.{
  String-discrete, ◌↔◌, ◌+◌, ◌≤◌, ◌≡◌, false, true, ◌∷◌, [], some, none, refl, List, Option, String,
  Bool, ℕ, length, map, eqs, if◌then◌else◌, All,
}
use enclave_gateway.Replay.Geo.{Session, Verdict, Trigger, tier_a, detect_defaults, has}
use enclave_gateway.Replay.Locality.{desktop}
use enclave_gateway.Policy.Json.{str, null}
use enclave_gateway.Policy.Core.{number_of}
use enclave_gateway.Brain.Plan.{
  tier3_keys, burns_of, candidates_all, fill, View, plan_sweep, contested_burns, mvp_candidates,
  holding,
}
use enclave_gateway.Brain.Planned.{Planned, plan_sweep-Planned}
use enclave_gateway.Brain.Trusted.{resolve_active_allowlist}
use enclave_gateway.Brain.Localities.{Shown, resolve_active_allowlist_iff}
use enclave_gateway.Brain.Sweep.{
  classify_view, evict_all, act, sane_roster, Gateway, PolicyView, sweep,
}
use enclave_gateway.Brain.Security.{
  security_events, propose_decline, Security, check_security, reset_blocked,
}

abbrev session : String → Bool → ℕ → Session
session hash current active = record {
  hash = hash;
  current = current;
  country = some "Lyon, France";
  date_active = some active;
  device_model = some "PC";
  platform = some "Windows";
  api_id = some "2040";
  official_app = some "true";
}

abbrev roster : List Session
roster =
    session "0" true 900
    ∷ session "11" false 100
    ∷ session "12" false 300
    ∷ session "77" false 50
    ∷ []

abbrev flapping : Verdict
flapping = record {
  hash = "77";
  tier = 3;
  tier_class = some tier_a;
  trigger = Trigger.flap;
  locality = some "Lyon, France";
  platform = some desktop;
  signals = record {
    live = true;
    identity_changed = false;
    device_changed = false;
    cross_country = none;
    fast_path = none;
    flap = none;
    teleport = none;
  };
}

abbrev planning : View
planning = record {
  whitelist = "77" ∷ [];
  fresh_until = none;
  enroll_until = null;
  recently_killed = none;
  contest_protection = str "auto_burn";
}

-- The contested session first, then the most recent of the others.
plan_test :
    map (λ p. p.session.hash) (plan_sweep number_of 2 planning 1000 roster (flapping ∷ []))
    ≡ "77" ∷ "12" ∷ []
unfolding plan_sweep holding fill mvp_candidates candidates_all String-discrete contested_burns
    burns_of tier3_keys
plan_test = refl

plan_sweep-Planned_example :
    (length (plan_sweep number_of 2 planning 1000 roster (flapping ∷ [])) ≤ 2)
    × All
        (Planned planning 1000 number_of roster (flapping ∷ []))
        (plan_sweep number_of 2 planning 1000 roster (flapping ∷ []))
plan_sweep-Planned_example = plan_sweep-Planned number_of planning 1000 roster (flapping ∷ []) 2

abbrev knows_france : String → Option String
knows_france name = if eqs name "France" then some "FR" else none

abbrev same_text : String → String
same_text s = s

resolve_active_allowlist_iff_example :
    (has
        (resolve_active_allowlist knows_france same_text number_of []
          (str "FR" ∷ [])
          null
          1000
          roster)
        "Lyon, France"
      ≡ true)
    ↔ Shown knows_france same_text number_of [] (str "FR" ∷ []) null 1000 roster "Lyon, France"
resolve_active_allowlist_iff_example =
    resolve_active_allowlist_iff knows_france same_text number_of [] (str "FR" ∷ []) null 1000
      roster "Lyon, France"

-- A gateway that counts the evictions it is asked for, and makes them all.
abbrev counting : Gateway ℕ
counting = record {
  list_sessions = λ n. (n, some roster);
  evict_session = λ n arg. (n + 1, some true);
}

abbrev policy_view : PolicyView
policy_view = record {
  planning = planning;
  auth_token = "h";
  geo = none;
  locality_allowlist = [];
  country_allowlist = [];
  travel_until = null;
}

-- Without verdicts the two sessions that are not whitelisted go.
sweep_test :
    (sweep counting number_of knows_france same_text detect_defaults 3 1000 (some policy_view) 0).0
    ≡ 2
unfolding sweep sane_roster act evict_all plan_sweep holding fill mvp_candidates candidates_all
    String-discrete contested_burns burns_of tier3_keys classify_view
sweep_test = refl

abbrev resetting : Security
resetting = record {
  has_pwd = true;
  has_recovery = false;
  pending_reset = true;
  pending_reset_at = some 5000;
  login_email = none;
  account_ttl_days = none;
  session_ttl_days = none;
}

abbrev declines : ℕ → ℕ × Option Bool
declines n = (n + 1, some true)

security_test : check_security declines true 1000 none resetting 0 ≡ (1, true, reset_blocked ∷ [])
unfolding check_security propose_decline security_events
security_test = refl
