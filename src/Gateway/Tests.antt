-- ===== src/Gateway/Tests.antt =====
-- gateway.mjs at a concrete connection, and an instance of the theorem on it.
use enclave_gateway.Brain.Plan.{
  plan_sweep, holding, fill, mvp_candidates, candidates_all, contested_burns, burns_of, tier3_keys,
}
use enclave_gateway.Brain.Sweep.{
  sane_roster, act, evict_all, classify_view, EvictArg, PolicyView, sweep,
}
use enclave_gateway.Gateway.Dispatch.{
  call_list, call_evict, dispatch_evict, in_process, returned, Connection, Context, evict_request,
  roster_row,
}
use enclave_gateway.Policy.Ops.{
  assert_op_allowed, assert_op, check_evict, find_session, is_listed, string_of,
  Session as RosterRow, evict_session,
}
use enclave_gateway.Base.{
  String-discrete, sym, ap, ◌∙◌, ◌++◌, inr, inl, arith, ◌≡◌, false, true, ◌∷◌, [], some, none, refl,
  List, Option, String, Bool, map, eqs, eqs_iff, All, All-append, Bool-cases,
}
use enclave_gateway.Replay.Geo.{Session, detect_defaults}
use enclave_gateway.Policy.Json.{str, null, num, arr, nil, cons}
use enclave_gateway.Policy.Core.{number_of}
use enclave_gateway.Policy.Chain.{PolicyAuthority}
use enclave_gateway.Policy.Permits.{Permitted, First, here, later}
use enclave_gateway.Gateway.Proposals.{Guarded, sweep-Guarded}

abbrev seen : String → Bool → Session
seen hash current = record {
  hash = hash;
  current = current;
  country = some "Lyon, France";
  date_active = some 100;
  device_model = some "PC";
  platform = some "Windows";
  api_id = some "2040";
  official_app = some "true";
}

abbrev roster : List Session
roster = seen "5" true ∷ seen "11" false ∷ seen "77" false ∷ []

-- A connection whose world is the list of the hashes that were evicted.
abbrev logging : Connection (List String)
logging = record {
  list_sessions = λ log. (log, returned roster);
  evict_session = λ log hash. (log ++ (hash ∷ []), returned true);
}

abbrev authority : PolicyAuthority
authority = record {
  whitelist = arr (cons (str "77") nil);
  signers = arr nil;
  threshold = num 1;
  reset_protection = true;
  reset_allowed_until = null;
  disconnected = false;
  contest_protection = str "alert";
  allow_ip_jumping = [];
  enroll_until = null;
  locality_allowlist = [];
  travel_mode = false;
  country_allowlist = [];
  travel_until = null;
  head_version = 2;
  head_hash = "h";
}

abbrev context : Context
context = record {
  served = true;
  lease_deadline = 900;
  authority = authority;
  flood_until = none;
  flood_strikes = 0;
  fast_until = none;
}

abbrev view : PolicyView
view = record {
  planning = record {
    whitelist = "77" ∷ [];
    fresh_until = none;
    enroll_until = null;
    recently_killed = none;
    contest_protection = str "alert";
  };
  auth_token = "h";
  geo = none;
  locality_allowlist = [];
  country_allowlist = [];
  travel_until = null;
}

abbrev no_country : String → Option String
no_country name = none

abbrev same_text : String → String
same_text s = s

sweep_test :
    (sweep
      (in_process logging 1000 900)
      number_of
      no_country
      same_text
      detect_defaults
      3
      1000
      (some view)
      (context, [])).0.1
    ≡ "11" ∷ []
unfolding sweep in_process call_list sane_roster act evict_all plan_sweep holding fill
    mvp_candidates candidates_all String-discrete contested_burns call_evict dispatch_evict
    assert_op_allowed assert_op check_evict find_session is_listed string_of classify_view burns_of
    tier3_keys
sweep_test = refl

-- An account whose lease has lapsed is not touched.
fenced_test :
    (sweep
      (in_process logging 1000 901)
      number_of
      no_country
      same_text
      detect_defaults
      3
      1000
      (some view)
      (context, [])).0.1
    ≡ []
unfolding sweep in_process call_list
fenced_test = refl

-- The guard's own session, which is the first of the roster, is not evictable.
First-own :
    (hash : String) (rows rest : List RosterRow) (s : RosterRow)
    → rows ≡ roster_row (seen "5" true) ∷ rest
    → First hash rows s
    → s.current ≡ false
    → eqs hash "5" ≡ false
First-own hash rows rest s q (here t e) c = ground arith
First-own hash rows rest s q (later other n f) c = elim (Bool-cases (eqs hash "5")) [
  | inr e ↦ e
  | inl e ↦
      let own : hash ≡ "5" = (eqs_iff hash "5").0 e in
      let same : other.hash ≡ "5" = ground arith in elim (n (same ∙ sym own)) [ ]
]

abbrev Spared : List String → Type 0
Spared log = All (λ h. eqs h "5" ≡ false) log

spared :
    (log : List String) (arg : EvictArg) (listed : List Session)
    → returned roster ≡ returned listed
    → Permitted authority evict_session (evict_request arg listed)
    → Spared log
    → Spared (log ++ (arg.hash ∷ []))
spared log arg listed q p h =
    let v = p.1 in
    let read : listed ≡ roster = ground arith in
    let rows : v.roster ≡ map roster_row listed = let f = v.fresh in ground arith in
    All-append (λ x. eqs x "5" ≡ false) log (arg.hash ∷ []) h
      (
        First-own arg.hash v.roster (map roster_row (seen "11" false ∷ seen "77" false ∷ []))
            v.session (rows ∙ ap (map roster_row) read) v.found v.not_own,
        tt,
      )

sweep-Guarded_example :
    Guarded logging 1000 900 authority Spared
      (λ log h. h)
      spared
      (sweep
        (in_process logging 1000 900)
        number_of
        no_country
        same_text
        detect_defaults
        3
        1000
        (some view)
        (context, [])).0
sweep-Guarded_example =
    sweep-Guarded logging 1000 900 authority Spared (λ log h. h) spared number_of no_country
      same_text detect_defaults 3 (some view) (context, [])
      (record { unchanged = refl; holds = tt })
