-- ===== src/Replay/Observe.antt =====
-- replay-detect.mjs: the helpers of `classifyReplay`, and what it records of a row.
use mathlib.Core.Option
use enclave_gateway.Base.{
  ◌-◌, drop, same?, leb, ◌*◌, any, length, ◌||◌, true, eqs, ltb, lookup, false, ◌&&◌, ◌++◌, filter,
  ◌+◌, some, if◌then◌else◌, not, insert, none, Option, List, ℕ, Bool, String, [], ◌∷◌,
}
use enclave_gateway.Replay.Locality.{Platform, country_of, platform_class}
use enclave_gateway.Replay.Geo.{
  Session, Params, Fingerprint, Observation, Enrolled, Baseline, GeoState, add,
}

unfoldable pub fingerprint_of : Session → Fingerprint
fingerprint_of s = record {
  device_model = s.device_model;
  platform = s.platform;
  api_id = s.api_id;
  official_app = s.official_app;
}

-- Both values are there and differ.
abbrev pub differs : Option String → Option String → Bool
differs (some e) (some c) = not (eqs e c)
differs _ _ = false

unfoldable pub identity_changed : Option Fingerprint → Fingerprint → Bool
identity_changed none c = false
identity_changed (some e) c =
    differs e.device_model c.device_model
    || differs e.platform c.platform
    || differs e.api_id c.api_id
    || differs e.official_app c.official_app

-- `dateActive` is in seconds; the window is tolerated on both sides.
unfoldable pub is_live : Option ℕ → ℕ → ℕ → Bool
is_live none now window_ms = false
is_live (some seconds) now window_ms =
    let ms = seconds * 1000 in leb now (ms + window_ms) && leb ms (now + window_ms)

abbrev pub moved : Option String → String → Bool
moved none country = false
moved (some previous) country = not (eqs country previous)

abbrev pub bit : Bool → ℕ
bit true = 1
bit false = 0

-- The loop of `flapStats`: the transitions and the distinct countries.
unfoldable pub flap_loop : List Observation → Option String → ℕ → List String → ℕ × List String
unfolding add
flap_loop [] previous transitions countries = (transitions, countries)
flap_loop (e ∷ es) previous transitions countries =
    flap_loop es (some e.country) (transitions + bit (moved previous e.country))
      (add countries e.country)

unfoldable pub flap_stats : List Observation → ℕ → Params → ℕ × List String
unfolding flap_loop
flap_stats entries now p =
    flap_loop (filter (λ e. e.live && leb now (e.at + p.w_flap_ms)) entries) none 0 []

-- `arr.splice(0, arr.length - n)` where the array is longer than `n`
unfoldable pub keep_last {ℓ} : {A : Type ℓ} → ℕ → List A → List A
keep_last n xs = if ltb n (length xs) then drop (length xs - n) xs else xs

abbrev pub ring_at : GeoState → String → List Observation
ring_at g hash = Option.get_or (lookup hash g.ring) []

unfoldable pub push_ring : GeoState → String → Observation → Params → GeoState
unfolding keep_last
push_ring g hash entry p = record g {
  ring = insert hash (keep_last p.ring_n (ring_at g hash ++ (entry ∷ []))) g.ring;
}

unfoldable pub prev_entry_device_seen : Option (List Observation) → Option String → Bool
prev_entry_device_seen hist none = true
prev_entry_device_seen none (some device) = false
prev_entry_device_seen (some hist) (some device) = any (λ e. same? e.device_model device) hist

-- `prevEntry.locality`, null where there is no earlier entry
unfoldable pub last_locality : List Observation → Option String
last_locality [] = none
last_locality (e ∷ []) = e.locality
last_locality (e ∷ f ∷ es) = last_locality (f ∷ es)

-- What the loop computes of a row before it classifies it.
pub record Sighting : Type 0 where
  pub hash : String
  pub locality : Option String
  pub country : String
  pub live : Bool
  pub device : Option String
  pub fp : Fingerprint
  pub device_changed : Bool
  pub id_changed : Bool
  pub platform : Platform
  pub prev_locality : Option String

abbrev pub observation : Session → ℕ → Params → Observation
unfolding country_of is_live
observation s now p = record {
  locality = s.country;
  country = country_of s.country;
  device_model = s.device_model;
  date_active = s.date_active;
  at = now;
  live = is_live s.date_active now p.live_window_ms;
}

-- A string that is neither null nor empty.
abbrev pub populated : Option String → Option String
populated none = none
populated (some s) = if eqs s "" then none else some s

unfoldable pub first_baseline : ℕ → Session → String → String → Baseline
unfolding fingerprint_of platform_class
first_baseline now s locality device = record {
  home_keys = locality ∷ [];
  known_devices = device ∷ [];
  born_at = now;
  seeded = true;
  enrolled = some (record { fp = fingerprint_of s; platform = platform_class s.platform });
}

-- The state with a first baseline, if the row has a locality and a device.
unfoldable pub seed_with : ℕ → Session → GeoState → Option String → Option String → GeoState
unfolding first_baseline
seed_with now s g (some locality) (some device) = record g {
  baseline = insert s.hash (first_baseline now s locality device) g.baseline;
}
seed_with now s g _ _ = g

-- The first sight of a hash learns its home, if the row has one, and classifies nothing.
unfoldable pub seed : Params → ℕ → GeoState → Session → GeoState
seed p now g s =
    seed_with now s (push_ring g s.hash (observation s now p) p) (populated s.country)
      (populated s.device_model)

-- The enrolled identity, filled in from the row where an older build left none.
unfoldable pub enrolled_or : Option Enrolled → Session → Enrolled
unfolding fingerprint_of platform_class
enrolled_or (some e) s = e
enrolled_or none s = record { fp = fingerprint_of s; platform = platform_class s.platform }

unfoldable pub note_row : Baseline → Session → Baseline
unfolding enrolled_or add
note_row base s = record base {
  enrolled = some (enrolled_or base.enrolled s);
  known_devices = add base.known_devices (Option.get_or s.device_model "");
}

unfoldable pub sighting : Params → ℕ → GeoState → Session → Baseline → Sighting
unfolding enrolled_or identity_changed prev_entry_device_seen last_locality is_live country_of
sighting p now g s base =
    let enrolled = enrolled_or base.enrolled s in
    record {
      hash = s.hash;
      locality = s.country;
      country = country_of s.country;
      live = is_live s.date_active now p.live_window_ms;
      device = s.device_model;
      fp = fingerprint_of s;
      device_changed = not (prev_entry_device_seen (lookup s.hash g.ring) s.device_model);
      id_changed = identity_changed (some enrolled.fp) (fingerprint_of s);
      platform = enrolled.platform;
      prev_locality = last_locality (ring_at g s.hash);
    }

-- The state in which a known row is judged: its observation pushed and its baseline noted.
unfoldable pub record_row : Params → ℕ → GeoState → Session → Baseline → GeoState
unfolding push_ring note_row
record_row p now g s base =
    let pushed = push_ring g s.hash (observation s now p) p in
    record pushed { baseline = insert s.hash (note_row base s) pushed.baseline }
