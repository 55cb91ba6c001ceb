-- ===== src/Gateway/Guard.antt =====
-- brain.mjs, `Brain.sweep`: the calls of its gateway by which a sweep changes the world.
use enclave_gateway.Base.{inr, inl, ◌∷◌, [], some, none, List, Option, String, ℕ, Bool-cases}
use enclave_gateway.Replay.Geo.{Session, Verdict, Params, GeoState}
use enclave_gateway.Policy.Json.{Value}
use enclave_gateway.Brain.Plan.{Proposal}
use enclave_gateway.Brain.Sweep.{
  Gateway, EvictArg, PolicyView, Tally, evict_all, has_current, retry_roster, sane_roster,
  classify_view, act, on_roster, on_listed, sweep,
}

-- What the two calls of a gateway keep, a sweep keeps.
module _ {G : Type 0} (gateway : Gateway G) (P : G → Type 0)
    (keeps_list : (g : G) → P g → P (gateway.list_sessions g).0)
    (keeps_evict : (g : G) (arg : EvictArg) → P g → P (gateway.evict_session g arg).0) where
  evict_all-keeps :
      (token : String) (verdicts : List Verdict) (ps : List Proposal) (g : G) (t : Tally)
      → P g
      → P (evict_all gateway token verdicts ps g t).0
  unfolding evict_all
  evict_all-keeps token verdicts [] g t h = h
  evict_all-keeps token verdicts (p ∷ ps) g t h =
      evict_all-keeps token verdicts ps _ _ (keeps_evict g _ h)

  retry_roster-keeps : (r : G × Option (List Session)) → P r.0 → P (retry_roster gateway r).0
  retry_roster-keeps (g, none) h = h
  retry_roster-keeps (g, some ss) h = h

  sane_roster-keeps : (g : G) (ss : List Session) → P g → P (sane_roster gateway g ss).0
  unfolding sane_roster
  sane_roster-keeps g ss h = elim (Bool-cases (has_current ss)) [
    | inl e ↦ rw e h
    | inr e ↦ rw e (retry_roster-keeps (gateway.list_sessions g) (keeps_list g h))
  ]

  module _ (date : Value → Option ℕ) (iso2 : String → Option String) (upper : String → String)
      (params : Params) (cap now : ℕ) where
    act-keeps :
        (view : PolicyView) (ss : List Session) (geo : Option GeoState) (vs : List Verdict) (g : G)
        → P g
        → P (act gateway date iso2 upper params cap now view ss geo vs g).0
    unfolding act
    act-keeps view ss geo vs g h = evict_all-keeps view.auth_token vs _ g _ h

    on_roster-keeps :
        (view : PolicyView) (first : List Session) (r : G × Option (List Session))
        → P r.0
        → P (on_roster gateway date iso2 upper params cap now view first r).0
    on_roster-keeps view first (g, none) h = h
    on_roster-keeps view first (g, some ss) h =
        let seen = classify_view gateway date iso2 upper params cap now view ss view.geo in
        act-keeps view ss seen.0 seen.1 g h

    on_listed-keeps :
        (view : PolicyView) (r : G × Option (List Session))
        → P r.0
        → P (on_listed gateway date iso2 upper params cap now view r).0
    on_listed-keeps view (g, none) h = h
    on_listed-keeps view (g, some ss) h =
        on_roster-keeps view ss (sane_roster gateway g ss) (sane_roster-keeps g ss h)

    pub sweep-keeps :
        (view : Option PolicyView) (g : G)
        → P g
        → P (sweep gateway date iso2 upper params cap now view g).0
    unfolding sweep
    sweep-keeps none g h = h
    sweep-keeps (some view) g h = on_listed-keeps view (gateway.list_sessions g) (keeps_list g h)
