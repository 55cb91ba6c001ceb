-- ===== src/Replay/Classify.antt =====
-- replay-detect.mjs, `classifyReplay`: the loop over the roster and the pruning after it.
use enclave_gateway.Base.{
  eqs, retain, none, ◌&&◌, some, String, if◌then◌else◌, not, Bool, Option, List, ℕ, [], ◌∷◌,
}
use enclave_gateway.Replay.Geo.{Session, Params, GeoState, Verdict, has}
use enclave_gateway.Replay.Judge.{classify_row}

-- `!s.current && hash !== "0"`
abbrev pub is_guarded : Session → Bool
is_guarded s = not s.current && not (eqs s.hash "0")

abbrev pub with_verdict : Option Verdict → List Verdict → List Verdict
with_verdict none vs = vs
with_verdict (some v) vs = v ∷ vs

-- The verdicts in the order of the roster, and the state after the loop.
unfoldable pub classify_loop : Params → ℕ → List Session → GeoState → GeoState × List Verdict
classify_loop p now [] g = (g, [])
classify_loop p now (s ∷ ss) g =
    let (g', v) = if is_guarded s then classify_row p now g s else (g, none) in
    let (g'', vs) = classify_loop p now ss g' in (g'', with_verdict v vs)

unfoldable pub seen_hashes : List Session → List String
seen_hashes [] = []
seen_hashes (s ∷ ss) = if is_guarded s then s.hash ∷ seen_hashes ss else seen_hashes ss

-- The state of hashes that left the roster is deleted.
unfoldable pub prune : List String → GeoState → GeoState
prune seen g = record g {
  ring = retain (has seen) g.ring;
  baseline = retain (has seen) g.baseline;
  pending_teleport = retain (has seen) g.pending_teleport;
}

unfoldable pub classify_replay : Params → ℕ → List Session → GeoState → GeoState × List Verdict
classify_replay p now sessions g =
    let (g', vs) = classify_loop p now sessions g in (prune (seen_hashes sessions) g', vs)
