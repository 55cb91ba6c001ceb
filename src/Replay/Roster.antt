-- ===== src/Replay/Roster.antt =====
-- replay-detect.mjs, `classifyReplay`: what holds of the verdicts and of the state over a whole
-- roster.
use enclave_gateway.Replay.Row.{RingFits, classify_row-RowFits}
use mathlib.Core.List.{Memᴰ}
use enclave_gateway.Base.{
  lookup-retain, All-mono, retain, Bool-cases, All, Bool, subst, lookup, String, List, Option, ◌≤◌,
  inr, inl, arith, ◌≡◌, true, ◌∷◌, [], some, none, refl, ℕ, ◌∙◌,
}
use enclave_gateway.Replay.Geo.{
  Streak, Session, Params, GeoState, Baseline, Verdict, has, Observation,
}
use enclave_gateway.Replay.Judge.{classify_row}
use enclave_gateway.Replay.Classify.{
  with_verdict, classify_loop, classify_replay, prune, seen_hashes, is_guarded,
}

-- The verdict is on a row of the roster that is not current and not the guard's own, and an alert at
-- most where the re-seed flag is set.
pub record Sound (ss : List Session) (hold : Bool) (v : Verdict) : Type 0 where
  pub row : Session
  pub listed : Memᴰ row ss
  pub guarded : is_guarded row ≡ true
  pub hash : v.hash ≡ row.hash
  pub capped : hold ≡ true → v.tier ≤ 2

Sound-tail :
    (s : Session) (ss : List Session) (hold : Bool) (v : Verdict)
    → Sound ss hold v
    → Sound (s ∷ ss) hold v
Sound-tail s ss hold v h = record {
  row = h.row;
  listed = Memᴰ.tail h.listed;
  guarded = h.guarded;
  hash = h.hash;
  capped = h.capped;
}

record LoopFits (p : Params) (g : GeoState) (ss : List Session) (r : GeoState × List Verdict)
    : Type 0 where
  ring : RingFits p g.ring → RingFits p r.0.ring
  hold : r.0.reseed_hold ≡ g.reseed_hold
  sound : All (Sound ss g.reseed_hold) r.1

with_verdict-Sound :
    (s : Session) (ss : List Session) (hold : Bool) (o : Option Verdict) (vs : List Verdict)
    → is_guarded s ≡ true
    → ((v : Verdict) → o ≡ some v → v.hash ≡ s.hash)
    → ((v : Verdict) → o ≡ some v → hold ≡ true → v.tier ≤ 2)
    → All (Sound ss hold) vs
    → All (Sound (s ∷ ss) hold) (with_verdict o vs)
with_verdict-Sound s ss hold none vs guarded hash capped h =
    All-mono _ _ (Sound-tail s ss hold) vs h
with_verdict-Sound s ss hold (some v) vs guarded hash capped h = (
  record {
    row = s;
    listed = Memᴰ.head refl;
    guarded = guarded;
    hash = hash v refl;
    capped = capped v refl;
  },
  All-mono _ _ (Sound-tail s ss hold) vs h,
)

classify_loop-LoopFits :
    (p : Params) (now : ℕ) (ss : List Session) (g : GeoState)
    → LoopFits p g ss (classify_loop p now ss g)
unfolding classify_loop
classify_loop-LoopFits p now [] g = record { ring = λ f. f; hold = refl; sound = tt }
classify_loop-LoopFits p now (s ∷ ss) g = elim (Bool-cases (is_guarded s)) [
  | inl yes_guarded ↦
      let one = classify_row-RowFits p now g s in
      let rest = classify_loop-LoopFits p now ss (classify_row p now g s).0 in
      rw yes_guarded (record {
        ring = λ f. rest.ring (one.ring f);
        hold = rest.hold ∙ one.hold;
        sound = with_verdict-Sound s ss g.reseed_hold _ _ yes_guarded one.hash one.capped (
            subst (λ b. All (Sound ss b) (classify_loop p now ss (classify_row p now g s).0).1)
              one.hold rest.sound);
      })
  | inr skipped ↦
      let rest = classify_loop-LoopFits p now ss g in
      rw skipped (record {
        ring = rest.ring;
        hold = rest.hold;
        sound = All-mono _ _ (Sound-tail s ss g.reseed_hold) _ rest.sound;
      })
]

-- Every verdict of a classification is on a row of the roster that is neither current nor the guard's
-- own, and in a re-seed window none of them is above an alert.
pub classify_replay-Sound :
    (p : Params) (now : ℕ) (ss : List Session) (g : GeoState)
    → All (Sound ss g.reseed_hold) (classify_replay p now ss g).1
unfolding classify_replay
classify_replay-Sound p now ss g = (classify_loop-LoopFits p now ss g).sound

-- What is kept is on hashes of the roster alone, with rings within their bound.
pub record Bounded (p : Params) (ss : List Session) (g : GeoState) : Type 0 where
  pub ring : RingFits p g.ring
  pub ring_seen :
      (h : String) (o : List Observation) → lookup h g.ring ≡ some o → has (seen_hashes ss) h ≡ true
  pub baseline_seen :
      (h : String) (b : Baseline) → lookup h g.baseline ≡ some b → has (seen_hashes ss) h ≡ true
  pub streak_seen :
      (h : String) (t : Streak)
      → lookup h g.pending_teleport ≡ some t
      → has (seen_hashes ss) h ≡ true

retain-seen {ℓ} :
    {V : Type ℓ} (p : String → Bool) (h : String) (m : List (String × V)) {v : V}
    → lookup h (retain p m) ≡ some v
    → (p h ≡ true) × (lookup h m ≡ some v)
retain-seen p h m e = ground (arith, lookup-retain p h m)

-- A classification leaves a state of bounded size: entries of the roster's hashes alone, and rings
-- that are within their bound if they were so before.
pub classify_replay-Bounded :
    (p : Params) (now : ℕ) (ss : List Session) (g : GeoState)
    → RingFits p g.ring
    → Bounded p ss (classify_replay p now ss g).0
unfolding classify_replay prune
classify_replay-Bounded p now ss g fits =
    let loop = classify_loop-LoopFits p now ss g in
    record {
      ring = λ h o e. loop.ring fits h o (retain-seen _ h _ e).1;
      ring_seen = λ h o e. (retain-seen _ h _ e).0;
      baseline_seen = λ h b e. (retain-seen _ h _ e).0;
      streak_seen = λ h t e. (retain-seen _ h _ e).0;
    }
