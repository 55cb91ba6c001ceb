-- ===== src/Replay/Row.antt =====
-- replay-detect.mjs: the bounds of what one row does: the length of a ring, and the tier of a verdict
-- in a re-seed window.
use enclave_gateway.Base.{
  ◌++◌, subst, ◌-◌, length-drop, lookup-insert, length, lookup, String-discrete, String,
  Option-cases, List, Option, ◌≤◌, inr, inl, arith, ◌≡◌, true, ◌∷◌, [], some, none, refl, ℕ, sym,
  ap, ◌∙◌,
}
use enclave_gateway.Replay.Geo.{Session, Params, GeoState, Baseline, Verdict, Observation}
use enclave_gateway.Replay.Observe.{
  populated, flap_stats, observation, record_row, seed, seed_with, note_row, sighting, Sighting,
  keep_last, push_ring, ring_at,
}
use enclave_gateway.Replay.Judge.{classify_row, judge_teleport, settle, flap_verdict, cap}
use enclave_gateway.Replay.Frame.{
  Judged, judge-Judged, classify_row-known, classify_row-unknown, Judged-reseed_hold, Judged-ring,
  Judged-hash,
}

length-keep_last {ℓ} : {A : Type ℓ} (n : ℕ) (xs : List A) → length (keep_last n xs) ≤ n
unfolding keep_last
length-keep_last n xs = ground (arith, length-drop (length xs - n) xs)

-- No ring is longer than the parameter says.
abbrev pub RingFits : Params → List (String × List Observation) → Type 0
RingFits p ring = (h : String) (o : List Observation) → lookup h ring ≡ some o → length o ≤ p.ring_n

push_ring-RingFits :
    (p : Params) (g : GeoState) (k : String) (e : Observation)
    → RingFits p g.ring
    → RingFits p (push_ring g k e p).ring
unfolding push_ring
push_ring-RingFits p g k e fits h o found = elim (String-discrete k h) [
  | yes same ↦ ground (
    arith,
    lookup-insert k h (keep_last p.ring_n (ring_at g k ++ (e ∷ []))) g.ring,
    length-keep_last p.ring_n (ring_at g k ++ (e ∷ [])),
  )
  | no n ↦
      fits h o
        (ground (arith, lookup-insert k h (keep_last p.ring_n (ring_at g k ++ (e ∷ []))) g.ring))
]

seed_with-ring :
    (now : ℕ) (s : Session) (g : GeoState) (l d : Option String)
    → ((seed_with now s g l d).ring ≡ g.ring)
      × ((seed_with now s g l d).reseed_hold ≡ g.reseed_hold)
unfolding seed_with
seed_with-ring now s g (some l) (some d) = (refl, refl)
seed_with-ring now s g _ _ = (refl, refl)

-- What a row does besides its baseline: the ring stays in its bound, the re-seed flag stays, and a
-- verdict is on this row and, in a re-seed window, an alert at most.
pub record RowFits (p : Params) (g : GeoState) (s : Session) (r : GeoState × Option Verdict)
    : Type 0 where
  pub ring : RingFits p g.ring → RingFits p r.0.ring
  pub hold : r.0.reseed_hold ≡ g.reseed_hold
  pub hash : (v : Verdict) → r.1 ≡ some v → v.hash ≡ s.hash
  pub capped : (v : Verdict) → r.1 ≡ some v → g.reseed_hold ≡ true → v.tier ≤ 2

cap-le : (g : GeoState) (t : ℕ) → g.reseed_hold ≡ true → cap g t ≤ 2
unfolding cap
cap-le g t h = ground arith

settle-capped :
    (p : Params) (g : GeoState) (x : Sighting) (b : Baseline) (v : Verdict)
    → (settle p g x b).1 ≡ some v
    → v.tier ≤ 2
unfolding settle
settle-capped p g x b v e = ground arith

judge_teleport-capped :
    (p : Params) (g : GeoState) (x : Sighting) (b : Baseline) (l : String) (v : Verdict)
    → g.reseed_hold ≡ true
    → (judge_teleport p g x b l).1 ≡ some v
    → v.tier ≤ 2
unfolding judge_teleport
judge_teleport-capped p g x b l v h e = ground (arith, cap-le g 3, cap-le g 2)

flap_verdict-capped :
    (p : Params) (g : GeoState) (x : Sighting) (st : ℕ × List String)
    → g.reseed_hold ≡ true
    → (flap_verdict p g x st).tier ≤ 2
unfolding flap_verdict
flap_verdict-capped p g x st h = cap-le g 3 h

Judged-capped :
    {p : Params} {now : ℕ} {g : GeoState} {x : Sighting} {b : Baseline}
    {r : GeoState × Option Verdict}
    → Judged p now g x b r
    → (v : Verdict) → r.1 ≡ some v
    → g.reseed_hold ≡ true
    → v.tier ≤ 2
Judged-capped {p} {now} {g} {x} (Judged.flapped _ e) v found h =
    let stats = flap_stats (ring_at g x.hash) now p in
    let same : v ≡ flap_verdict p g x stats = ground arith in
    rw same (flap_verdict-capped p g x stats h)
Judged-capped {p} {now} {g} {x} {b} (Judged.teleported l _ _ _ _ e) v found h =
    judge_teleport-capped p g x b l v h (sym (ap (λ s. s.1) e) ∙ found)
Judged-capped {p} {now} {g} {x} {b} (Judged.settled _ _ e) v found h =
    settle-capped p g x b v (sym (ap (λ s. s.1) e) ∙ found)

seed-RowFits :
    (p : Params) (now : ℕ) (g : GeoState) (s : Session) → RowFits p g s (seed p now g s, none)
unfolding seed
seed-RowFits p now g s =
    let pushed = push_ring g s.hash (observation s now p) p in
    let same = seed_with-ring now s pushed (populated s.country) (populated s.device_model) in
    record {
      ring = λ fits.
          subst (RingFits p) (sym same.0)
            (push_ring-RingFits p g s.hash (observation s now p) fits);
      hold = same.1 ∙ (unfold push_ring in refl);
      hash = λ v e. cc;
      capped = λ v e h. cc;
    }

Judged-RowFits :
    (p : Params) (now : ℕ) (g : GeoState) (s : Session) (b : Baseline)
    (r : GeoState × Option Verdict)
    → Judged p now (record_row p now g s b) (sighting p now g s b) (note_row b s) r
    → RowFits p g s r
unfolding record_row sighting
Judged-RowFits p now g s b r j = record {
  ring = λ fits.
      subst (RingFits p) (sym (Judged-ring j))
        (push_ring-RingFits p g s.hash (observation s now p) fits);
  hold = Judged-reseed_hold j ∙ (unfold push_ring in refl);
  hash = Judged-hash j;
  capped = λ v e h. Judged-capped j v e (unfold push_ring in h);
}

pub classify_row-RowFits :
    (p : Params) (now : ℕ) (g : GeoState) (s : Session) → RowFits p g s (classify_row p now g s)
classify_row-RowFits p now g s = elim (Option-cases (lookup s.hash g.baseline)) [
  | inl fresh ↦ rw (classify_row-unknown p now g s fresh) (seed-RowFits p now g s)
  | inr (b, known) ↦ rw (classify_row-known p now g s b known) (
      Judged-RowFits p now g s b _
        (judge-Judged p now (record_row p now g s b) (sighting p now g s b) (note_row b s)))
]
