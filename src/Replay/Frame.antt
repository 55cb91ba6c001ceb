-- ===== src/Replay/Frame.antt =====
-- replay-detect.mjs: which parts of the geo state judging a row leaves alone.
use enclave_gateway.Base.{
  lookup, sym, none, refl, inr, not, true, inl, ◌&&◌, ◌∙◌, ap, Option, some, Bool-cases, ℕ, false,
  arith, ◌≡◌, String,
}
use enclave_gateway.Replay.Geo.{Session, has, Verdict, Params, GeoState, Baseline}
use enclave_gateway.Replay.Observe.{
  note_row, sighting, seed, record_row, ring_at, flap_stats, Sighting,
}
use enclave_gateway.Replay.Judge.{
  classify_row, flap_verdict, clear_streak, is_flap, judge, settle, judge_teleport,
}

module _ (p : Params) (g : GeoState) (x : Sighting) (base : Baseline) where
  settle-ring : (settle p g x base).0.ring ≡ g.ring
  unfolding settle
  settle-ring = ground arith

  settle-baseline : p.allow_passive_widen ≡ false → (settle p g x base).0.baseline ≡ g.baseline
  unfolding settle
  settle-baseline h = ground arith

  settle-reseed_hold : (settle p g x base).0.reseed_hold ≡ g.reseed_hold
  unfolding settle
  settle-reseed_hold = ground arith

  judge_teleport-ring : (l : String) → (judge_teleport p g x base l).0.ring ≡ g.ring
  unfolding judge_teleport
  judge_teleport-ring l = ground arith

  pub judge_teleport-baseline : (l : String) → (judge_teleport p g x base l).0.baseline ≡ g.baseline
  unfolding judge_teleport
  judge_teleport-baseline l = ground arith

  pub judge_teleport-reseed_hold :
      (l : String) → (judge_teleport p g x base l).0.reseed_hold ≡ g.reseed_hold
  unfolding judge_teleport
  judge_teleport-reseed_hold l = ground arith

  pub judge_teleport-hash :
      (l : String) (v : Verdict) → (judge_teleport p g x base l).1 ≡ some v → v.hash ≡ x.hash
  unfolding judge_teleport
  judge_teleport-hash l v e = ground arith

  settle-hash : (v : Verdict) → (settle p g x base).1 ≡ some v → v.hash ≡ x.hash
  unfolding settle
  settle-hash v e = ground arith

-- The three ways in which a known row is judged.
pub data Judged (p : Params) (now : ℕ) (g : GeoState) (x : Sighting) (base : Baseline)
    (r : GeoState × Option Verdict) : Type 0 where
  flapped :
      is_flap p x.live (flap_stats (ring_at g x.hash) now p) ≡ true
      → r ≡ (clear_streak g x.hash, some (flap_verdict p g x (flap_stats (ring_at g x.hash) now p)))
      → Judged p now g x base r
  teleported :
      (l : String)
      → is_flap p x.live (flap_stats (ring_at g x.hash) now p) ≡ false
      → x.locality ≡ some l
      → x.live ≡ true
      → has base.home_keys l ≡ false
      → r ≡ judge_teleport p g x base l
      → Judged p now g x base r
  settled :
      is_flap p x.live (flap_stats (ring_at g x.hash) now p) ≡ false
      → ((l : String) → x.locality ≡ some l → (x.live && not (has base.home_keys l)) ≡ false)
      → r ≡ settle p g x base
      → Judged p now g x base r

judge_calm :
    (p : Params) (now : ℕ) (g : GeoState) (x : Sighting) (base : Baseline) (loc : Option String)
    → x.locality ≡ loc
    → is_flap p x.live (flap_stats (ring_at g x.hash) now p) ≡ false
    → Judged p now g x base (judge p now g x base)
unfolding judge
judge_calm p now g x base none at calm = Judged.settled calm (λ l e. cc) (ground arith)
judge_calm p now g x base (some l) at calm =
    elim (Bool-cases (x.live && not (has base.home_keys l))) [
      | inl out ↦ Judged.teleported l calm at (ground arith) (ground arith) (ground arith)
      | inr home ↦ Judged.settled calm (λ k e. ground arith) (ground arith)
    ]

pub judge-Judged :
    (p : Params) (now : ℕ) (g : GeoState) (x : Sighting) (base : Baseline)
    → Judged p now g x base (judge p now g x base)
judge-Judged p now g x base =
    elim (Bool-cases (is_flap p x.live (flap_stats (ring_at g x.hash) now p))) [
      | inl yes_flap ↦ Judged.flapped yes_flap (unfold judge in rw yes_flap)
      | inr calm ↦ judge_calm p now g x base x.locality refl calm
    ]

module _ {p : Params} {now : ℕ} {g : GeoState} {x : Sighting} {base : Baseline}
    {r : GeoState × Option Verdict} where
  pub Judged-ring : Judged p now g x base r → r.0.ring ≡ g.ring
  Judged-ring (Judged.flapped _ e) = ap (λ s. s.0.ring) e
  Judged-ring (Judged.teleported l _ _ _ _ e) =
      ap (λ s. s.0.ring) e ∙ judge_teleport-ring p g x base l
  Judged-ring (Judged.settled _ _ e) = ap (λ s. s.0.ring) e ∙ settle-ring p g x base

  pub Judged-reseed_hold : Judged p now g x base r → r.0.reseed_hold ≡ g.reseed_hold
  Judged-reseed_hold (Judged.flapped _ e) = ap (λ s. s.0.reseed_hold) e
  Judged-reseed_hold (Judged.teleported l _ _ _ _ e) =
      ap (λ s. s.0.reseed_hold) e ∙ judge_teleport-reseed_hold p g x base l
  Judged-reseed_hold (Judged.settled _ _ e) =
      ap (λ s. s.0.reseed_hold) e ∙ settle-reseed_hold p g x base

  -- With passive widening off, judging a row leaves every baseline as it is.
  pub Judged-baseline :
      p.allow_passive_widen ≡ false → Judged p now g x base r → r.0.baseline ≡ g.baseline
  Judged-baseline off (Judged.flapped _ e) = ap (λ s. s.0.baseline) e
  Judged-baseline off (Judged.teleported l _ _ _ _ e) =
      ap (λ s. s.0.baseline) e ∙ judge_teleport-baseline p g x base l
  Judged-baseline off (Judged.settled _ _ e) =
      ap (λ s. s.0.baseline) e ∙ settle-baseline p g x base off

  pub Judged-hash : Judged p now g x base r → (v : Verdict) → r.1 ≡ some v → v.hash ≡ x.hash
  Judged-hash (Judged.flapped _ e) v h = unfold flap_verdict in ground arith
  Judged-hash (Judged.teleported l _ _ _ _ e) v h =
      judge_teleport-hash p g x base l v (sym (ap (λ s. s.1) e) ∙ h)
  Judged-hash (Judged.settled _ _ e) v h = settle-hash p g x base v (sym (ap (λ s. s.1) e) ∙ h)

-- A row whose hash has no baseline is only learnt from.
pub classify_row-unknown :
    (p : Params) (now : ℕ) (g : GeoState) (s : Session)
    → lookup s.hash g.baseline ≡ none
    → classify_row p now g s ≡ (seed p now g s, none)
unfolding classify_row
classify_row-unknown p now g s h = rw (h, classify_row)

pub classify_row-known :
    (p : Params) (now : ℕ) (g : GeoState) (s : Session) (base : Baseline)
    → lookup s.hash g.baseline ≡ some base
    → classify_row p now g s
      ≡ judge p now (record_row p now g s base) (sighting p now g s base) (note_row base s)
unfolding classify_row
classify_row-known p now g s base h = rw (h, classify_row)
