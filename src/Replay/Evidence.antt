-- ===== src/Replay/Evidence.antt =====
-- replay-detect.mjs: what a burnable verdict (tier 3) rests on.
use enclave_gateway.Replay.Locality.{country_of}
use enclave_gateway.Base.{
  List, Option, Option-cases, sym, ap, ◌∙◌, ◌≤◌, ◌⊎◌, String, lookup, inr, inl, arith, ◌≡◌, false,
  true, some, refl, ℕ,
}
use enclave_gateway.Replay.Geo.{
  Session, Params, GeoState, Baseline, Verdict, has, tier_a, tier_b, tier_c,
}
use enclave_gateway.Replay.Observe.{
  record_row, note_row, sighting, Sighting, is_live, flap_stats, ring_at, enrolled_or,
  identity_changed, fingerprint_of,
}
use enclave_gateway.Replay.Judge.{
  classify_row, is_flap, is_trusted, streak_count, cap, judge_teleport, settle, flap_verdict,
}
use enclave_gateway.Replay.Frame.{
  judge_teleport-hash, Judged, judge-Judged, classify_row-known, classify_row-unknown,
}

-- The three grounds for a burn, on a row `s` whose hash has the baseline `base`: a flap in the
-- window; a foreign locality under another client identity; a foreign locality that is not trusted
-- and was seen in enough live polls in a row.
pub data Evidence (p : Params) (now : ℕ) (g : GeoState) (s : Session) (base : Baseline)
    (v : Verdict) : Type 0 where
  by_flap :
      v.tier_class ≡ some tier_a
      → is_flap p true (flap_stats (ring_at (record_row p now g s base) s.hash) now p) ≡ true
      → Evidence p now g s base v
  by_identity :
      (l : String)
      → v.tier_class ≡ some tier_b
      → s.country ≡ some l
      → has base.home_keys l ≡ false
      → identity_changed (some (enrolled_or base.enrolled s).fp) (fingerprint_of s) ≡ true
      → Evidence p now g s base v
  by_persistence :
      (l : String)
      → v.tier_class ≡ some tier_c
      → s.country ≡ some l
      → has base.home_keys l ≡ false
      → is_trusted p.active_allowlist l (country_of s.country) ≡ false
      → p.teleport_min_polls ≤ streak_count (lookup s.hash g.pending_teleport) l
      → Evidence p now g s base v

pub record Burn (p : Params) (now : ℕ) (g : GeoState) (s : Session) (v : Verdict) : Type 0 where
  pub base : Baseline
  pub known : lookup s.hash g.baseline ≡ some base
  pub hash : v.hash ≡ s.hash
  pub live : is_live s.date_active now p.live_window_ms ≡ true
  pub no_hold : g.reseed_hold ≡ false
  pub evidence : Evidence p now g s base v

settle-tier :
    (p : Params) (g : GeoState) (x : Sighting) (base : Baseline) (v : Verdict)
    → (settle p g x base).1 ≡ some v
    → v.tier ≡ 1
unfolding settle
settle-tier p g x base v e = ground arith

cap-eq-three : (g : GeoState) (tier : ℕ) → cap g tier ≡ 3 → (g.reseed_hold ≡ false) × (tier ≡ 3)
unfolding cap
cap-eq-three g tier e = ground arith

judge_teleport-cases :
    (p : Params) (g : GeoState) (x : Sighting) (base : Baseline) (l : String) (v : Verdict)
    → (judge_teleport p g x base l).1 ≡ some v
    → v.tier ≡ 3
    → (g.reseed_hold ≡ false)
      × (((x.id_changed ≡ true) × (v.tier_class ≡ some tier_b))
          ⊎ ((is_trusted p.active_allowlist l x.country ≡ false)
              × (p.teleport_min_polls ≤ streak_count (lookup x.hash g.pending_teleport) l)
              × (v.tier_class ≡ some tier_c)))
unfolding judge_teleport
judge_teleport-cases p g x base l v e t = ground (arith, cap-eq-three g 3)

record_row-reseed_hold :
    (p : Params) (now : ℕ) (g : GeoState) (s : Session) (base : Baseline)
    → (record_row p now g s base).reseed_hold ≡ g.reseed_hold
unfolding record_row
record_row-reseed_hold p now g s base = refl

flap_verdict-tier :
    (p : Params) (g : GeoState) (x : Sighting) (st : ℕ × List String)
    → (flap_verdict p g x st).tier ≡ 3
    → g.reseed_hold ≡ false
unfolding flap_verdict
flap_verdict-tier p g x st e = (cap-eq-three g 3 e).0

not_one_three : ◌≡◌ {A = ℕ} 1 3 → ⊥
not_one_three e = omega arith

module _ (p : Params) (now : ℕ) (g : GeoState) (s : Session) (base : Baseline) where
  abbrev row_state : GeoState
  row_state = record_row p now g s base

  abbrev row_sighting : Sighting
  row_sighting = sighting p now g s base

  Judged-Burn :
      (r : GeoState × Option Verdict) (v : Verdict)
      → lookup s.hash g.baseline ≡ some base
      → Judged p now row_state row_sighting (note_row base s) r
      → r.1 ≡ some v
      → v.tier ≡ 3
      → Burn p now g s v
  unfolding record_row sighting note_row
  Judged-Burn r v known (Judged.flapped flap e) h t =
      let same : v
          ≡ flap_verdict p row_state row_sighting (flap_stats (ring_at row_state s.hash) now p) =
        ground arith in
      record {
        base = base;
        known = known;
        hash = unfold flap_verdict in ap (λ w. w.hash) same;
        live = ground arith;
        no_hold = flap_verdict-tier p row_state row_sighting _ (ap (λ w. w.tier) (sym same) ∙ t);
        evidence =
            Evidence.by_flap (unfold flap_verdict in ap (λ w. w.tier_class) same) (ground arith);
      }
  Judged-Burn r v known (Judged.teleported l calm at live out e) h t =
      let found : (judge_teleport p row_state row_sighting (note_row base s) l).1 ≡ some v =
        ground arith in
      let (hold, cases) =
        judge_teleport-cases p row_state row_sighting (note_row base s) l v found t in
      record {
        base = base;
        known = known;
        hash = judge_teleport-hash p row_state row_sighting (note_row base s) l v found;
        live = live;
        no_hold = hold;
        evidence = elim cases [
          | inl c ↦ Evidence.by_identity l c.1 at out c.0
          | inr c ↦ Evidence.by_persistence l c.2 at out c.0 c.1
        ];
      }
  Judged-Burn r v known (Judged.settled calm home e) h t = absurd (
      not_one_three
        (sym (settle-tier p row_state row_sighting (note_row base s) v (ground arith)) ∙ t))

-- A verdict of tier 3, the only one that is burnt, is given on no other ground than these: the hash
-- had a baseline, the row is live, no re-seed window is open, and it flapped, or it is outside its
-- home under another identity, or it persisted outside its home in a place that is not trusted.
pub classify_row-Burn :
    (p : Params) (now : ℕ) (g : GeoState) (s : Session) (v : Verdict)
    → (classify_row p now g s).1 ≡ some v
    → v.tier ≡ 3
    → Burn p now g s v
classify_row-Burn p now g s v e t = elim (Option-cases (lookup s.hash g.baseline)) [
  | inl fresh ↦ cc (sym (ap (λ r. r.1) (classify_row-unknown p now g s fresh)) ∙ e)
  | inr (base, known) ↦
      Judged-Burn p now g s base _ v known
        (judge-Judged p now (record_row p now g s base) (sighting p now g s base) (note_row base s))
        (sym (ap (λ r. r.1) (classify_row-known p now g s base known)) ∙ e) t
]
