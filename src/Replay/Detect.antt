-- ===== src/Replay/Detect.antt =====
-- replay-detect.mjs: the verdict on a live row in a foreign, untrusted place.
use native.Mathlib.Decide.{dec_le}
use enclave_gateway.Base.{
  ◌+◌, Bool, eqs_refl, lookup-insert, ◌≤◌, ◌<◌, List, String, Option, lookup, arith, ◌≡◌, false,
  true, some, none, refl, ℕ, ap, ◌∙◌,
}
use enclave_gateway.Replay.Locality.{country_of}
use enclave_gateway.Replay.Geo.{
  Streak, Session, Params, GeoState, Baseline, Verdict, has, tier_b, tier_c,
}
use enclave_gateway.Replay.Observe.{record_row, note_row, sighting, Sighting, is_live}
use enclave_gateway.Replay.Judge.{
  classify_row, is_trusted, streak_count, judge_teleport, flap_verdict, teleport_verdict,
}
use enclave_gateway.Replay.Frame.{
  judge_teleport-baseline, judge_teleport-reseed_hold, Judged, judge-Judged, classify_row-known,
}

-- The row gets a verdict of tier 3.
abbrev pub Alarm : GeoState × Option Verdict → Type 0
Alarm r = (v : Verdict) × (r.1 ≡ some v) × (v.tier ≡ 3)

module _ (p : Params) (g : GeoState) (x : Sighting) (base : Baseline) (l : String)
    (hold : g.reseed_hold ≡ false) where
  flap-Alarm : (st : ℕ × List String) → (flap_verdict p g x st).tier ≡ 3
  unfolding flap_verdict
  flap-Alarm st = ground arith

  identity-Alarm : x.id_changed ≡ true → Alarm (judge_teleport p g x base l)
  unfolding judge_teleport
  identity-Alarm e = (teleport_verdict g x base l tier_b 3 true 1, ground arith, ground arith)

  streak-Alarm :
      x.id_changed ≡ false
      → is_trusted p.active_allowlist l x.country ≡ false
      → p.teleport_min_polls ≤ streak_count (lookup x.hash g.pending_teleport) l
      → Alarm (judge_teleport p g x base l)
  unfolding judge_teleport
  streak-Alarm e t m = (
    teleport_verdict g x base l tier_c 3 false (streak_count (lookup x.hash g.pending_teleport) l),
    ground arith,
    ground arith,
  )

  judge_teleport-streak :
      x.id_changed ≡ false
      → is_trusted p.active_allowlist l x.country ≡ false
      → lookup x.hash (judge_teleport p g x base l).0.pending_teleport
        ≡ some (record { locality = l; count = streak_count (lookup x.hash g.pending_teleport) l })
  unfolding judge_teleport
  judge_teleport-streak e t = rw (e, t, judge_teleport) (rw (lookup-insert, eqs_refl))

-- A live row of a known hash at a foreign and untrusted locality.
pub record Foreign (p : Params) (now : ℕ) (g : GeoState) (s : Session) (base : Baseline)
    (l : String) : Type 0 where
  pub known : lookup s.hash g.baseline ≡ some base
  pub hold : g.reseed_hold ≡ false
  pub live : is_live s.date_active now p.live_window_ms ≡ true
  pub at : s.country ≡ some l
  pub out : has base.home_keys l ≡ false
  pub untrusted : is_trusted p.active_allowlist l (country_of (some l)) ≡ false

-- The row is burnable, or a streak at its locality is noted and its hash stays known.
pub data Noted (p : Params) (g : GeoState) (s : Session) (base : Baseline) (l : String)
    (r : GeoState × Option Verdict) : Type 0 where
  alarm : Alarm r → Noted p g s base l r
  streak :
      (n : ℕ)
      → n ≡ streak_count (lookup s.hash g.pending_teleport) l
      → n < p.teleport_min_polls
      → lookup s.hash r.0.pending_teleport ≡ some (record { locality = l; count = n })
      → r.0.reseed_hold ≡ g.reseed_hold
      → (p.allow_passive_widen ≡ false → lookup s.hash r.0.baseline ≡ some (note_row base s))
      → Noted p g s base l r

record_row-baseline :
    (p : Params) (now : ℕ) (g : GeoState) (s : Session) (base : Baseline)
    → lookup s.hash (record_row p now g s base).baseline ≡ some (note_row base s)
unfolding record_row
record_row-baseline p now g s base = rw (lookup-insert, eqs_refl)

module _ (p : Params) (now : ℕ) (g : GeoState) (s : Session) (base : Baseline) (l : String)
    (f : Foreign p now g s base l) where
  abbrev row : GeoState
  row = record_row p now g s base

  abbrev seen : Sighting
  seen = sighting p now g s base

  row_hold : row.reseed_hold ≡ false
  unfolding record_row
  row_hold = f.hold

  row_untrusted : is_trusted p.active_allowlist l seen.country ≡ false
  unfolding sighting
  row_untrusted = rw f.at f.untrusted

  teleported-Noted :
      (changed : Bool)
      → seen.id_changed ≡ changed
      → Noted p g s base l (judge_teleport p row seen (note_row base s) l)
  unfolding record_row
  teleported-Noted true e = Noted.alarm (identity-Alarm p row seen (note_row base s) l row_hold e)
  teleported-Noted false e =
      elim (dec_le p.teleport_min_polls (streak_count (lookup s.hash g.pending_teleport) l)) [
        | yes m ↦ Noted.alarm (
            streak-Alarm p row seen (note_row base s) l row_hold e row_untrusted
              (unfold sighting in m))
        | no n ↦
            Noted.streak (streak_count (lookup s.hash g.pending_teleport) l) refl (omega arith)
              (unfold sighting in
                judge_teleport-streak p row seen (note_row base s) l row_hold e row_untrusted)
              (judge_teleport-reseed_hold p row seen (note_row base s) l)
              (λ off.
                ap (lookup s.hash) (judge_teleport-baseline p row seen (note_row base s) l)
                ∙ record_row-baseline p now g s base)
      ]

  Judged-Noted :
      (r : GeoState × Option Verdict)
      → Judged p now row seen (note_row base s) r
      → Noted p g s base l r
  unfolding sighting note_row
  Judged-Noted r (Judged.flapped flap e) =
      Noted.alarm (_, ap (λ x. x.1) e, flap-Alarm p row seen (note_row base s) l row_hold _)
  Judged-Noted r (Judged.teleported k calm at live out e) =
      let same : k ≡ l = ground arith in rw (e, same) (teleported-Noted _ refl)
  Judged-Noted r (Judged.settled calm home e) = let inside = home l f.at in ground arith

  pub classify_row-Noted : Noted p g s base l (classify_row p now g s)
  classify_row-Noted =
      rw (classify_row-known p now g s base f.known)
        (Judged-Noted _ (judge-Judged p now row seen (note_row base s)))

pub streak_count-pos : (o : Option Streak) (l : String) → 1 ≤ streak_count o l
streak_count-pos none l = omega arith
streak_count-pos (some k) l = ground arith

pub streak_count-again :
    (l : String) (n : ℕ) → streak_count (some (record { locality = l; count = n })) l ≡ n + 1
streak_count-again l n = rw eqs_refl
