-- ===== src/Replay/Loop.antt =====
-- replay-detect.mjs, the loop of `classifyReplay`: what the one row of a hash leaves after all rows.
use mathlib.Core.List.{Memᴰ}
use enclave_gateway.Base.{
  ℕ, true, false, List, String, Option, none, some, eqs, lookup, ◌≡◌, refl, sym, subst, ◌∙◌, ◌<◌,
  inl, inr, arith, Bool-cases, [], ◌∷◌,
}
use enclave_gateway.Replay.Geo.{Session, Params, GeoState, Baseline, Verdict}
use enclave_gateway.Replay.Observe.{note_row}
use enclave_gateway.Replay.Judge.{classify_row, streak_count}
use enclave_gateway.Replay.Classify.{classify_loop, is_guarded, with_verdict}
use enclave_gateway.Replay.Row.{classify_row-RowFits}
use enclave_gateway.Replay.Detect.{Foreign, Noted, classify_row-Noted}
use enclave_gateway.Replay.Quiet.{
  SameView, classify_row-SameView, is_row, rows_of, classify_loop-SameView,
}

-- A burnable verdict on a hash is among those of a poll.
pub record Raised (h : String) (vs : List Verdict) : Type 0 where
  pub verdict : Verdict
  pub listed : Memᴰ verdict vs
  pub hash : verdict.hash ≡ h
  pub tier : verdict.tier ≡ 3

Raised-later :
    (h : String) (o : Option Verdict) (vs : List Verdict)
    → Raised h vs
    → Raised h (with_verdict o vs)
Raised-later h none vs r = r
Raised-later h (some v) vs r = record {
  verdict = r.verdict;
  listed = Memᴰ.tail r.listed;
  hash = r.hash;
  tier = r.tier;
}

alarm-Raised :
    (h : String) (o : Option Verdict) (vs : List Verdict) (v : Verdict)
    → o ≡ some v
    → v.hash ≡ h
    → v.tier ≡ 3
    → Raised h (with_verdict o vs)
alarm-Raised h o vs v e hash tier =
    rw e (record { verdict = v; listed = Memᴰ.head refl; hash = hash; tier = tier })

-- After the rows of a poll: a burnable verdict on the hash, or its streak and its baseline noted.
pub data Polled (p : Params) (h : String) (b : Baseline) (l : String) (n : ℕ)
    (r : GeoState × List Verdict) : Type 0 where
  raised : Raised h r.1 → Polled p h b l n r
  noted :
      n < p.teleport_min_polls
      → lookup h r.0.pending_teleport ≡ some (record { locality = l; count = n })
      → r.0.reseed_hold ≡ false
      → lookup h r.0.baseline ≡ some b
      → Polled p h b l n r

Polled-later :
    (p : Params) (h : String) (b : Baseline) (l : String) (n : ℕ) (g : GeoState)
    (o : Option Verdict) (vs : List Verdict)
    → Polled p h b l n (g, vs)
    → Polled p h b l n (g, with_verdict o vs)
Polled-later p h b l n g o vs (raised r) = raised (Raised-later h o vs r)
Polled-later p h b l n g o vs (noted few streak hold known) = noted few streak hold known

-- The rows before one of a hash, which are of other hashes, leave it foreign.
Foreign-SameView :
    (p : Params) (now : ℕ) (g g' : GeoState) (s : Session) (base : Baseline) (l : String)
    → SameView s.hash g g'
    → Foreign p now g s base l
    → Foreign p now g' s base l
Foreign-SameView p now g g' s base l same f = record {
  known = same.baseline ∙ f.known;
  hold = same.hold ∙ f.hold;
  live = f.live;
  at = f.at;
  out = f.out;
  untrusted = f.untrusted;
}

cons-injective :
    (r s : Session) (rs ss : List Session)
    → ◌≡◌ {A = List Session} (r ∷ rs) (s ∷ ss)
    → (r ≡ s) × (rs ≡ ss)
cons-injective r s rs ss e = (cc, cc)

module _ (p : Params) (off : p.allow_passive_widen ≡ false) (now : ℕ) where
  -- What a row has noted is left alone by the rows after it, which are of other hashes.
  row-Polled :
      (g : GeoState) (s : Session) (base : Baseline) (l : String) (ss : List Session)
      (r : GeoState × Option Verdict)
      → g.reseed_hold ≡ false
      → ((v : Verdict) → r.1 ≡ some v → v.hash ≡ s.hash)
      → rows_of s.hash ss ≡ []
      → Noted p g s base l r
      → Polled p s.hash
          (note_row base s)
          l
          (streak_count (lookup s.hash g.pending_teleport) l)
          (let (g', vs) = classify_loop p now ss r.0 in (g', with_verdict r.1 vs))
  row-Polled g s base l ss r hold hashes alone (Noted.alarm (v, e, tier)) =
      raised (alarm-Raised s.hash r.1 _ v e (hashes v e) tier)
  row-Polled g s base l ss r hold hashes alone (Noted.streak n eq few found held known) =
      let same = classify_loop-SameView p off now s.hash ss r.0 alone in
      rw (← eq)
        (noted few (same.streak ∙ found) (same.hold ∙ held ∙ hold) (same.baseline ∙ known off))

  pub loop-Polled :
      (ss : List Session) (g : GeoState) (s : Session) (base : Baseline) (l : String)
      → rows_of s.hash ss ≡ s ∷ []
      → Foreign p now g s base l
      → Polled p s.hash
          (note_row base s)
          l
          (streak_count (lookup s.hash g.pending_teleport) l)
          (classify_loop p now ss g)
  unfolding classify_loop
  loop-Polled [] g s base l one f = cc
  loop-Polled (r ∷ ss) g s base l one f = elim (Bool-cases (is_row s.hash r)) [
    | inl e ↦
        let (same, alone) = cons-injective r s (rows_of s.hash ss) [] (rw e at one) in
        let guarded : is_guarded r ≡ true = ground (arith, e) in
        rw guarded (
          subst
            (λ x.
              Polled p s.hash (note_row base s) l
                (streak_count (lookup s.hash g.pending_teleport) l)
                (let (g', vs) = classify_loop p now ss (classify_row p now g x).0 in
                  (g', with_verdict (classify_row p now g x).1 vs)))
            (sym same)
            (row-Polled g s base l ss (classify_row p now g s) f.hold
              (classify_row-RowFits p now g s).hash alone (classify_row-Noted p now g s base l f)))
    | inr e ↦
        let rest : rows_of s.hash ss ≡ s ∷ [] = rw e at one in
        elim (Bool-cases (is_guarded r)) [
          | inl guarded ↦
              let other : eqs r.hash s.hash ≡ false = ground (arith, e, guarded) in
              let g' = (classify_row p now g r).0 in
              let same = classify_row-SameView p off now s.hash g r other in
              let ih =
                loop-Polled ss g' s base l rest (Foreign-SameView p now g g' s base l same f) in
              rw guarded (
                Polled-later p s.hash _ l _ _ (classify_row p now g r).1 _ (
                  subst
                    (λ o.
                      Polled p s.hash (note_row base s) l (streak_count o l)
                        (classify_loop p now ss g'))
                    same.streak ih))
          | inr skipped ↦ rw skipped (loop-Polled ss g s base l rest f)
        ]
  ]
