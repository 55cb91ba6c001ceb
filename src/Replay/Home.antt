-- ===== src/Replay/Home.antt =====
-- replay-detect.mjs: the baseline of a hash over a classification.
use enclave_gateway.Base.{
  lookup-retain, ap, Bool-cases, List, Option, subst, lookup-insert, String-discrete, lookup, ◌∙◌,
  String, inr, inl, arith, ◌≡◌, false, true, ◌∷◌, [], some, none, refl, ℕ,
}
use enclave_gateway.Replay.Geo.{Session, Params, GeoState, Baseline, Enrolled, has}
use enclave_gateway.Replay.Observe.{
  push_ring, seed_with, first_baseline, record_row, seed, note_row, sighting,
}
use enclave_gateway.Replay.Judge.{classify_row}
use enclave_gateway.Replay.Frame.{
  classify_row-known, classify_row-unknown, judge-Judged, Judged-baseline,
}
use enclave_gateway.Replay.Classify.{classify_loop, classify_replay, prune, seen_hashes, is_guarded}

-- The anchors of the second baseline are those of the first.
pub record SameHome (b c : Baseline) : Type 0 where
  pub home : c.home_keys ≡ b.home_keys
  pub born : c.born_at ≡ b.born_at
  pub identity : (e : Enrolled) → b.enrolled ≡ some e → c.enrolled ≡ some e

SameHome-refl : (b : Baseline) → SameHome b b
SameHome-refl b = record { home = refl; born = refl; identity = λ e h. h }

SameHome-trans : {b c d : Baseline} → SameHome b c → SameHome c d → SameHome b d
SameHome-trans p q = record {
  home = q.home ∙ p.home;
  born = q.born ∙ p.born;
  identity = λ e h. q.identity e (p.identity e h);
}

note_row-SameHome : (b : Baseline) (s : Session) → SameHome b (note_row b s)
unfolding note_row
note_row-SameHome b s = record { home = refl; born = refl; identity = λ e h. ground arith }

-- The hash still has a baseline, with the anchors of `b`.
pub record KeepsHome (h : String) (b : Baseline) (g : GeoState) : Type 0 where
  pub after : Baseline
  pub found : lookup h g.baseline ≡ some after
  pub same : SameHome b after

module _ (p : Params) (off : p.allow_passive_widen ≡ false) (now : ℕ) where
  record_row-KeepsHome :
      (g : GeoState) (s : Session) (base : Baseline) (h : String) (b : Baseline)
      → lookup s.hash g.baseline ≡ some base
      → lookup h g.baseline ≡ some b
      → KeepsHome h b (record_row p now g s base)
  unfolding record_row
  record_row-KeepsHome g s base h b at_s at_h = elim (String-discrete s.hash h) [
    | yes e ↦ record {
      after = note_row base s;
      found = ground (arith, lookup-insert s.hash h (note_row base s) g.baseline);
      same = subst (λ k. SameHome k (note_row base s)) (ground arith) (note_row-SameHome base s);
    }
    | no n ↦ record {
      after = b;
      found = ground (arith, lookup-insert s.hash h (note_row base s) g.baseline);
      same = SameHome-refl b;
    }
  ]

  seed_with-lookup :
      (s : Session) (g : GeoState) (l d : Option String) (h : String) (b : Baseline)
      → lookup s.hash g.baseline ≡ none
      → lookup h g.baseline ≡ some b
      → lookup h (seed_with now s g l d).baseline ≡ some b
  unfolding seed_with
  seed_with-lookup s g (some l) (some d) h b fresh at_h =
      ground (arith, lookup-insert s.hash h (first_baseline now s l d) g.baseline)
  seed_with-lookup s g _ _ h b fresh at_h = at_h

  -- One row leaves the anchors of every hash alone.
  classify_row-KeepsHome :
      (g : GeoState) (s : Session) (h : String) (b : Baseline) (known : Option Baseline)
      → lookup s.hash g.baseline ≡ known
      → lookup h g.baseline ≡ some b
      → KeepsHome h b (classify_row p now g s).0
  classify_row-KeepsHome g s h b none at_s at_h = record {
    after = b;
    found =
        rw (classify_row-unknown p now g s at_s)
          (unfold seed push_ring in seed_with-lookup s _ _ _ h b at_s at_h);
    same = SameHome-refl b;
  }
  classify_row-KeepsHome g s h b (some base) at_s at_h =
      let kept = record_row-KeepsHome g s base h b at_s at_h in
      let still = Judged-baseline off (
        judge-Judged p now (record_row p now g s base) (sighting p now g s base)
          (note_row base s)) in
      record {
        after = kept.after;
        found = rw (classify_row-known p now g s base at_s) (ap (lookup h) still ∙ kept.found);
        same = kept.same;
      }

  classify_loop-KeepsHome :
      (ss : List Session) (g : GeoState) (h : String) (b : Baseline)
      → lookup h g.baseline ≡ some b
      → KeepsHome h b (classify_loop p now ss g).0
  unfolding classify_loop
  classify_loop-KeepsHome [] g h b at_h = record { after = b; found = at_h; same = SameHome-refl b }
  classify_loop-KeepsHome (s ∷ ss) g h b at_h = elim (Bool-cases (is_guarded s)) [
    | inl yes_guarded ↦
        let one = classify_row-KeepsHome g s h b _ refl at_h in
        let rest = classify_loop-KeepsHome ss (classify_row p now g s).0 h one.after one.found in
        rw yes_guarded (record {
          after = rest.after;
          found = rest.found;
          same = SameHome-trans one.same rest.same;
        })
    | inr skipped ↦ rw skipped (classify_loop-KeepsHome ss g h b at_h)
  ]

  -- With passive widening off, as it is by default: a hash that has a baseline and is in the roster
  -- keeps through a classification its home localities, its birth, and the identity it was enrolled
  -- with, whatever the roster says.
  pub classify_replay-KeepsHome :
      (ss : List Session) (g : GeoState) (h : String) (b : Baseline)
      → lookup h g.baseline ≡ some b
      → has (seen_hashes ss) h ≡ true
      → KeepsHome h b (classify_replay p now ss g).0
  unfolding classify_replay prune
  classify_replay-KeepsHome ss g h b at_h seen =
      let kept = classify_loop-KeepsHome ss g h b at_h in
      record {
        after = kept.after;
        found =
            lookup-retain (has (seen_hashes ss)) h (classify_loop p now ss g).0.baseline
            ∙ rw seen kept.found;
        same = kept.same;
      }
