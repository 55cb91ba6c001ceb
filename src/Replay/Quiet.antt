-- ===== src/Replay/Quiet.antt =====
-- replay-detect.mjs: what the rows of other hashes leave of the state of a hash.
use enclave_gateway.Base.{
  insert, remove, lookup-insert, lookup-remove, ap, ◌∙◌, Bool, Bool-cases, Option-cases, inl, inr,
  arith, ◌&&◌, filter, [], ◌∷◌, some, none, false, eqs, ℕ, Option, List, ◌≡◌, String, lookup, refl,
}
use enclave_gateway.Replay.Geo.{Session, Params, GeoState, Baseline, Verdict}
use enclave_gateway.Replay.Observe.{
  Sighting, record_row, sighting, note_row, seed, seed_with, push_ring, observation,
}
use enclave_gateway.Replay.Judge.{is_trusted, classify_row, judge_teleport, settle}
use enclave_gateway.Replay.Frame.{
  Judged-baseline, Judged-reseed_hold, Judged, judge-Judged, classify_row-unknown,
  classify_row-known,
}
use enclave_gateway.Replay.Classify.{classify_loop, is_guarded}

-- The same baseline and streak of a hash, and the same re-seed flag.
pub record SameView (h : String) (g g' : GeoState) : Type 0 where
  pub baseline : lookup h g'.baseline ≡ lookup h g.baseline
  pub streak : lookup h g'.pending_teleport ≡ lookup h g.pending_teleport
  pub hold : g'.reseed_hold ≡ g.reseed_hold

SameView-refl : (h : String) (g : GeoState) → SameView h g g
SameView-refl h g = record { baseline = refl; streak = refl; hold = refl }

SameView-trans : {h : String} {f g k : GeoState} → SameView h f g → SameView h g k → SameView h f k
SameView-trans p q = record {
  baseline = q.baseline ∙ p.baseline;
  streak = q.streak ∙ p.streak;
  hold = q.hold ∙ p.hold;
}

other_insert {ℓ} :
    {V : Type ℓ} (k h : String) (v : V) (m : List (String × V))
    → eqs k h ≡ false
    → lookup h (insert k v m) ≡ lookup h m
other_insert k h v m other = lookup-insert k h v m ∙ rw other refl

other_remove {ℓ} :
    {V : Type ℓ} (k h : String) (m : List (String × V))
    → eqs k h ≡ false
    → lookup h (remove k m) ≡ lookup h m
other_remove k h m other = lookup-remove k h m ∙ rw other refl

module _ (h : String) (p : Params) (g : GeoState) (x : Sighting) (b : Baseline)
    (other : eqs x.hash h ≡ false) where
  judge_teleport-streak_other :
      (l : String)
      → lookup h (judge_teleport p g x b l).0.pending_teleport ≡ lookup h g.pending_teleport
  unfolding judge_teleport
  judge_teleport-streak_other l = elim (Bool-cases x.id_changed) [
    | inl e ↦ rw (e, judge_teleport) (other_remove x.hash h g.pending_teleport other)
    | inr e ↦ elim (Bool-cases (is_trusted p.active_allowlist l x.country)) [
      | inl t ↦ rw (e, t, judge_teleport) (other_remove x.hash h g.pending_teleport other)
      | inr t ↦ rw (e, t, judge_teleport) (other_insert x.hash h _ g.pending_teleport other)
    ]
  ]

  settle-cleared : (settle p g x b).0.pending_teleport ≡ remove x.hash g.pending_teleport
  unfolding settle
  settle-cleared = ground arith

  Judged-streak_other :
      (now : ℕ) (r : GeoState × Option Verdict)
      → Judged p now g x b r
      → lookup h r.0.pending_teleport ≡ lookup h g.pending_teleport
  Judged-streak_other now r (Judged.flapped _ e) =
      ap (λ y. lookup h y.0.pending_teleport) e ∙ other_remove x.hash h g.pending_teleport other
  Judged-streak_other now r (Judged.teleported l _ _ _ _ e) =
      ap (λ y. lookup h y.0.pending_teleport) e ∙ judge_teleport-streak_other l
  Judged-streak_other now r (Judged.settled _ _ e) =
      ap (λ y. lookup h y.0.pending_teleport) e
      ∙ ap (lookup h) settle-cleared
      ∙ other_remove x.hash h g.pending_teleport other

-- The rows of a hash that are judged.
abbrev pub is_row : String → Session → Bool
is_row h r = is_guarded r && eqs r.hash h

abbrev pub rows_of : String → List Session → List Session
rows_of h ss = filter (is_row h) ss

module _ (p : Params) (off : p.allow_passive_widen ≡ false) (now : ℕ) (h : String) where
  seed_with-SameView :
      (g : GeoState) (s : Session) (l d : Option String)
      → eqs s.hash h ≡ false
      → SameView h g (seed_with now s g l d)
  unfolding seed_with
  seed_with-SameView g s (some l) (some d) other = record {
    baseline = other_insert s.hash h _ g.baseline other;
    streak = refl;
    hold = refl;
  }
  seed_with-SameView g s (some l) none other = SameView-refl h g
  seed_with-SameView g s none d other = SameView-refl h g

  pushed-SameView :
      (g : GeoState) (s : Session) → SameView h g (push_ring g s.hash (observation s now p) p)
  unfolding push_ring
  pushed-SameView g s = record { baseline = refl; streak = refl; hold = refl }

  known-SameView :
      (g : GeoState) (s : Session) (b : Baseline) (r : GeoState × Option Verdict)
      → eqs s.hash h ≡ false
      → Judged p now (record_row p now g s b) (sighting p now g s b) (note_row b s) r
      → SameView h g r.0
  unfolding record_row sighting push_ring
  known-SameView g s b r other j = record {
    baseline = ap (lookup h) (Judged-baseline off j) ∙ other_insert s.hash h _ g.baseline other;
    streak = Judged-streak_other h p _ _ _ other now r j;
    hold = Judged-reseed_hold j;
  }

  -- A row of another hash.
  pub classify_row-SameView :
      (g : GeoState) (s : Session) → eqs s.hash h ≡ false → SameView h g (classify_row p now g s).0
  classify_row-SameView g s other = elim (Option-cases (lookup s.hash g.baseline)) [
    | inl fresh ↦
        rw (classify_row-unknown p now g s fresh)
          (unfold seed in SameView-trans (pushed-SameView g s) (seed_with-SameView _ s _ _ other))
    | inr (b, known) ↦
        rw (classify_row-known p now g s b known)
          (known-SameView g s b _ other (judge-Judged p now _ _ _))
  ]

  pub classify_loop-SameView :
      (ss : List Session) (g : GeoState)
      → rows_of h ss ≡ []
      → SameView h g (classify_loop p now ss g).0
  unfolding classify_loop
  classify_loop-SameView [] g none_there = SameView-refl h g
  classify_loop-SameView (s ∷ ss) g none_there = elim (Bool-cases (is_row h s)) [
    | inl e ↦ let some_there : s ∷ rows_of h ss ≡ [] = rw e at none_there in cc
    | inr e ↦
        let rest : rows_of h ss ≡ [] = rw e at none_there in
        elim (Bool-cases (is_guarded s)) [
          | inl g_yes ↦
              let other : eqs s.hash h ≡ false = ground (arith, e, g_yes) in
              rw g_yes (
                SameView-trans (classify_row-SameView g s other)
                  (classify_loop-SameView ss (classify_row p now g s).0 rest))
          | inr skipped ↦ rw skipped (classify_loop-SameView ss g rest)
        ]
  ]
