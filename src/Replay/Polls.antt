-- ===== src/Replay/Polls.antt =====
-- replay-detect.mjs, `classifyReplay`: a live session in a foreign, untrusted place, poll after poll.
use enclave_gateway.Base.{
  lookup-retain, ◌+◌, ◌⊎◌, ◌≤◌, ℕ, true, false, List, String, some, lookup, ◌≡◌, subst, ◌∙◌, inl,
  inr, arith, Bool-cases, [], ◌∷◌,
}
use enclave_gateway.Replay.Locality.{country_of}
use enclave_gateway.Replay.Geo.{has, Session, Params, GeoState, Baseline, Verdict}
use enclave_gateway.Replay.Observe.{is_live, note_row}
use enclave_gateway.Replay.Judge.{is_trusted, streak_count}
use enclave_gateway.Replay.Classify.{classify_replay, prune, seen_hashes, classify_loop, is_guarded}
use enclave_gateway.Replay.Detect.{streak_count-again, streak_count-pos, Foreign}
use enclave_gateway.Replay.Quiet.{is_row, rows_of}
use enclave_gateway.Replay.Loop.{Raised, Polled, raised, noted, loop-Polled}

rows_of-seen :
    (h : String) (ss rs : List Session) (s : Session)
    → rows_of h ss ≡ s ∷ rs
    → has (seen_hashes ss) h ≡ true
unfolding seen_hashes
rows_of-seen h [] rs s e = cc
rows_of-seen h (r ∷ ss) rs s e = elim (Bool-cases (is_row h r)) [
  | inl t ↦ ground (arith, t)
  | inr t ↦
      let ih = rows_of-seen h ss rs s (rw t at e) in
      elim (Bool-cases (is_guarded r)) [
        | inl q ↦ ground (arith, q, ih)
        | inr q ↦ ground (arith, q, ih)
      ]
]

module _ (p : Params) (off : p.allow_passive_widen ≡ false) where
  -- The pruning leaves a hash of the roster alone.
  pruned-Polled :
      (h : String) (b : Baseline) (l : String) (n : ℕ) (seen : List String)
      (r : GeoState × List Verdict)
      → has seen h ≡ true
      → Polled p h b l n r
      → Polled p h b l n (prune seen r.0, r.1)
  unfolding prune
  pruned-Polled h b l n seen r there (raised v) = raised v
  pruned-Polled h b l n seen r there (noted few streak hold known) =
      noted few (lookup-retain (has seen) h r.0.pending_teleport ∙ rw there streak) hold
        (lookup-retain (has seen) h r.0.baseline ∙ rw there known)

  replay-Polled :
      (now : ℕ) (ss : List Session) (g : GeoState) (s : Session) (base : Baseline) (l : String)
      → rows_of s.hash ss ≡ s ∷ []
      → Foreign p now g s base l
      → Polled p s.hash
          (note_row base s)
          l
          (streak_count (lookup s.hash g.pending_teleport) l)
          (classify_replay p now ss g)
  unfolding classify_replay
  replay-Polled now ss g s base l one f =
      pruned-Polled s.hash _ l _ (seen_hashes ss) (classify_loop p now ss g)
        (rows_of-seen s.hash ss [] s one) (loop-Polled p off now ss g s base l one f)

  -- The second poll after a noted one, in the same place.
  again-Raised :
      (now : ℕ) (ss : List Session) (s s' : Session) (base : Baseline) (l : String) (n : ℕ)
      (r : GeoState × List Verdict)
      → p.teleport_min_polls ≤ 2
      → 1 ≤ n
      → s'.hash ≡ s.hash
      → rows_of s'.hash ss ≡ s' ∷ []
      → is_live s'.date_active now p.live_window_ms ≡ true
      → s'.country ≡ some l
      → has base.home_keys l ≡ false
      → is_trusted p.active_allowlist l (country_of (some l)) ≡ false
      → Polled p s.hash (note_row base s) l n r
      → Raised s.hash r.1 ⊎ Raised s.hash (classify_replay p now ss r.0).1
  again-Raised now ss s s' base l n r polls pos same one live at out untrusted (raised v) = inl v
  again-Raised now ss s s' base l n r polls pos same one live at out untrusted
        (noted few streak hold known) =
      inr (settle_polled (replay-Polled now ss r.0 s' (note_row base s) l one foreign))
    where
      foreign : Foreign p now r.0 s' (note_row base s) l
      foreign = record {
        known = rw same known;
        hold = hold;
        live = live;
        at = at;
        out = unfold note_row in out;
        untrusted = untrusted;
      }

      settle_polled :
          Polled p s'.hash
            (note_row (note_row base s) s')
            l
            (streak_count (lookup s'.hash r.0.pending_teleport) l)
            (classify_replay p now ss r.0)
          → Raised s.hash (classify_replay p now ss r.0).1
      settle_polled (raised v) = subst (λ h. Raised h (classify_replay p now ss r.0).1) same v
      settle_polled (noted fewer _ _ _) =
          let again : streak_count (lookup s'.hash r.0.pending_teleport) l ≡ n + 1 =
            rw (same, streak) (streak_count-again l n) in
          absurd (omega (arith, fewer, again, polls, pos))

  -- With passive widening off and at most two polls asked for: if a hash with a baseline is seen live
  -- in one foreign and untrusted locality, by the one row of it in each of two rosters, polled one
  -- after the other, and no re-seed window is open at the first, the first or the second
  -- classification gives it a verdict of tier 3, whatever identity the rows show and whatever else
  -- the rosters have.
  pub classify_replay-Alarm :
      (now now' : ℕ) (ss ss' : List Session) (g : GeoState) (s s' : Session) (base : Baseline)
      (l : String)
      → p.teleport_min_polls ≤ 2
      → rows_of s.hash ss ≡ s ∷ []
      → Foreign p now g s base l
      → s'.hash ≡ s.hash
      → rows_of s'.hash ss' ≡ s' ∷ []
      → is_live s'.date_active now' p.live_window_ms ≡ true
      → s'.country ≡ some l
      → Raised s.hash (classify_replay p now ss g).1
        ⊎ Raised s.hash (classify_replay p now' ss' (classify_replay p now ss g).0).1
  classify_replay-Alarm now now' ss ss' g s s' base l polls one f same one' live at =
      again-Raised now' ss' s s' base l _ (classify_replay p now ss g) polls
        (streak_count-pos (lookup s.hash g.pending_teleport) l) same one' live at f.out f.untrusted
        (replay-Polled now ss g s base l one f)
