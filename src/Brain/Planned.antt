-- ===== src/Brain/Planned.antt =====
-- brain.mjs, `Brain.sweep`: what may be in the plan of a sweep, and how much of it.
use mathlib.Core.List.{Memᴰ}
use enclave_gateway.Base.{
  ◌∙◌, ◌++◌, if◌then◌else◌, ◌≤◌, length-take-le, All-take, All-map, All-append, take-append-take,
  All-filter-both, any, filter, not, All-of-mem, refl, All-mono, eqs_iff, eqs, find, Option-cases,
  ltb, String, All, find-mem, subst, append-none, append-one, take-whole, take-prefix,
  length-append, sym, ap, inr, inl, arith, ◌≡◌, false, true, ◌∷◌, [], List, Option, Bool, ℕ, leb,
  length, take, map, Bool-cases,
}
use enclave_gateway.Replay.Geo.{Verdict, has, add, Session}
use enclave_gateway.Policy.Json.{Value}
use enclave_gateway.Brain.Plan.{
  is_candidate, candidates_all, mvp_candidates, contested_burns, plan_sweep, insert_recent,
  sort_recent, tier3_keys, burns_of, active_at, View, Proposal, is_evictable, is_burnable,
  burn_enabled, fill, holding,
}

abbrev pub tag : Bool → Session → Proposal
tag contested s = record { session = s; contested = contested }

-- The loop with its break is the first part of the concatenation.
fill-take :
    (cap : ℕ) (contested : Bool) (ss : List Session) (plan : List Proposal)
    → length plan ≤ cap
    → fill cap contested ss plan ≡ take cap (plan ++ map (tag contested) ss)
unfolding fill
fill-take cap contested [] plan h = sym (ap (take cap) (append-none plan) ∙ take-whole cap plan h)
fill-take cap contested (s ∷ ss) plan h = elim (Bool-cases (leb cap (length plan))) [
  | inl full ↦ rw full (sym (take-prefix cap plan _ (ground arith)))
  | inr room ↦
      let longer = plan ++ (tag contested s ∷ []) in
      let one = length-append plan (tag contested s ∷ []) in
      rw (room) (
        fill-take cap contested ss longer (ground arith)
        ∙ ap (take cap) (append-one plan (tag contested s) (map (tag contested) ss)))
]

-- Which sessions may be planned.
pub record Planned (view : View) (now : ℕ) (date : Value → Option ℕ) (sessions : List Session)
    (verdicts : List Verdict) (p : Proposal) : Type 0 where
  pub listed : Memᴰ p.session sessions
  pub evictable : is_evictable view p.session ≡ true
  pub burn :
      p.contested ≡ true
      → (burn_enabled view ≡ true)
        × ((v : Verdict) × Memᴰ v verdicts × (is_burnable v ≡ true) × (v.hash ≡ p.session.hash))
  pub benign :
      p.contested ≡ false
      → (holding date view now ≡ false) × (has view.whitelist p.session.hash ≡ false)

All-insert_recent {κ} :
    (P : Session → Type κ) (s : Session) (ss : List Session)
    → P s
    → All P ss
    → All P (insert_recent s ss)
unfolding insert_recent
All-insert_recent P s [] hs h = (hs, tt)
All-insert_recent P s (t ∷ ts) hs (ht, h) = elim (Bool-cases (ltb (active_at s) (active_at t))) [
  | inl e ↦ rw e (ht, All-insert_recent P s ts hs h)
  | inr e ↦ rw e (hs, (ht, h))
]

All-sort_recent {κ} : (P : Session → Type κ) (ss : List Session) → All P ss → All P (sort_recent ss)
unfolding sort_recent
All-sort_recent P [] h = tt
All-sort_recent P (s ∷ ss) (hs, h) =
    All-insert_recent P s (sort_recent ss) hs (All-sort_recent P ss h)

All-add {κ} :
    (P : String → Type κ) (xs : List String) (x : String) → All P xs → P x → All P (add xs x)
unfolding add
All-add P xs x h hx = elim (Bool-cases (has xs x)) [
  | inl e ↦ rw e h
  | inr e ↦ rw e (All-append P xs (x ∷ []) h (hx, tt))
]

All-tier3_keys {κ} :
    (P : String → Type κ) (vs : List Verdict) (keys : List String)
    → All (λ v. is_burnable v ≡ true → P v.hash) vs
    → All P keys
    → All P (tier3_keys vs keys)
unfolding tier3_keys
All-tier3_keys P [] keys hv h = h
All-tier3_keys P (v ∷ vs) keys (hv, hvs) h = elim (Bool-cases (is_burnable v)) [
  | inl e ↦ rw e (All-tier3_keys P vs (add keys v.hash) hvs (All-add P keys v.hash h (hv e)))
  | inr e ↦ rw e (All-tier3_keys P vs keys hvs h)
]

module _ (view : View) (sessions : List Session) where
  -- A session of the roster that may be evicted, on a hash that satisfies `P`.
  abbrev Target {κ} : (String → Type κ) → Session → Type κ
  Target P s = Memᴰ s sessions × (is_evictable view s ≡ true) × P s.hash

  All-burns_of {κ} :
      (P : String → Type κ) (hs : List String)
      → All P hs
      → All (Target P) (burns_of view sessions hs)
  unfolding burns_of
  All-burns_of P [] h = tt
  All-burns_of P (x ∷ hs) (hx, h) = elim (Option-cases (find (λ s. eqs s.hash x) sessions)) [
    | inl n ↦ rw n (All-burns_of P hs h)
    | inr (s, f) ↦
        let (m, q) = find-mem (λ t. eqs t.hash x) sessions f in
        let same = (eqs_iff s.hash x).0 q in
        rw f (elim (Bool-cases (is_evictable view s)) [
          | inl e ↦ rw e ((m, e, subst P (sym same) hx), All-burns_of P hs h)
          | inr e ↦ rw e (All-burns_of P hs h)
        ])
  ]

-- What makes a hash contested.
abbrev pub Burnt : List Verdict → String → Type 0
Burnt verdicts h = (v : Verdict) × Memᴰ v verdicts × (is_burnable v ≡ true) × (v.hash ≡ h)

module _ (date : Value → Option ℕ) (view : View) (now : ℕ) (sessions : List Session)
    (verdicts : List Verdict) where
  contested-Planned :
      All
        (λ s. Planned view now date sessions verdicts (tag true s))
        (contested_burns view sessions verdicts)
  unfolding contested_burns
  contested-Planned = elim (Bool-cases (burn_enabled view)) [
    | inr off ↦ rw off tt
    | inl on ↦
        let burnt =
          All-tier3_keys (Burnt verdicts) verdicts []
            (All-of-mem (λ v. is_burnable v ≡ true → Burnt verdicts v.hash) verdicts
              (λ v m b. (v, m, b, refl)))
            tt in
        rw on (
          All-mono (Target view sessions (Burnt verdicts)) _
            (λ s (m, e, b). record {
              listed = m;
              evictable = e;
              burn = λ q. (on, b);
              benign = λ q. ground arith;
            })
            (burns_of view sessions (tier3_keys verdicts []))
            (All-burns_of view sessions (Burnt verdicts) (tier3_keys verdicts []) burnt))
  ]

  mvp-Planned :
      (contested : List Session)
      → holding date view now ≡ false
      → All
          (λ s. Planned view now date sessions verdicts (tag false s))
          (mvp_candidates view sessions contested)
  unfolding mvp_candidates candidates_all
  mvp-Planned contested free =
      let filtered =
        All-filter-both (λ s. Memᴰ s sessions) (is_candidate view) sessions
          (All-of-mem (λ s. Memᴰ s sessions) sessions (λ s m. m)) in
      let sorted = All-sort_recent _ (filter (is_candidate view) sessions) filtered in
      let both = All-filter-both _ (λ s. not (any (λ c. eqs c.hash s.hash) contested)) _ sorted in
      All-mono _ _
        (λ s ((m, candidate), apart). record {
          listed = m;
          evictable = ground arith;
          burn = λ q. ground arith;
          benign = λ q. (free, ground arith);
        })
        _ both

  -- The plan is the first part, as long as the cap, of the contested burns followed, unless the
  -- fresh window or the enrolment hold is open, by the other candidates: burns have the priority, and
  -- the two share one budget.
  pub plan_sweep-take :
      (cap : ℕ)
      → plan_sweep date cap view now sessions verdicts
        ≡ take cap (
            map (tag true) (contested_burns view sessions verdicts)
            ++ (if holding date view now
                then []
                else map
                    (tag false)
                    (mvp_candidates view sessions (contested_burns view sessions verdicts))))
  unfolding plan_sweep
  plan_sweep-take cap =
      let contested = contested_burns view sessions verdicts in
      let benign = mvp_candidates view sessions contested in
      let first = fill-take cap true contested [] (omega arith) in
      let within : length (fill cap true contested []) ≤ cap =
        subst (λ b. length b ≤ cap) (sym first) (length-take-le cap (map (tag true) contested)) in
      elim (Bool-cases (holding date view now)) [
        | inl held ↦ rw held (first ∙ ap (take cap) (sym (append-none (map (tag true) contested))))
        | inr free ↦ rw free (
            fill-take cap false benign (fill cap true contested []) within
            ∙ ap (λ b. take cap (b ++ map (tag false) benign)) first
            ∙ take-append-take cap (map (tag true) contested) (map (tag false) benign))
      ]

  -- The plan is within the cap, and every session in it is in the roster, not current, not the guard's
  -- own, and not removed within the cooldown. A contested one has a burnable verdict and stands under
  -- the signed `auto_burn`; any other one is not on the whitelist, and no hold is open.
  pub plan_sweep-Planned :
      (cap : ℕ)
      → (length (plan_sweep date cap view now sessions verdicts) ≤ cap)
        × All
            (Planned view now date sessions verdicts)
            (plan_sweep date cap view now sessions verdicts)
  plan_sweep-Planned cap =
      let contested = contested_burns view sessions verdicts in
      let P = Planned view now date sessions verdicts in
      let burns = All-map P (tag true) contested contested-Planned in
      let whole : All P (
          map (tag true) contested
          ++ (if holding date view now
              then []
              else map (tag false) (mvp_candidates view sessions contested))) =
        elim (Bool-cases (holding date view now)) [
          | inl held ↦ rw held (All-append P (map (tag true) contested) [] burns tt)
          | inr free ↦ rw free (
              All-append P (map (tag true) contested) _ burns
                (All-map P (tag false) _ (mvp-Planned contested free)))
        ] in
      rw (plan_sweep-take cap) (length-take-le cap _, All-take P cap _ whole)
