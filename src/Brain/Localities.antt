-- ===== src/Brain/Localities.antt =====
-- brain.mjs, `resolveActiveAllowlist`: the grounds on which it trusts a locality, and its loop.
use enclave_gateway.Brain.Sets.{has-add, add-has}
use mathlib.Core.List.{Memᴰ}
use enclave_gateway.Base.{
  subst, sym, ap, ◌↔◌, ◌∙◌, ◌⊎◌, ◌||◌, inr, inl, arith, ◌≡◌, false, true, ◌∷◌, [], some, none, refl,
  List, Option, String, Bool, ℕ, eqs, eqs_iff, Bool-cases,
}
use enclave_gateway.Replay.Geo.{Session, has}
use enclave_gateway.Replay.Locality.{country_of}
use enclave_gateway.Policy.Json.{Value}
use enclave_gateway.Policy.Ops.{string_of}
use enclave_gateway.Brain.Trusted.{
  travel_active, is_city, is_country, country_trusted, trusts, note_locality, note_localities,
  resolve_active_allowlist,
}

module _ (iso2 : String → Option String) (upper : String → String) (date : Value → Option ℕ)
    (cities : List (String × Value)) (countries : List Value) (travel_until : Value) (now : ℕ) where
  -- The grounds on which a locality is trusted.
  pub data Trusted (loc : String) : Type 0 where
    travelling : travel_active iso2 upper date travel_until now ≡ true → Trusted loc
    city : (until : Value) → Memᴰ (loc, until) cities → Trusted loc
    unknown_country : iso2 (country_of (some loc)) ≡ none → Trusted loc
    country :
        (entry : Value) (code : String)
        → Memᴰ entry countries
        → iso2 (country_of (some loc)) ≡ some code
        → upper (string_of entry) ≡ code
        → Trusted loc

  is_city-mem :
      (cs : List (String × Value)) (loc : String)
      → is_city iso2 upper date cs loc ≡ true
      → (until : Value) × Memᴰ (loc, until) cs
  unfolding is_city
  is_city-mem [] loc h = cc
  is_city-mem ((c, u) ∷ cs) loc h = elim (Bool-cases (eqs c loc)) [
    | inl e ↦ (u, Memᴰ.head (ap (λ x. (x, u)) (sym ((eqs_iff c loc).0 e))))
    | inr e ↦ let (w, m) = is_city-mem cs loc (ground arith) in (w, Memᴰ.tail m)
  ]

  mem-is_city :
      (cs : List (String × Value)) (loc : String) (until : Value)
      → Memᴰ (loc, until) cs
      → is_city iso2 upper date cs loc ≡ true
  unfolding is_city
  mem-is_city [] loc u m = elim m [ ]
  mem-is_city ((c, w) ∷ cs) loc u (Memᴰ.head e) =
      let same : eqs c loc ≡ true = (eqs_iff c loc).1 (sym (ap (λ x. x.0) e)) in ground arith
  mem-is_city ((c, w) ∷ cs) loc u (Memᴰ.tail m) = let ih = mem-is_city cs loc u m in ground arith

  country-mem :
      (cs : List Value) (code : String)
      → is_country iso2 upper date cs code ≡ true
      → (entry : Value) × Memᴰ entry cs × (upper (string_of entry) ≡ code)
  unfolding is_country
  country-mem [] code h = cc
  country-mem (c ∷ cs) code h = elim (Bool-cases (eqs (upper (string_of c)) code)) [
    | inl e ↦ (c, Memᴰ.head refl, (eqs_iff (upper (string_of c)) code).0 e)
    | inr e ↦ let (w, m, q) = country-mem cs code (ground arith) in (w, Memᴰ.tail m, q)
  ]

  mem-country :
      (cs : List Value) (code : String) (entry : Value)
      → Memᴰ entry cs
      → upper (string_of entry) ≡ code
      → is_country iso2 upper date cs code ≡ true
  unfolding is_country
  mem-country [] code entry m q = elim m [ ]
  mem-country (c ∷ cs) code entry (Memᴰ.head e) q =
      let same : eqs (upper (string_of c)) code ≡ true =
        (eqs_iff (upper (string_of c)) code).1 (ap (λ v. upper (string_of v)) (sym e) ∙ q) in
      ground arith
  mem-country (c ∷ cs) code entry (Memᴰ.tail m) q =
      let ih = mem-country cs code entry m q in ground arith

  abbrev trusts_loc : String → Bool
  trusts_loc loc = trusts iso2 upper date cities countries travel_until now loc

  by_country :
      (loc : String) (o : Option String)
      → iso2 (country_of (some loc)) ≡ o
      → country_trusted iso2 upper date countries o ≡ true
      → Trusted loc
  by_country loc none q h = unknown_country q
  by_country loc (some code) q h =
      let (entry, m, same) = country-mem countries code h in country entry code m q same

  trusts-Trusted : (loc : String) → trusts_loc loc ≡ true → Trusted loc
  unfolding trusts
  trusts-Trusted loc h = elim (Bool-cases (travel_active iso2 upper date travel_until now)) [
    | inl e ↦ travelling e
    | inr e ↦ elim (Bool-cases (is_city iso2 upper date cities loc)) [
      | inl c ↦ let (until, m) = is_city-mem cities loc c in city until m
      | inr c ↦ by_country loc (iso2 (country_of (some loc))) refl (ground arith)
    ]
  ]

  Trusted-trusts : (loc : String) → Trusted loc → trusts_loc loc ≡ true
  unfolding trusts
  Trusted-trusts loc (travelling e) = ground arith
  Trusted-trusts loc (city until m) = let e = mem-is_city cities loc until m in ground arith
  Trusted-trusts loc (unknown_country e) = rw e (ground arith)
  Trusted-trusts loc (country entry code m q same) =
      let e = mem-country countries code entry m same in rw q (ground arith)

  abbrev noted : List String → Option String → List String
  noted = note_locality iso2 upper date cities countries travel_until now

  noted_sound :
      (active : List String) (o : Option String) (loc : String)
      → has (noted active o) loc ≡ true
      → (has active loc ≡ true) ⊎ ((o ≡ some loc) × (eqs loc "" ≡ false) × (trusts_loc loc ≡ true))
  unfolding note_locality
  noted_sound active none loc h = inl h
  noted_sound active (some l) loc h = elim (Bool-cases (eqs l "" || has active l)) [
    | inl e ↦ inl (rw e at h)
    | inr e ↦ elim (Bool-cases (trusts_loc l)) [
      | inr q ↦ inl (rw (e, q) at h)
      | inl q ↦ elim (has-add active l loc (rw (e, q) at h)) [
        | inl old ↦ inl old
        | inr same ↦ inr (
          ap (λ x. some x) same,
          subst (λ x. eqs x "" ≡ false) same (ground arith),
          subst (λ x. trusts_loc x ≡ true) same q,
        )
      ]
    ]
  ]

  noted_old :
      (active : List String) (o : Option String) (loc : String)
      → has active loc ≡ true
      → has (noted active o) loc ≡ true
  unfolding note_locality
  noted_old active none loc h = h
  noted_old active (some l) loc h = let grown = add-has active l loc (inl h) in ground arith

  noted_new :
      (active : List String) (loc : String)
      → eqs loc "" ≡ false
      → trusts_loc loc ≡ true
      → has (noted active (some loc)) loc ≡ true
  unfolding note_locality
  noted_new active loc full h = let grown = add-has active loc loc (inr refl) in ground arith

  abbrev all_noted : List String → List Session → List String
  all_noted = note_localities iso2 upper date cities countries travel_until now

  -- A locality of the roster that is not empty and is trusted.
  pub record Shown (ss : List Session) (loc : String) : Type 0 where
    pub session : Session
    pub listed : Memᴰ session ss
    pub at : session.country ≡ some loc
    pub full : eqs loc "" ≡ false
    pub trusted : Trusted loc

  all_noted_sound :
      (active : List String) (ss : List Session) (loc : String)
      → has (all_noted active ss) loc ≡ true
      → (has active loc ≡ true) ⊎ Shown ss loc
  unfolding note_localities
  all_noted_sound active [] loc h = inl h
  all_noted_sound active (s ∷ ss) loc h = elim (all_noted_sound (noted active s.country) ss loc h) [
    | inr x ↦ inr (record {
      session = x.session;
      listed = Memᴰ.tail x.listed;
      at = x.at;
      full = x.full;
      trusted = x.trusted;
    })
    | inl old ↦ elim (noted_sound active s.country loc old) [
      | inl first ↦ inl first
      | inr (at, full, q) ↦ inr (record {
        session = s;
        listed = Memᴰ.head refl;
        at = at;
        full = full;
        trusted = trusts-Trusted loc q;
      })
    ]
  ]

  all_noted_old :
      (active : List String) (ss : List Session) (loc : String)
      → has active loc ≡ true
      → has (all_noted active ss) loc ≡ true
  unfolding note_localities
  all_noted_old active [] loc h = h
  all_noted_old active (s ∷ ss) loc h =
      all_noted_old (noted active s.country) ss loc (noted_old active s.country loc h)

  all_noted_new :
      (active : List String) (ss : List Session) (loc : String) (s : Session)
      → Memᴰ s ss
      → s.country ≡ some loc
      → eqs loc "" ≡ false
      → Trusted loc
      → has (all_noted active ss) loc ≡ true
  unfolding note_localities
  all_noted_new active [] loc s m at full q = elim m [ ]
  all_noted_new active (t ∷ ss) loc s (Memᴰ.head e) at full q =
      all_noted_old (noted active t.country) ss loc
        (rw (sym (ap (λ x. x.country) e) ∙ at) (noted_new active loc full (Trusted-trusts loc q)))
  all_noted_new active (t ∷ ss) loc s (Memᴰ.tail m) at full q =
      all_noted_new (noted active t.country) ss loc s m at full q

  -- A locality is on the active allowlist exactly when a session of the roster shows it, it is not
  -- empty, and it is trusted: travel mode is on, or it is a trusted city, or its country is trusted,
  -- or the resolver does not know its country.
  pub resolve_active_allowlist_iff :
      (ss : List Session) (loc : String)
      → (has (resolve_active_allowlist iso2 upper date cities countries travel_until now ss) loc
          ≡ true)
        ↔ Shown ss loc
  unfolding resolve_active_allowlist
  resolve_active_allowlist_iff ss loc = (
    λ h. elim (all_noted_sound [] ss loc h) [ inl e ↦ ground arith | inr x ↦ x ],
    λ x. all_noted_new [] ss loc x.session x.listed x.at x.full x.trusted,
  )
