-- ===== src/Onboarding/Contexts.antt =====
-- The contexts of the ceremonies under assignments, removals and look-ups.
use enclave_gateway.Onboarding.Effects.{
  ◌>>=◌, replace, put, forget, current, context, Event, Ceremony, World, Action,
}
use enclave_gateway.Base.{
  insert, ◌+◌, lookup, remove, subst, Option-cases, Bool-cases, length, some, inl, inr, eqs, List,
  [], ◌∷◌, String, All, ◌≡◌, ◌≤◌, refl, arith,
}
use enclave_gateway.Onboarding.Healthy.{Knows, Healthy, Keeps, Kept}

module _ (t : List Event) where
  known_replace :
      (onb : String) (c : Ceremony) (sessions : List (String × Ceremony))
      → Knows t c
      → All (λ e. Knows t (e.1)) sessions
      → All (λ e. Knows t (e.1)) (replace onb c sessions)
  unfolding replace
  known_replace onb c [] n h = tt
  known_replace onb c ((k, d) ∷ rest) n (hd, h) = elim (Bool-cases (eqs k onb)) [
    | inl e ↦ rw e (n, h)
    | inr e ↦ rw e (hd, known_replace onb c rest n h)
  ]

  pub known_insert :
      (onb : String) (c : Ceremony) (sessions : List (String × Ceremony))
      → Knows t c
      → All (λ e. Knows t (e.1)) sessions
      → All (λ e. Knows t (e.1)) (insert onb c sessions)
  unfolding insert
  known_insert onb c [] n h = (n, tt)
  known_insert onb c ((k, d) ∷ rest) n (hd, h) = elim (Bool-cases (eqs k onb)) [
    | inl e ↦ rw e (n, h)
    | inr e ↦ rw e (hd, known_insert onb c rest n h)
  ]

  known_remove :
      (onb : String) (sessions : List (String × Ceremony))
      → All (λ e. Knows t (e.1)) sessions
      → All (λ e. Knows t (e.1)) (remove onb sessions)
  unfolding remove
  known_remove onb [] h = tt
  known_remove onb ((k, d) ∷ rest) (hd, h) = elim (Bool-cases (eqs k onb)) [
    | inl e ↦ rw e (known_remove onb rest h)
    | inr e ↦ rw e (hd, known_remove onb rest h)
  ]

  known_lookup :
      (onb : String) (sessions : List (String × Ceremony)) (c : Ceremony)
      → All (λ e. Knows t (e.1)) sessions
      → lookup onb sessions ≡ some c
      → Knows t c
  unfolding lookup
  known_lookup onb [] c h e = cc
  known_lookup onb ((k, d) ∷ rest) c (hd, h) e = elim (Bool-cases (eqs k onb)) [
    | inl q ↦ let same : d ≡ c = ground arith in subst (λ x. Knows t x) same hd
    | inr q ↦ known_lookup onb rest c h (rw q at e)
  ]

length-replace :
    (onb : String) (c : Ceremony) (sessions : List (String × Ceremony))
    → length (replace onb c sessions) ≡ length sessions
unfolding replace
length-replace onb c [] = refl
length-replace onb c ((k, d) ∷ rest) = ground (arith, length-replace onb c rest)

pub length-insert :
    (onb : String) (c : Ceremony) (sessions : List (String × Ceremony))
    → length (insert onb c sessions) ≤ length sessions + 1
unfolding insert
length-insert onb c [] = omega arith
length-insert onb c ((k, d) ∷ rest) = ground (arith, length-insert onb c rest)

length-remove :
    (onb : String) (sessions : List (String × Ceremony))
    → length (remove onb sessions) ≤ length sessions
unfolding remove
length-remove onb [] = omega arith
length-remove onb ((k, d) ∷ rest) = ground (arith, length-remove onb rest)

-- Assignments to a ceremony whose facts they keep.
pub put-Keeps :
    (c d : Ceremony) (onb : String)
    → ((t : List Event) → Knows t c → Knows t d)
    → Keeps c (put onb d)
unfolding put
put-Keeps c d onb f w h n = (
  record {
    ordered = h.ordered;
    known = known_replace w.trace onb d w.sessions (f w.trace n) h.known;
    few = omega (arith, h.few, length-replace onb d w.sessions);
  },
  λ l s. s,
)

pub forget-Keeps : (c : Ceremony) (onb : String) → Keeps c (forget onb)
unfolding forget
forget-Keeps c onb w h n = (
  record {
    ordered = h.ordered;
    known = known_remove w.trace onb w.sessions h.known;
    few = omega (arith, h.few, length-remove onb w.sessions);
  },
  λ l s. s,
)

-- A step that goes on with the context that the world has.
pub current-Keeps :
    {B : Type 0} (c : Ceremony) (onb : String) (k : Ceremony → Action B)
    → ((d : Ceremony) → Keeps d (k d))
    → Keeps c (current onb c >>= k)
unfolding current ◌>>=◌
current-Keeps c onb k hk w h n = elim (Option-cases (lookup onb w.sessions)) [
  | inl e ↦ rw (e, current) (hk c w h n)
  | inr (d, e) ↦ rw (e, current) (hk d w h (known_lookup w.trace onb w.sessions d h.known e))
]

-- An operation on a ceremony that the machine has.
pub with_context :
    {B : Type 0} (onb : String) (k : Ceremony → Action B) (w : World)
    → Healthy w
    → ((c : Ceremony) → Keeps c (k c))
    → Kept w (((context onb >>= k) w).world)
unfolding context ◌>>=◌
with_context onb k w h hk = elim (Option-cases (lookup onb w.sessions)) [
  | inl e ↦ rw (e, context) (h, λ l s. s)
  | inr (d, e) ↦ rw (e, context) (hk d w h (known_lookup w.trace onb w.sessions d h.known e))
]
