-- ===== src/Onboarding/Healthy.antt =====
-- The invariant of the onboarding machine, and what keeps it: no login code is asked for before the
-- ceremony's recovery envelope is durable.
use enclave_gateway.Base.{
  Bool-cases, length, All-mono, inl, inr, eqs, Result, ok, raise, eqs_refl, Bool, true, false, List,
  [], ◌∷◌, String, not, ◌&&◌, ◌||◌, All, ◌≡◌, ◌≤◌, ◌<◌, refl, arith,
}
use enclave_gateway.Onboarding.Effects.{
  resume, recover, call, attempt, pure, throw, refuse_if, send_code, seal_recovery, returned,
  failed, refused, outcome, Effect, Reply, Event, Ceremony, World, Action, ◌>>=◌,
}

abbrev pub is_commit : Effect → Reply → Bool
is_commit seal_recovery (returned d) = true
is_commit _ _ = false

abbrev pub is_seal_of : String → Event → Bool
is_seal_of link e = is_commit e.effect e.reply && eqs e.link link

-- A recovery envelope of the link has been committed.
abbrev pub sealed_in : String → List Event → Bool
sealed_in link [] = false
sealed_in link (e ∷ es) = is_seal_of link e || sealed_in link es

abbrev pub is_send : Effect → Bool
is_send send_code = true
is_send _ = false

-- Each login code was asked for after such a commit.
abbrev pub Ordered : List Event → Type 0
Ordered [] = Unit
Ordered (e ∷ es) = ((not (is_send e.effect) || sealed_in e.link es) ≡ true) × Ordered es

-- A ceremony that counts as sealed is, and its guesses are below the caps.
abbrev pub Knows : List Event → Ceremony → Type 0
Knows t c =
    ((not c.sealed_recovery || sealed_in c.link t) ≡ true)
    × (c.code_guesses < 5)
    × (c.srp_guesses < 3)

pub record Healthy (w : World) : Type 0 where
  pub ordered : Ordered w.trace
  pub known : All (λ e. Knows w.trace (e.1)) w.sessions
  pub few : length w.sessions ≤ 50

-- From one world to another, what was sealed stays sealed.
abbrev pub Grows : World → World → Type 0
Grows v w = (l : String) → sealed_in l v.trace ≡ true → sealed_in l w.trace ≡ true

-- An action keeps the machine healthy where the facts on a ceremony hold.
abbrev pub Keeps : {A : Type 0} → Ceremony → Action A → Type 0
Keeps c m =
    (w : World) → Healthy w → Knows w.trace c → Healthy ((m w).world) × Grows w ((m w).world)

Knows-mono :
    (s t : List Event) (c : Ceremony)
    → ((l : String) → sealed_in l s ≡ true → sealed_in l t ≡ true)
    → Knows s c
    → Knows t c
Knows-mono s t c grow (sealed, code, srp) = elim (Bool-cases c.sealed_recovery) [
  | inl h ↦ (ground (arith, grow c.link), code, srp)
  | inr h ↦ (ground arith, code, srp)
]

All-grow :
    (s t : List Event) (sessions : List (String × Ceremony))
    → ((l : String) → sealed_in l s ≡ true → sealed_in l t ≡ true)
    → All (λ e. Knows s (e.1)) sessions
    → All (λ e. Knows t (e.1)) sessions
All-grow s t sessions grow h =
    All-mono (λ e. Knows s (e.1)) (λ e. Knows t (e.1)) (λ e. Knows-mono s t (e.1) grow) sessions h

abbrev pub Kept : World → World → Type 0
Kept v w = Healthy w × Grows v w

Kept-trans : (u v w : World) → Kept u v → Kept v w → Kept u w
Kept-trans u v w (_, g) (h, g') = (h, λ l s. g' l (g l s))

resume-Kept :
    {A B : Type 0} (c : Ceremony) (r : Result String A) (w : World) (k : A → Action B)
    → Healthy w
    → Knows w.trace c
    → ((a : A) → Keeps c (k a))
    → Kept w ((resume r w k).world)
resume-Kept c (ok a) w k h n hk = hk a w h n
resume-Kept c (raise e) w k h n hk = (h, λ l s. s)

recover-Kept :
    {A : Type 0} (c : Ceremony) (r : Result String A) (w : World) (handler : String → Action A)
    → Healthy w
    → Knows w.trace c
    → ((e : String) → Keeps c (handler e))
    → Kept w ((recover r w handler).world)
recover-Kept c (ok a) w handler h n hk = (h, λ l s. s)
recover-Kept c (raise e) w handler h n hk = hk e w h n

pub bind-Keeps :
    {A B : Type 0} (c : Ceremony) (m : Action A) (k : A → Action B)
    → Keeps c m
    → ((a : A) → Keeps c (k a))
    → Keeps c (m >>= k)
unfolding ◌>>=◌
bind-Keeps c m k hm hk w h n =
    let (h1, g1) = hm w h n in
    Kept-trans w ((m w).world) _ (h1, g1)
      (resume-Kept c ((m w).result) ((m w).world) k h1
        (Knows-mono w.trace ((m w).world).trace c g1 n) hk)

pub attempt-Keeps :
    {A : Type 0} (c : Ceremony) (m : Action A) (handler : String → Action A)
    → Keeps c m
    → ((e : String) → Keeps c (handler e))
    → Keeps c (attempt m handler)
unfolding attempt
attempt-Keeps c m handler hm hk w h n =
    let (h1, g1) = hm w h n in
    Kept-trans w ((m w).world) _ (h1, g1)
      (recover-Kept c ((m w).result) ((m w).world) handler h1
        (Knows-mono w.trace ((m w).world).trace c g1 n) hk)

pub pure-Keeps : {A : Type 0} (c : Ceremony) (a : A) → Keeps c (pure a)
unfolding pure
pure-Keeps c a w h n = (h, λ l s. s)

pub throw-Keeps : (A : Type 0) (c : Ceremony) (e : String) → Keeps {A = A} c (throw e)
unfolding throw
throw-Keeps A c e w h n = (h, λ l s. s)

pub refuse-Keeps : (c : Ceremony) (b : Bool) (e : String) → Keeps c (refuse_if b e)
unfolding refuse_if
refuse-Keeps c true e w h n = (h, λ l s. s)
refuse-Keeps c false e w h n = (h, λ l s. s)

-- After a commit the ceremony counts as sealed.
resume_sealed-Kept :
    {B : Type 0} (c : Ceremony) (reply : Reply) (w : World) (k : String → Action B)
    → Healthy w
    → ((d : String) → reply ≡ returned d → Knows w.trace (record c { sealed_recovery = true }))
    → ((d : String) → Keeps (record c { sealed_recovery = true }) (k d))
    → Kept w ((resume (outcome reply) w k).world)
resume_sealed-Kept c (failed e) w k h n hk = (h, λ l s. s)
resume_sealed-Kept c (refused e) w k h n hk = (h, λ l s. s)
resume_sealed-Kept c (returned d) w k h n hk = hk d w h (n d refl)

or-true : (a b : Bool) → b ≡ true → (a || b) ≡ true
or-true a b h = ground arith

module _ (fx : List Event → Effect → String → Reply) where
  call-Kept :
      (w : World) (effect : Effect) (link : String)
      → Healthy w
      → (not (is_send effect) || sealed_in link w.trace) ≡ true
      → Kept w ((call fx effect link w).world)
  unfolding call
  call-Kept w effect link h first =
      let event : Event = record { effect = effect; link = link; reply = fx w.trace effect link } in
      let grow : (l : String) → sealed_in l w.trace ≡ true → sealed_in l (event ∷ w.trace) ≡ true =
        λ l s. or-true (is_seal_of l event) (sealed_in l w.trace) s in
      (
        record {
          ordered = (first, h.ordered);
          known = All-grow w.trace (event ∷ w.trace) w.sessions grow h.known;
          few = h.few;
        },
        grow,
      )

  pub call-Keeps :
      (c : Ceremony) (effect : Effect) (link : String)
      → is_send effect ≡ false
      → Keeps c (call fx effect link)
  call-Keeps c effect link quiet w h n = call-Kept w effect link h (ground arith)

  -- The login code of a ceremony whose envelope is durable.
  pub send-Keeps : (c : Ceremony) → c.sealed_recovery ≡ true → Keeps c (call fx send_code c.link)
  send-Keeps c durable w h n = call-Kept w send_code c.link h (ground (arith, n.0))

  pub seal-Keeps :
      {B : Type 0} (c : Ceremony) (k : String → Action B)
      → ((d : String) → Keeps (record c { sealed_recovery = true }) (k d))
      → Keeps c (call fx seal_recovery c.link >>= k)
  unfolding call ◌>>=◌
  seal-Keeps c k hk w h n =
      let after = (call fx seal_recovery c.link w).world in
      let kept : Kept w after = call-Keeps c seal_recovery c.link refl w h n in
      Kept-trans w after _ kept (
        resume_sealed-Kept c (fx w.trace seal_recovery c.link) after k (kept.0)
          (λ d e. (rw (e, eqs_refl c.link) refl, n.1, n.2)) hk)
