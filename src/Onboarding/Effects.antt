-- ===== src/Onboarding/Effects.antt =====
-- onboarding.mjs, the state of `OnboardingManager` and its injected effects. A run of an effect is
-- an event of a trace, the latest first; what an effect answers, and the clock, are functions of
-- the trace so far. Operations run one after the other, a teardown to its end, and the effects that
-- the code takes as optional are there.
use enclave_gateway.Base.{
  ℕ, Bool, true, false, List, [], ◌∷◌, String, eqs, Result, ok, raise, Option, none, some, lookup,
  remove, if◌then◌else◌,
}
use Prim.Native.String.{◌++◌ as concat}

pub data Effect : Type 0 where
  verify_grant rate_check create_link connect seal_recovery send_code rotate_recovery : Effect
  sign_in get_password check_password get_me finalize_seal list_sessions : Effect
  publish_sessions disconnect log_out mark_terminal delete_link : Effect
  migrate_dc : ℕ → Effect

-- An error with its message, a grant that is refused with its reason, or a value: the digest, the
-- hash or the id that the code keeps of it.
pub data Reply : Type 0 where
  failed refused returned : String → Reply

pub record Event : Type 0 where
  pub effect : Effect
  pub link : String
  pub reply : Reply

pub data Status : Type 0 where
  prepared connecting recovery_seal code_sent signing_in await_srp_proof binding sealing done :
      Status

-- The context of a ceremony.
pub record Ceremony : Type 0 where
  pub link : String
  pub phone : String
  pub nonce : Option String
  pub pcr0_g : Option String
  pub channel_key_hash : Option String
  pub status : Status
  pub started_at : ℕ
  pub step_at : ℕ
  pub code_guesses : ℕ
  pub srp_guesses : ℕ
  pub recovery_gen : ℕ
  pub recovery_digest : Option String
  pub grant_digest : Option String
  pub phone_code_hash : Option String
  pub tg_user_id : Option String
  pub sealed_recovery : Bool
  pub signed_in : Bool
  pub nonce_consumed : Bool

pub record World : Type 0 where
  pub sessions : List (String × Ceremony)
  pub trace : List Event

pub record Done (A : Type 0) : Type 0 where
  pub result : Result String A
  pub world : World

-- An action on the world that may throw an error, told by its message.
abbrev pub Action : Type 0 → Type 0
Action A = World → Done A

abbrev pub resume : {A B : Type 0} → Result String A → World → (A → Action B) → Done B
resume (ok a) w k = k a w
resume (raise e) w k = record { result = raise e; world = w }

infixl 5 ◌>>=◌ ◌>>◌
unfoldable pub ◌>>=◌ : {A B : Type 0} → Action A → (A → Action B) → Action B
(m >>= k) w = resume ((m w).result) ((m w).world) k

abbrev pub ◌>>◌ : {B : Type 0} → Action (Unit {0}) → Action B → Action B
m >> n = m >>= λ _. n

unfoldable pub pure : {A : Type 0} → A → Action A
pure a w = record { result = ok a; world = w }

unfoldable pub throw : {A : Type 0} → String → Action A
throw e w = record { result = raise e; world = w }

abbrev pub recover : {A : Type 0} → Result String A → World → (String → Action A) → Done A
recover (ok a) w handler = record { result = ok a; world = w }
recover (raise e) w handler = handler e w

-- `try { … } catch (e) { … }`
unfoldable pub attempt : {A : Type 0} → Action A → (String → Action A) → Action A
attempt m handler w = recover ((m w).result) ((m w).world) handler

unfoldable pub refuse_if : Bool → String → Action (Unit {0})
refuse_if true e w = record { result = raise e; world = w }
refuse_if false e w = record { result = ok tt; world = w }

abbrev pub outcome : Reply → Result String String
outcome (failed e) = raise e
outcome (refused reason) = raise (concat "grant rejected: " reason)
outcome (returned v) = ok v

unfoldable pub replace : String → Ceremony → List (String × Ceremony) → List (String × Ceremony)
replace onb c [] = []
replace onb c ((k, d) ∷ rest) = if eqs k onb then (k, c) ∷ rest else (k, d) ∷ replace onb c rest

-- `this._ctx(onb)`
unfoldable pub context : String → Action Ceremony
context onb w = elim (lookup onb w.sessions) [
  | none ↦ record { result = raise "unknown onb handle"; world = w }
  | some c ↦ record { result = ok c; world = w }
]

-- The fields of the context as they are now, wherever it is.
unfoldable pub current : String → Ceremony → Action Ceremony
current onb c w = elim (lookup onb w.sessions) [
  | none ↦ record { result = ok c; world = w }
  | some d ↦ record { result = ok d; world = w }
]

-- Assignments to fields of the context.
unfoldable pub put : String → Ceremony → Action (Unit {0})
unfolding replace
put onb c w = record { result = ok tt; world = record w { sessions = replace onb c w.sessions } }

unfoldable pub forget : String → Action (Unit {0})
forget onb w = record { result = ok tt; world = record w { sessions = remove onb w.sessions } }

unfoldable pub call : (List Event → Effect → String → Reply) → Effect → String → Action String
call fx effect link w =
    let reply = fx w.trace effect link in
    record {
      result = outcome reply;
      world = record w { trace = record { effect = effect; link = link; reply = reply } ∷ w.trace };
    }

abbrev pub now : (List Event → ℕ) → Action ℕ
now clock w = record { result = ok (clock w.trace); world = w }
