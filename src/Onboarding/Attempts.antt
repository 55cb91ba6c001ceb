-- ===== src/Onboarding/Attempts.antt =====
-- The steps of the login keep the machine healthy.
use enclave_gateway.Base.{ℕ, true, List, String, Option, none, some, ◌≡◌, refl}
use enclave_gateway.Protocol.Utf8.{codes}
use enclave_gateway.Onboarding.Effects.{
  Effect, rotate_recovery, migrate_dc, get_me, finalize_seal, list_sessions, publish_sessions,
  disconnect, Reply, Event, Ceremony, Action, ◌>>=◌, attempt, current,
}
use enclave_gateway.Onboarding.Login.{
  migration_dc, resend, resend_or_throw, login_steps, share_sessions, bind_and_seal, signed_in_as,
}
use enclave_gateway.Onboarding.Contexts.{put-Keeps, forget-Keeps, current-Keeps}
use enclave_gateway.Onboarding.Healthy.{
  Keeps, bind-Keeps, attempt-Keeps, pure-Keeps, throw-Keeps, call-Keeps, send-Keeps,
}
use enclave_gateway.Onboarding.Steps.{now-Keeps}

-- An attempt whose handler looks at the context that the failed steps have left.
pub handled-Keeps :
    {A : Type 0} (c : Ceremony) (onb : String) (m : Action A)
    (handler : Ceremony → String → Action A)
    → Keeps c m
    → ((d : Ceremony) (e : String) → Keeps d (handler d e))
    → Keeps c (attempt m (λ e. current onb c >>= λ d. handler d e))
handled-Keeps c onb m handler hm hk =
    attempt-Keeps c m _ hm λ e. current-Keeps c onb (λ d. handler d e) (λ d. hk d e)

module _ (fx : List Event → Effect → String → Reply) (clock : List Event → ℕ) where
  resend_or_throw-Keeps :
      (c : Ceremony) (onb e : String) (dc : Option ℕ)
      → c.sealed_recovery ≡ true
      → Keeps c (resend_or_throw fx clock onb c e dc)
  unfolding resend
  resend_or_throw-Keeps c onb e none durable = throw-Keeps String c e
  resend_or_throw-Keeps c onb e (some dc) durable =
      bind-Keeps c _ _ (call-Keeps fx c (migrate_dc dc) c.link refl) λ _.
        bind-Keeps c _ _ (call-Keeps fx c rotate_recovery c.link refl)
          λ _. bind-Keeps c _ _ (put-Keeps c _ onb (λ t n. n)) λ _. send-Keeps fx c durable

  pub login_steps-Keeps :
      (c : Ceremony) (onb : String)
      → c.sealed_recovery ≡ true
      → Keeps c (login_steps fx clock onb c)
  unfolding login_steps
  login_steps-Keeps c onb durable =
      bind-Keeps c _ _
        (attempt-Keeps c _ _ (send-Keeps fx c durable)
          λ e. resend_or_throw-Keeps c onb e (migration_dc (codes e)) durable)
        λ hash.
          bind-Keeps c _ _ (now-Keeps fx clock c)
            λ t. current-Keeps c onb _ λ d. put-Keeps d _ onb (λ t n. n)

  share_sessions-Keeps : (c : Ceremony) → Keeps c (share_sessions fx clock c)
  unfolding share_sessions
  share_sessions-Keeps c =
      attempt-Keeps c _ _
        (bind-Keeps c _ _ (call-Keeps fx c list_sessions c.link refl)
          λ _. bind-Keeps c _ _ (call-Keeps fx c publish_sessions c.link refl) λ _. pure-Keeps c tt)
        λ e. pure-Keeps c tt

  pub bind_and_seal-Keeps : (c : Ceremony) (onb : String) → Keeps c (bind_and_seal fx clock onb c)
  unfolding bind_and_seal
  bind_and_seal-Keeps c onb = bind-Keeps c _ _ (put-Keeps c _ onb (λ t n. n)) λ _.
      bind-Keeps c _ _ (call-Keeps fx c get_me c.link refl) λ me.
        bind-Keeps c _ _ (put-Keeps c _ onb (λ t n. n)) λ _.
          bind-Keeps c _ _ (call-Keeps fx c finalize_seal c.link refl) λ digest.
            bind-Keeps c _ _ (put-Keeps c _ onb (λ t n. n)) λ _.
              bind-Keeps c _ _ (share_sessions-Keeps c) λ _.
                bind-Keeps c _ _ (call-Keeps fx c disconnect c.link refl)
                  λ _. bind-Keeps c _ _ (forget-Keeps c onb) λ _. pure-Keeps c (signed_in_as me)
