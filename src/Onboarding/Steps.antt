-- ===== src/Onboarding/Steps.antt =====
-- The parts of the machine's operations keep it healthy.
use enclave_gateway.Base.{
  ltb, ◌-◌, some, Option-cases, lookup, inl, inr, ℕ, Bool, true, false, List, String, if◌then◌else◌,
  ◌≡◌, refl, ◌&&◌,
}
use enclave_gateway.Onboarding.Ceremony.{
  per_step_ms, waits_for_user, total_ms, Candidate, teardown, tear_and_throw, check_timeouts,
  bind_candidate, authorize_steps, clean_up,
}
use enclave_gateway.Onboarding.Effects.{
  refuse_if, ◌>>=◌, recovery_seal, pure, verify_grant, rate_check, create_link, connect, log_out,
  disconnect, mark_terminal, delete_link, now, forget, Action, Effect, Reply, Event, Ceremony,
}
use enclave_gateway.Onboarding.Contexts.{put-Keeps, forget-Keeps}
use enclave_gateway.Onboarding.Healthy.{
  is_send, Keeps, bind-Keeps, attempt-Keeps, pure-Keeps, throw-Keeps, refuse-Keeps, call-Keeps,
  seal-Keeps,
}

-- What follows a check is only run where it passes.
pub unless-Keeps :
    {B : Type 0} (c : Ceremony) (b : Bool) (e : String) (k : Unit {0} → Action B)
    → (b ≡ false → Keeps c (k tt))
    → Keeps c (refuse_if b e >>= k)
unfolding refuse_if ◌>>=◌
unless-Keeps c true e k hk w h n = (h, λ l s. s)
unless-Keeps c false e k hk w h n = hk refl w h n

quiet_first : (b : Bool) → is_send (if b then log_out else disconnect) ≡ false
quiet_first true = refl
quiet_first false = refl

module _ (fx : List Event → Effect → String → Reply) (clock : List Event → ℕ) where
  pub now-Keeps : (c : Ceremony) → Keeps c (now clock)
  now-Keeps c w h n = (h, λ l s. s)

  clean_up-Keeps : (c d : Ceremony) → Keeps c (clean_up fx clock d)
  unfolding clean_up
  clean_up-Keeps c d =
      bind-Keeps c _ _ (call-Keeps fx c _ d.link (quiet_first (d.sealed_recovery && d.signed_in)))
        λ _.
          bind-Keeps c _ _ (call-Keeps fx c mark_terminal d.link refl)
            λ _. bind-Keeps c _ _ (call-Keeps fx c delete_link d.link refl) λ _. pure-Keeps c tt

  pub teardown-Keeps : (c : Ceremony) (onb : String) → Keeps c (teardown fx clock onb)
  unfolding teardown
  teardown-Keeps c onb w h n = elim (Option-cases (lookup onb w.sessions)) [
    | inl e ↦ rw (e, teardown) (h, λ l s. s)
    | inr (d, e) ↦
        rw (e, teardown)
          (bind-Keeps c (forget onb) _ (forget-Keeps c onb)
            (λ _. attempt-Keeps c _ _ (clean_up-Keeps c d) (λ e. pure-Keeps c tt)) w h n)
  ]

  pub tear_and_throw-Keeps :
      (A : Type 0) (c : Ceremony) (onb e : String) → Keeps {A = A} c (tear_and_throw fx clock onb e)
  tear_and_throw-Keeps A c onb e = bind-Keeps c _ _ (teardown-Keeps c onb) λ _. throw-Keeps A c e

  step_check-Keeps :
      (c : Ceremony) (onb : String) (b : Bool)
      → Keeps c (if b then tear_and_throw fx clock onb "step expired" else pure tt)
  step_check-Keeps c onb true = tear_and_throw-Keeps (Unit {0}) c onb "step expired"
  step_check-Keeps c onb false = pure-Keeps c tt

  time_check-Keeps :
      (c : Ceremony) (onb : String) (total step : Bool)
      → Keeps c (
          if total
          then tear_and_throw fx clock onb "ceremony expired"
          else if step
          then tear_and_throw fx clock onb "step expired"
          else pure tt)
  time_check-Keeps c onb true step = tear_and_throw-Keeps (Unit {0}) c onb "ceremony expired"
  time_check-Keeps c onb false step = step_check-Keeps c onb step

  pub check_timeouts-Keeps : (c : Ceremony) (onb : String) → Keeps c (check_timeouts fx clock onb c)
  unfolding check_timeouts
  check_timeouts-Keeps c onb = bind-Keeps c _ _ (now-Keeps c) λ t.
      time_check-Keeps c onb (ltb total_ms (t - c.started_at))
        (waits_for_user c.status && ltb per_step_ms (t - c.step_at))

  pub bind_candidate-Keeps :
      (c : Ceremony) (onb : String) (g : Candidate) → Keeps c (bind_candidate onb c g)
  unfolding bind_candidate
  bind_candidate-Keeps c onb g =
      bind-Keeps c _ _ (refuse-Keeps c _ _)
        λ _. bind-Keeps c _ _ (refuse-Keeps c _ _) λ _. put-Keeps c _ onb (λ t n. n)

  pub authorize_steps-Keeps :
      (c : Ceremony) (onb : String) → Keeps c (authorize_steps fx clock onb c)
  unfolding authorize_steps
  authorize_steps-Keeps c onb =
      bind-Keeps c _ _ (call-Keeps fx c verify_grant c.link refl) λ digest.
        bind-Keeps c _ _ (call-Keeps fx c rate_check c.link refl) λ _.
          bind-Keeps c _ _ (call-Keeps fx c create_link c.link refl) λ _.
            bind-Keeps c _ _ (put-Keeps c _ onb (λ t n. n)) λ _.
              bind-Keeps c _ _ (call-Keeps fx c connect c.link refl) λ _.
                bind-Keeps c _ _ (put-Keeps c _ onb (λ t n. n)) λ _. seal-Keeps fx c _ λ sealed.
                  put-Keeps (record c { sealed_recovery = true })
                    (record c {
                      grant_digest = some digest;
                      status = recovery_seal;
                      recovery_gen = 1;
                      recovery_digest = some sealed;
                      sealed_recovery = true;
                    })
                    onb (λ t n. n)
