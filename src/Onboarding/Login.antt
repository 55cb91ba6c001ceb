-- ===== src/Onboarding/Login.antt =====
-- onboarding.mjs, `startLogin`, `submitCode`, `submitSrpProof` and `_bindAndSeal`.
use enclave_gateway.Base.{
  ℕ, Bool, true, List, [], ◌∷◌, String, eqs, not, Option, none, some, if◌then◌else◌, leb, ◌==◌, ◌+◌,
  ◌-◌, ◌*◌, ◌&&◌, ◌||◌,
}
use enclave_gateway.Protocol.Utf8.{codes}
use enclave_gateway.Onboarding.Effects.{
  Effect, rotate_recovery, migrate_dc, send_code, sign_in, get_password, check_password, get_me,
  finalize_seal, list_sessions, publish_sessions, disconnect, Reply, Event, Status, code_sent,
  signing_in, await_srp_proof, binding, sealing, Ceremony, Action, ◌>>=◌, ◌>>◌, pure, throw,
  attempt, refuse_if, context, current, put, forget, call, now,
}
use enclave_gateway.Onboarding.Ceremony.{same_status, check_timeouts, tear_and_throw}

abbrev pub max_code_guesses : ℕ
max_code_guesses = 5

abbrev pub max_srp_guesses : ℕ
max_srp_guesses = 3

-- What a step of the login answers.
pub data Answer : Type 0 where
  need_password retry_code retry_password : Answer
  signed_in_as : String → Answer

unfoldable pub strip_prefix : List ℕ → List ℕ → Option (List ℕ)
strip_prefix [] s = some s
strip_prefix (p ∷ ps) [] = none
strip_prefix (p ∷ ps) (c ∷ s) = if p == c then strip_prefix ps s else none

unfoldable pub digits_value : ℕ → List ℕ → Option ℕ
digits_value acc [] = some acc
digits_value acc (c ∷ s) =
    let rest = digits_value (acc * 10 + (c - 48)) s in if leb 48 c && leb c 57 then rest else none

abbrev pub in_range : Option ℕ → Option ℕ
in_range none = none
in_range (some n) = if leb 1 n && leb n 5 then some n else none

abbrev pub numbered : Option (List ℕ) → Option ℕ
numbered (some (c ∷ s)) = in_range (digits_value 0 (c ∷ s))
numbered _ = none

abbrev pub first_some : Option ℕ → Option ℕ → Option ℕ
first_some none b = b
first_some (some a) b = some a

-- The data center, 1 to 5, of `/^(?:PHONE|NETWORK|USER)_MIGRATE_(\d+)$/`
unfoldable pub migration_dc : List ℕ → Option ℕ
unfolding strip_prefix digits_value
migration_dc message = first_some (numbered (strip_prefix (codes "PHONE_MIGRATE_") message)) (
    first_some (numbered (strip_prefix (codes "NETWORK_MIGRATE_") message))
      (numbered (strip_prefix (codes "USER_MIGRATE_") message)))

abbrev pub is_code_refusal : String → Bool
is_code_refusal e = eqs e "PHONE_CODE_INVALID" || eqs e "PHONE_CODE_EXPIRED"

module _ (fx : List Event → Effect → String → Reply) (clock : List Event → ℕ) where
  -- `migrateOnboardingDc` and `rotateRecovery`, before the second `sendCode`.
  unfoldable pub resend : String → Ceremony → ℕ → Action String
  resend onb c dc = do
    moved ← call fx (migrate_dc dc) c.link
    rotated ← call fx rotate_recovery c.link
    put onb (record c { recovery_gen = c.recovery_gen + 1; recovery_digest = some rotated })
    call fx send_code c.link

  abbrev pub resend_or_throw : String → Ceremony → String → Option ℕ → Action String
  resend_or_throw onb c e none = throw e
  resend_or_throw onb c e (some dc) = resend onb c dc

  unfoldable pub login_steps : String → Ceremony → Action (Unit {0})
  unfolding migration_dc
  login_steps onb c = do
    hash ←
        attempt (call fx send_code c.link) (λ e. resend_or_throw onb c e (migration_dc (codes e)))
    t ← now clock
    d ← current onb c
    put onb (record d { phone_code_hash = some hash; status = code_sent; step_at = t })

  unfoldable pub start_login : String → Action (Unit {0})
  start_login onb = do
    c ← context onb
    refuse_if (not c.sealed_recovery)
        "refusing auth.sendCode before the recovery envelope is durable"
    check_timeouts fx clock onb c
    attempt (login_steps onb c) (λ e. tear_and_throw fx clock onb e)

  -- The roster for the keep step, whose failures are passed over; an answer of null is a failure.
  unfoldable pub share_sessions : Ceremony → Action (Unit {0})
  share_sessions c =
      attempt
        (call fx list_sessions c.link >>= λ s. call fx publish_sessions c.link >>= λ p. pure tt)
        (λ e. pure tt)

  unfoldable pub bind_and_seal : String → Ceremony → Action Answer
  bind_and_seal onb c = do
    put onb (record c { status = binding })
    me ← call fx get_me c.link
    put onb (record c { tg_user_id = some me; signed_in = true; status = sealing })
    digest ← call fx finalize_seal c.link
    put onb (record c {
      tg_user_id = some me;
      signed_in = true;
      status = Status.done;
      recovery_gen = c.recovery_gen + 1;
      recovery_digest = some digest;
    })
    share_sessions c
    gone ← call fx disconnect c.link
    forget onb
    pure (signed_in_as me)

  -- The handlers look at the context as the failed steps have left it.
  unfoldable pub code_failed : String → Ceremony → String → Action Answer
  code_failed onb c e =
      if eqs e "SESSION_PASSWORD_NEEDED"
      then (call fx get_password c.link >>= λ params. now clock >>= λ t.
          put onb (record c { status = await_srp_proof; step_at = t }) >>= λ _. pure need_password)
      else if is_code_refusal e
      then (if leb max_code_guesses (c.code_guesses + 1)
          then tear_and_throw fx clock onb "code attempts exhausted"
          else put onb (record c { code_guesses = c.code_guesses + 1; status = code_sent }) >>= λ _.
              pure retry_code)
      else tear_and_throw fx clock onb e

  unfoldable pub submit_code : String → Action Answer
  submit_code onb = do
    c ← context onb
    refuse_if (not (same_status c.status code_sent || same_status c.status signing_in))
        "submitCode out of order"
    check_timeouts fx clock onb c
    put onb (record c { status = signing_in })
    attempt
        (call fx sign_in c.link >>= λ signed. bind_and_seal onb (record c { status = signing_in }))
        (λ e. current onb c >>= λ d. code_failed onb d e)

  unfoldable pub proof_failed : String → Ceremony → String → Action Answer
  proof_failed onb c e =
      if eqs e "PASSWORD_HASH_INVALID"
      then (if leb max_srp_guesses (c.srp_guesses + 1)
          then tear_and_throw fx clock onb "SRP attempts exhausted"
          else put onb (record c { srp_guesses = c.srp_guesses + 1 }) >>= λ _.
              call fx get_password c.link >>= λ params. pure retry_password)
      else tear_and_throw fx clock onb e

  unfoldable pub submit_srp_proof : String → Action Answer
  submit_srp_proof onb = do
    c ← context onb
    refuse_if (not (same_status c.status await_srp_proof)) "submitSrpProof out of order"
    check_timeouts fx clock onb c
    attempt (call fx check_password c.link >>= λ checked. bind_and_seal onb c)
        (λ e. current onb c >>= λ d. proof_failed onb d e)
