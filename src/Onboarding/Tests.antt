-- ===== src/Onboarding/Tests.antt =====
-- Runs of the onboarding machine.
use enclave_gateway.Onboarding.Effects.{
  migrate_dc, rotate_recovery, ◌>>=◌, context, refuse_if, pure, put, current, attempt, call, forget,
  replace, throw, Effect, verify_grant, rate_check, create_link, connect, seal_recovery, send_code,
  sign_in, get_me, log_out, finalize_seal, list_sessions, publish_sessions, disconnect,
  mark_terminal, delete_link, Reply, returned, failed, Event,
}
use enclave_gateway.Onboarding.Ceremony.{
  authorize, prepare, check_timeouts, bind_candidate, candidate_differs, authorize_steps, clean_up,
  teardown, Candidates, Candidate,
}
use enclave_gateway.Onboarding.Login.{
  start_login, submit_code, strip_prefix, digits_value, migration_dc, resend, login_steps,
  share_sessions, bind_and_seal, code_failed,
}
use enclave_gateway.Base.{
  lookup, insert, remove, String-discrete, ℕ, List, [], ◌∷◌, String, some, map, ◌≡◌, refl,
}
use enclave_gateway.Onboarding.Healthy.{Healthy}
use enclave_gateway.Onboarding.Runs.{
  Operation, preparing, authorizing, logging_in, submitting_code, no_ceremonies, perform_all,
  perform_all-Healthy,
}

abbrev offered : Candidates
offered = record {
  link = "L";
  phone = "+1555";
  nonce = some "N";
  pcr0_g = some "P";
  channel_key_hash = some "K";
}

abbrev signed : Candidate
signed = record {
  link_id = "L";
  normalized_phone = "+1555";
  gateway_nonce = "N";
  pcr0_g = "P";
  channel_key_hash = "K";
}

-- Effects that all work.
abbrev calm : List Event → Effect → String → Reply
calm trace effect link = returned "7"

-- Effects of which one fails.
abbrev no_profile : List Event → Effect → String → Reply
no_profile trace get_me link = failed "TIMEOUT"
no_profile trace effect link = returned "7"

abbrev no_farewell : List Event → Effect → String → Reply
no_farewell trace disconnect link = failed "gone"
no_farewell trace effect link = returned "7"

-- The account lives in another data center.
abbrev sent_after : Effect → Reply
sent_after rotate_recovery = returned "H"
sent_after _ = failed "PHONE_MIGRATE_2"

abbrev elsewhere : List Event → Effect → String → Reply
elsewhere [] send_code link = failed "never"
elsewhere (e ∷ es) send_code link = sent_after e.effect
elsewhere trace effect link = returned "7"

abbrev still : List Event → ℕ
still trace = 0

abbrev login : List Operation
login = preparing "O" offered ∷ authorizing "O" signed ∷ logging_in "O" ∷ submitting_code "O" ∷ []

abbrev effects_after : (List Event → Effect → String → Reply) → List Operation → List Effect
effects_after fx os = map (λ e. e.effect) (perform_all fx still os no_ceremonies).trace

-- The effects from a grant to a code sent, the latest first.
abbrev until_code : List Effect
until_code = send_code ∷ seal_recovery ∷ connect ∷ create_link ∷ rate_check ∷ verify_grant ∷ []

abbrev until_sealed : List Effect
until_sealed = finalize_seal ∷ get_me ∷ sign_in ∷ until_code

-- In turn: a whole login; a sign-in that worked before the profile failed, which nothing logs out;
-- a sealed login that is removed where only its disconnection failed; an account in another data
-- center, whose code is sent again.
runs :
    (effects_after calm login ≡ disconnect ∷ publish_sessions ∷ list_sessions ∷ until_sealed)
    × (effects_after no_profile login
        ≡ delete_link ∷ mark_terminal ∷ disconnect ∷ get_me ∷ sign_in ∷ until_code)
    × (effects_after no_farewell login
        ≡ delete_link ∷ mark_terminal ∷ log_out ∷ disconnect ∷ publish_sessions ∷ list_sessions
          ∷ until_sealed)
    × (effects_after elsewhere
          (preparing "O" offered ∷ authorizing "O" signed ∷ logging_in "O" ∷ [])
        ≡ send_code ∷ rotate_recovery ∷ migrate_dc 2 ∷ until_code)
unfolding start_login submit_code ◌>>=◌ context lookup authorize prepare insert refuse_if
    check_timeouts pure bind_candidate candidate_differs put current attempt authorize_steps call
    remove clean_up teardown forget replace throw strip_prefix digits_value migration_dc resend
    login_steps share_sessions bind_and_seal code_failed String-discrete
runs = (refl, refl, refl, refl)

perform_all-Healthy_example : Healthy (perform_all elsewhere still login no_ceremonies)
perform_all-Healthy_example = perform_all-Healthy elsewhere still login
