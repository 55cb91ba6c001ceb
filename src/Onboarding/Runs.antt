-- ===== src/Onboarding/Runs.antt =====
-- The operations of the machine, in any order, keep it healthy.
use enclave_gateway.Base.{
  any, length, none, ℕ, Bool, true, false, List, [], ◌∷◌, String, inl, inr, Bool-cases, leb, eqs,
  ◌≡◌, ◌+◌, refl, arith, if◌then◌else◌,
}
use enclave_gateway.Onboarding.Contexts.{
  current-Keeps, known_insert, length-insert, with_context, put-Keeps,
}
use enclave_gateway.Onboarding.Steps.{
  teardown-Keeps, unless-Keeps, authorize_steps-Keeps, bind_candidate-Keeps, check_timeouts-Keeps,
  now-Keeps, tear_and_throw-Keeps,
}
use enclave_gateway.Onboarding.Attempts.{handled-Keeps, login_steps-Keeps, bind_and_seal-Keeps}
use enclave_gateway.Onboarding.Effects.{
  signing_in, check_password, sign_in, pure, call, put, Effect, get_password, Reply, Event,
  Ceremony, World, ◌>>=◌, code_sent,
}
use enclave_gateway.Onboarding.Ceremony.{
  prepared_at, max_concurrent, tear_and_throw, Candidates, Candidate, prepare, authorize, abort,
}
use enclave_gateway.Onboarding.Login.{
  start_login, code_failed, submit_code, proof_failed, submit_srp_proof, max_code_guesses,
  max_srp_guesses, is_code_refusal, need_password, retry_code, retry_password, Answer,
}
use enclave_gateway.Onboarding.Healthy.{
  attempt-Keeps, refuse-Keeps, Kept, Healthy, Keeps, bind-Keeps, pure-Keeps, call-Keeps,
}

-- The machine as it starts.
abbrev pub no_ceremonies : World
no_ceremonies = record { sessions = []; trace = [] }

-- An operation that a client or the gateway asks for.
pub data Operation : Type 0 where
  preparing : String → Candidates → Operation
  authorizing : String → Candidate → Operation
  logging_in submitting_code submitting_proof aborting : String → Operation

module _ (fx : List Event → Effect → String → Reply) (clock : List Event → ℕ) where
  abbrev pub perform : Operation → World → World
  perform (preparing onb a) w = (prepare fx clock onb a w).world
  perform (authorizing onb g) w = (authorize fx clock onb g w).world
  perform (logging_in onb) w = (start_login fx clock onb w).world
  perform (submitting_code onb) w = (submit_code fx clock onb w).world
  perform (submitting_proof onb) w = (submit_srp_proof fx clock onb w).world
  perform (aborting onb) w = (abort fx clock onb w).world

  abbrev pub perform_all : List Operation → World → World
  perform_all [] w = w
  perform_all (o ∷ os) w = perform_all os (perform o w)

  code_guess-Keeps :
      (c : Ceremony) (onb : String) (b : Bool)
      → leb max_code_guesses (c.code_guesses + 1) ≡ b
      → Keeps {A = Answer} c (
          if b
          then tear_and_throw fx clock onb "code attempts exhausted"
          else put onb (record c { code_guesses = c.code_guesses + 1; status = code_sent }) >>= λ _.
              pure retry_code)
  code_guess-Keeps c onb true h = tear_and_throw-Keeps fx clock Answer c onb _
  code_guess-Keeps c onb false h =
      bind-Keeps c _ _ (put-Keeps c _ onb (λ t n. (n.0, ground (arith, h), n.2)))
        λ _. pure-Keeps c retry_code

  code_failed-Keeps : (c : Ceremony) (onb e : String) → Keeps c (code_failed fx clock onb c e)
  unfolding code_failed
  code_failed-Keeps c onb e = elim (Bool-cases (eqs e "SESSION_PASSWORD_NEEDED")) [
    | inl p ↦ rw p (
        bind-Keeps c _ _ (call-Keeps fx c get_password c.link refl) λ _.
          bind-Keeps c _ _ (now-Keeps fx clock c)
            λ t. bind-Keeps c _ _ (put-Keeps c _ onb (λ t n. n)) λ _. pure-Keeps c need_password)
    | inr p ↦ elim (Bool-cases (is_code_refusal e)) [
      | inl q ↦ rw (p, q) (code_guess-Keeps c onb _ refl)
      | inr q ↦ rw (p, q) (tear_and_throw-Keeps fx clock Answer c onb e)
    ]
  ]

  proof_guess-Keeps :
      (c : Ceremony) (onb : String) (b : Bool)
      → leb max_srp_guesses (c.srp_guesses + 1) ≡ b
      → Keeps {A = Answer} c (
          if b
          then tear_and_throw fx clock onb "SRP attempts exhausted"
          else put onb (record c { srp_guesses = c.srp_guesses + 1 }) >>= λ _.
              call fx get_password c.link >>= λ params. pure retry_password)
  proof_guess-Keeps c onb true h = tear_and_throw-Keeps fx clock Answer c onb _
  proof_guess-Keeps c onb false h =
      bind-Keeps c _ _ (put-Keeps c _ onb (λ t n. (n.0, n.1, ground (arith, h)))) λ _.
        bind-Keeps c _ _ (call-Keeps fx c get_password c.link refl) λ _. pure-Keeps c retry_password

  proof_failed-Keeps : (c : Ceremony) (onb e : String) → Keeps c (proof_failed fx clock onb c e)
  unfolding proof_failed
  proof_failed-Keeps c onb e = elim (Bool-cases (eqs e "PASSWORD_HASH_INVALID")) [
    | inl p ↦ rw p (proof_guess-Keeps c onb _ refl)
    | inr p ↦ rw p (tear_and_throw-Keeps fx clock Answer c onb e)
  ]

  -- The four operations on a ceremony that the machine has, and the removal of one.
  authorize-Kept :
      (onb : String) (g : Candidate) (w : World)
      → Healthy w
      → Kept w ((authorize fx clock onb g w).world)
  unfolding authorize
  authorize-Kept onb g w h = with_context onb _ w h λ c. bind-Keeps c _ _ (refuse-Keeps c _ _) λ _.
      bind-Keeps c _ _ (check_timeouts-Keeps fx clock c onb) λ _.
        bind-Keeps c _ _ (bind_candidate-Keeps fx clock c onb g) λ _. current-Keeps c onb _ λ held.
          attempt-Keeps held _ _ (authorize_steps-Keeps fx clock held onb)
            λ e. tear_and_throw-Keeps fx clock (Unit {0}) held onb e

  start_login-Kept :
      (onb : String) (w : World) → Healthy w → Kept w ((start_login fx clock onb w).world)
  unfolding start_login
  start_login-Kept onb w h = with_context onb _ w h λ c. unless-Keeps c _ _ _ λ durable.
      bind-Keeps c _ _ (check_timeouts-Keeps fx clock c onb) λ _.
        attempt-Keeps c _ _ (login_steps-Keeps fx clock c onb (ground (arith, durable)))
          λ e. tear_and_throw-Keeps fx clock (Unit {0}) c onb e

  submit_code-Kept :
      (onb : String) (w : World) → Healthy w → Kept w ((submit_code fx clock onb w).world)
  unfolding submit_code
  submit_code-Kept onb w h = with_context onb _ w h λ c. bind-Keeps c _ _ (refuse-Keeps c _ _) λ _.
      bind-Keeps c _ _ (check_timeouts-Keeps fx clock c onb) λ _.
        bind-Keeps c _ _ (put-Keeps c _ onb (λ t n. n)) λ _.
          handled-Keeps c onb _ (code_failed fx clock onb)
            (bind-Keeps c _ _ (call-Keeps fx c sign_in c.link refl)
              λ _. bind_and_seal-Keeps fx clock (record c { status = signing_in }) onb)
            λ d e. code_failed-Keeps d onb e

  submit_srp_proof-Kept :
      (onb : String) (w : World) → Healthy w → Kept w ((submit_srp_proof fx clock onb w).world)
  unfolding submit_srp_proof
  submit_srp_proof-Kept onb w h = with_context onb _ w h λ c.
      bind-Keeps c _ _ (refuse-Keeps c _ _) λ _.
        bind-Keeps c _ _ (check_timeouts-Keeps fx clock c onb) λ _.
          handled-Keeps c onb _ (proof_failed fx clock onb)
            (bind-Keeps c _ _ (call-Keeps fx c check_password c.link refl)
              λ _. bind_and_seal-Keeps fx clock c onb)
            λ d e. proof_failed-Keeps d onb e

  prepare-Healthy :
      (onb : String) (a : Candidates) (w : World)
      → Healthy w
      → Healthy ((prepare fx clock onb a w).world)
  unfolding prepare
  prepare-Healthy onb a w h = elim (Bool-cases (leb max_concurrent (length w.sessions))) [
    | inl p ↦ rw p h
    | inr p ↦ elim (Bool-cases (any (λ e. eqs (e.1).phone a.phone) w.sessions)) [
      | inl q ↦ rw (p, q) h
      | inr q ↦
          let c = prepared_at (clock w.trace) a in
          rw (p, q)
            (record {
              ordered = h.ordered;
              known =
                  known_insert w.trace onb c w.sessions (refl, omega arith, omega arith) h.known;
              few = ground (arith, p, length-insert onb c w.sessions);
            })
    ]
  ]

  -- A removal needs no facts on a ceremony: a fresh one has them.
  abort-Healthy : (onb : String) (w : World) → Healthy w → Healthy ((abort fx clock onb w).world)
  unfolding abort
  abort-Healthy onb w h =
      let fresh = prepared_at 0 (record {
        link = onb;
        phone = onb;
        nonce = none;
        pcr0_g = none;
        channel_key_hash = none;
      }) in
      (teardown-Keeps fx clock fresh onb w h (refl, omega arith, omega arith)).0

  perform-Healthy : (o : Operation) (w : World) → Healthy w → Healthy (perform o w)
  perform-Healthy (preparing onb a) w h = prepare-Healthy onb a w h
  perform-Healthy (authorizing onb g) w h = (authorize-Kept onb g w h).0
  perform-Healthy (logging_in onb) w h = (start_login-Kept onb w h).0
  perform-Healthy (submitting_code onb) w h = (submit_code-Kept onb w h).0
  perform-Healthy (submitting_proof onb) w h = (submit_srp_proof-Kept onb w h).0
  perform-Healthy (aborting onb) w h = abort-Healthy onb w h

  -- From a healthy world.
  perform_all_from-Healthy :
      (os : List Operation) (w : World) → Healthy w → Healthy (perform_all os w)
  perform_all_from-Healthy [] w h = h
  perform_all_from-Healthy (o ∷ os) w h =
      perform_all_from-Healthy os (perform o w) (perform-Healthy o w h)

  -- Whatever operations run from no ceremonies, and whatever the effects answer and the clock says:
  -- each login code was asked for after a recovery envelope of that link was committed, a ceremony
  -- that counts as sealed is, it has fewer than 5 wrong codes and 3 wrong passwords, and there are
  -- 50 ceremonies at most.
  pub perform_all-Healthy : (os : List Operation) → Healthy (perform_all os no_ceremonies)
  perform_all-Healthy os =
      perform_all_from-Healthy os no_ceremonies
        (record { ordered = tt; known = tt; few = omega arith })
