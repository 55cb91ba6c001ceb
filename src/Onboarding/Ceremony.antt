-- ===== src/Onboarding/Ceremony.antt =====
-- onboarding.mjs, `prepare`, `_bindCandidate`, `_checkTimeouts`, `_teardown`, `authorize` and `abort`.
use enclave_gateway.Base.{
  ℕ, Bool, true, false, List, String, eqs, not, ok, raise, Option, none, some, lookup, insert,
  if◌then◌else◌, ltb, leb, any, length, ◌-◌, ◌*◌, ◌&&◌, ◌||◌,
}
use enclave_gateway.Onboarding.Effects.{
  Effect, verify_grant, rate_check, create_link, connect, seal_recovery, disconnect, log_out,
  mark_terminal, delete_link, Reply, Event, Status, prepared, connecting, recovery_seal, code_sent,
  signing_in, await_srp_proof, binding, sealing, Ceremony, Action, ◌>>=◌, ◌>>◌, pure, throw,
  attempt, refuse_if, context, current, put, forget, call, now,
}

abbrev pub per_step_ms : ℕ
per_step_ms = 10 * 60 * 1000

abbrev pub total_ms : ℕ
total_ms = 15 * 60 * 1000

abbrev pub max_concurrent : ℕ
max_concurrent = 50

-- What `prepare` is given, of what the machine looks at.
pub record Candidates : Type 0 where
  pub link : String
  pub phone : String
  pub nonce : Option String
  pub pcr0_g : Option String
  pub channel_key_hash : Option String

abbrev pub prepared_at : ℕ → Candidates → Ceremony
prepared_at t a = record {
  link = a.link;
  phone = a.phone;
  nonce = a.nonce;
  pcr0_g = a.pcr0_g;
  channel_key_hash = a.channel_key_hash;
  status = prepared;
  started_at = t;
  step_at = t;
  code_guesses = 0;
  srp_guesses = 0;
  recovery_gen = 0;
  recovery_digest = none;
  grant_digest = none;
  phone_code_hash = none;
  tg_user_id = none;
  sealed_recovery = false;
  signed_in = false;
  nonce_consumed = false;
}

-- The fields of the signed candidate, through `String(…)`.
pub record Candidate : Type 0 where
  pub link_id : String
  pub normalized_phone : String
  pub gateway_nonce : String
  pub pcr0_g : String
  pub channel_key_hash : String

abbrev pub same_status : Status → Status → Bool
same_status prepared prepared = true
same_status connecting connecting = true
same_status recovery_seal recovery_seal = true
same_status code_sent code_sent = true
same_status signing_in signing_in = true
same_status await_srp_proof await_srp_proof = true
same_status binding binding = true
same_status sealing sealing = true
same_status Status.done Status.done = true
same_status _ _ = false

abbrev pub waits_for_user : Status → Bool
waits_for_user s = same_status s code_sent || same_status s await_srp_proof

-- `held === undefined || held === null || String(held) !== String(got)`
abbrev pub differs : Option String → String → Bool
differs none got = true
differs (some held) got = not (eqs held got)

-- The first field that differs, in the order of the code.
unfoldable pub candidate_differs : Ceremony → Candidate → Bool
candidate_differs c g =
    not (eqs c.link g.link_id)
    || (not (eqs c.phone g.normalized_phone)
        || (differs c.nonce g.gateway_nonce
            || (differs c.pcr0_g g.pcr0_g || differs c.channel_key_hash g.channel_key_hash)))

unfoldable pub bind_candidate : String → Ceremony → Candidate → Action (Unit {0})
unfolding candidate_differs
bind_candidate onb c g = do
  refuse_if (candidate_differs c g) "grant candidate does not match the gateway-held ceremony value"
  refuse_if c.nonce_consumed "grant nonce already consumed"
  put onb (record c { nonce_consumed = true })

module _ (fx : List Event → Effect → String → Reply) (clock : List Event → ℕ) where
  unfoldable pub prepare : String → Candidates → Action (Unit {0})
  prepare onb a w =
      let t = clock w.trace in
      if leb max_concurrent (length w.sessions)
      then record { result = raise "too many concurrent ceremonies"; world = w }
      else if any (λ e. eqs (e.1).phone a.phone) w.sessions
      then record { result = raise "a ceremony is already in flight for this phone"; world = w }
      else record {
        result = ok tt;
        world = record w { sessions = insert onb (prepared_at t a) w.sessions };
      }

  -- The effects of the three cases of the cleanup.
  unfoldable pub clean_up : Ceremony → Action (Unit {0})
  clean_up c = do
    first ← call fx (if c.sealed_recovery && c.signed_in then log_out else disconnect) c.link
    terminal ← call fx mark_terminal c.link
    deleted ← call fx delete_link c.link
    pure tt

  unfoldable pub teardown : String → Action (Unit {0})
  teardown onb w = elim (lookup onb w.sessions) [
    | none ↦ record { result = ok tt; world = w }
    | some c ↦ (forget onb >> attempt (clean_up c) (λ e. pure tt)) w
  ]

  abbrev pub tear_and_throw : {A : Type 0} → String → String → Action A
  tear_and_throw onb e = teardown onb >>= λ _. throw e

  unfoldable pub check_timeouts : String → Ceremony → Action (Unit {0})
  check_timeouts onb c = now clock >>= λ t.
      if ltb total_ms (t - c.started_at)
      then tear_and_throw onb "ceremony expired"
      else if waits_for_user c.status && ltb per_step_ms (t - c.step_at)
      then tear_and_throw onb "step expired"
      else pure tt

  -- The guarded part of `authorize`, from the grant to the recovery envelope.
  unfoldable pub authorize_steps : String → Ceremony → Action (Unit {0})
  authorize_steps onb c = do
    digest ← call fx verify_grant c.link
    rated ← call fx rate_check c.link
    created ← call fx create_link c.link
    put onb (record c { grant_digest = some digest; status = connecting })
    connected ← call fx connect c.link
    put onb (record c { grant_digest = some digest; status = recovery_seal })
    sealed ← call fx seal_recovery c.link
    put onb (record c {
      grant_digest = some digest;
      status = recovery_seal;
      recovery_gen = 1;
      recovery_digest = some sealed;
      sealed_recovery = true;
    })

  unfoldable pub authorize : String → Candidate → Action (Unit {0})
  authorize onb g = do
    c ← context onb
    refuse_if (not (same_status c.status prepared)) "authorize out of order"
    check_timeouts onb c
    bind_candidate onb c g
    held ← current onb c
    attempt (authorize_steps onb held) (λ e. tear_and_throw onb e)

  unfoldable pub abort : String → Action (Unit {0})
  abort onb = teardown onb
