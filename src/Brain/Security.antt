-- ===== src/Brain/Security.antt =====
-- brain.mjs, `Brain.checkSecurity`: the reset protection, and the events on the account's security.
use enclave_gateway.Base.{
  ◌/◌, ◌*◌, ◌-◌, ◌+◌, ◌&&◌, ◌++◌, ◌==◌, false, true, ◌∷◌, [], some, none, List, Option, String,
  Bool, ℕ, not, eqs, eqb?, if◌then◌else◌,
}

-- `cur`, the snapshot of a read
pub record Security : Type 0 where
  pub has_pwd : Bool
  pub has_recovery : Bool
  pub pending_reset : Bool
  pub pending_reset_at : Option ℕ
  pub login_email : Option String
  pub account_ttl_days : Option ℕ
  pub session_ttl_days : Option ℕ

-- An event with its detail; a request of a reset has the number of days, if they are known.
pub data Event : Type 0 where
  reset_blocked reset_cancelled : Event
  reset_requested : Option ℕ → Event
  twofa_enabled twofa_disabled recovery_set : Event
  login_email_set : String → Event
  account_ttl_changed session_ttl_changed : ℕ → Event

-- `if (test) events.push(e)`
abbrev pub event_if : Bool → Event → List Event
event_if true e = e ∷ []
event_if false e = []

-- `Math.max(0, Math.round((at * 1000 - now) / 86400000))`, of a time that is not zero
unfoldable pub days_left : Option ℕ → ℕ → Option ℕ
days_left none now = none
days_left (some at) now = if at == 0 then none else some ((at * 1000 - now + 43200000) / 86400000)

-- The chain of tests on the reset, against the snapshot before.
unfoldable pub reset_events : Bool → ℕ → Security → Security → List Event
reset_events declined now prev cur =
    if cur.pending_reset && not prev.pending_reset
    then (if declined
        then reset_blocked ∷ []
        else reset_requested (days_left cur.pending_reset_at now) ∷ [])
    else if not cur.pending_reset && prev.pending_reset
    then reset_cancelled ∷ []
    else event_if declined reset_blocked

-- A new address that is not empty.
unfoldable pub email_events : Option String → Option String → List Event
email_events prev none = []
email_events prev (some email) =
    event_if (not (eqs email "") && not (eqb? (some email) prev)) (login_email_set email)

-- Two periods, neither of them zero, that differ.
unfoldable pub ttl_events : (ℕ → Event) → Option ℕ → Option ℕ → List Event
ttl_events changed (some before) (some after) =
    event_if (not (after == 0) && not (before == 0) && not (after == before)) (changed after)
ttl_events changed _ _ = []

unfoldable pub changes : Bool → ℕ → Security → Security → List Event
changes declined now prev cur =
    reset_events declined now prev cur
    ++ event_if (cur.has_pwd && not prev.has_pwd) twofa_enabled
    ++ event_if (not cur.has_pwd && prev.has_pwd) twofa_disabled
    ++ event_if (cur.has_recovery && not prev.has_recovery) recovery_set
    ++ email_events prev.login_email cur.login_email
    ++ ttl_events account_ttl_changed prev.account_ttl_days cur.account_ttl_days
    ++ ttl_events session_ttl_changed prev.session_ttl_days cur.session_ttl_days

-- The first read only seeds the snapshot.
unfoldable pub security_events : Bool → ℕ → Option Security → Security → List Event
security_events declined now none cur = event_if declined reset_blocked
security_events declined now (some prev) cur = changes declined now prev cur

abbrev pub is_declined : Option Bool → Bool
is_declined (some b) = b
is_declined none = false

-- The detection after a read, with the decline as a call that changes the world and may throw; the
-- result is the world, whether the reset was declined, and the events. The read is the next snapshot.
module _ {G : Type 0} (decline_reset : G → G × Option Bool) where
  unfoldable pub propose_decline : Bool → Security → G → G × Bool
  propose_decline protected cur g =
      if cur.pending_reset && protected
      then (let (g', reply) = decline_reset g in (g', is_declined reply))
      else (g, false)

  unfoldable pub check_security : Bool → ℕ → Option Security → Security → G → G × Bool × List Event
  check_security protected now prev cur g =
      let (g', declined) = propose_decline protected cur g in
      (g', declined, security_events declined now prev cur)
