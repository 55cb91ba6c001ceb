-- ===== src/Brain/Events.antt =====
-- brain.mjs, `Brain.checkSecurity`: which events it emits, and when.
use enclave_gateway.Base.{
  Option-cases, String, inr, inl, ◌↔◌, ◌||◌, ◌&&◌, ◌++◌, arith, ◌≡◌, false, true, ◌∷◌, [], some,
  none, refl, List, Option, Bool, ℕ, any, not,
}
use enclave_gateway.Brain.Security.{
  event_if, reset_events, email_events, ttl_events, changes, login_email_set, account_ttl_changed,
  session_ttl_changed, twofa_enabled, twofa_disabled, recovery_set, reset_blocked, reset_requested,
  security_events, check_security, Security, Event, propose_decline,
}

abbrev pub is_blocked : Event → Bool
is_blocked reset_blocked = true
is_blocked _ = false

abbrev pub is_requested : Event → Bool
is_requested (reset_requested days) = true
is_requested _ = false

abbrev pub is_enabled : Event → Bool
is_enabled twofa_enabled = true
is_enabled _ = false

abbrev pub is_disabled : Event → Bool
is_disabled twofa_disabled = true
is_disabled _ = false

-- A snapshot's field against that of the snapshot before, false where there is none.
abbrev pub was : (Security → Bool) → Option Security → Bool → Bool
was field none default = default
was field (some prev) default = field prev

any-append :
    {A : Type 0} (p : A → Bool) (xs ys : List A) → any p (xs ++ ys) ≡ (any p xs || any p ys)
any-append p [] ys = refl
any-append p (x ∷ xs) ys = let ih = any-append p xs ys in ground arith

-- A test that no event on the address or on a period passes.
pub record Ignores (p : Event → Bool) : Type 0 where
  pub email : (s : String) → p (login_email_set s) ≡ false
  pub account : (n : ℕ) → p (account_ttl_changed n) ≡ false
  pub session : (n : ℕ) → p (session_ttl_changed n) ≡ false

and_false : (a : Bool) → (a && false) ≡ false
and_false true = refl
and_false false = refl

or_false : (a : Bool) → (a || false) ≡ a
or_false true = refl
or_false false = refl

any-event_if : (p : Event → Bool) (b : Bool) (e : Event) → any p (event_if b e) ≡ (b && p e)
any-event_if p true e = ground arith
any-event_if p false e = refl

any-email_events :
    (p : Event → Bool) (prev cur : Option String)
    → Ignores p
    → any p (email_events prev cur) ≡ false
unfolding email_events
any-email_events p prev none h = refl
any-email_events p prev (some email) h = simp (any-event_if p, h.email email, and_false) refl

any-ttl_events :
    (p : Event → Bool) (changed : ℕ → Event) (prev cur : Option ℕ)
    → ((n : ℕ) → p (changed n) ≡ false)
    → any p (ttl_events changed prev cur) ≡ false
unfolding ttl_events
any-ttl_events p changed (some a) (some b) h = simp (any-event_if p, h b, and_false) refl
any-ttl_events p changed (some a) none h = refl
any-ttl_events p changed none cur h = refl

any-changes :
    (p : Event → Bool) (declined : Bool) (now : ℕ) (prev cur : Security)
    → Ignores p
    → any p (changes declined now prev cur) ≡ (
        any p (reset_events declined now prev cur)
        || (cur.has_pwd && not prev.has_pwd && p twofa_enabled)
        || (not cur.has_pwd && prev.has_pwd && p twofa_disabled)
        || (cur.has_recovery && not prev.has_recovery && p recovery_set))
unfolding changes
any-changes p declined now prev cur h =
    let email = any-email_events p prev.login_email cur.login_email h in
    let account =
      any-ttl_events p account_ttl_changed prev.account_ttl_days cur.account_ttl_days h.account in
    let session =
      any-ttl_events p session_ttl_changed prev.session_ttl_days cur.session_ttl_days h.session in
    simp (any-append p, any-event_if p, email, account, session, or_false) refl

is_blocked-Ignored : Ignores is_blocked
is_blocked-Ignored = record { email = λ s. refl; account = λ n. refl; session = λ n. refl }

is_requested-Ignored : Ignores is_requested
is_requested-Ignored = record { email = λ s. refl; account = λ n. refl; session = λ n. refl }

is_enabled-Ignored : Ignores is_enabled
is_enabled-Ignored = record { email = λ s. refl; account = λ n. refl; session = λ n. refl }

is_disabled-Ignored : Ignores is_disabled
is_disabled-Ignored = record { email = λ s. refl; account = λ n. refl; session = λ n. refl }

module _ {G : Type 0} (decline_reset : G → G × Option Bool) (protected : Bool) (now : ℕ)
    (prev : Option Security) (cur : Security) (g : G) where
  pub record Told (r : G × Bool × List Event) : Type 0 where
    pub declined :
        (r.1 ≡ true)
        ↔ ((cur.pending_reset ≡ true) × (protected ≡ true) × ((decline_reset g).1 ≡ some true))
    pub blocked : any is_blocked r.2 ≡ r.1
    pub requested :
        any is_requested r.2
        ≡ (cur.pending_reset && not (was (λ s. s.pending_reset) prev true) && not r.1)
    pub enabled : any is_enabled r.2 ≡ (cur.has_pwd && not (was (λ s. s.has_pwd) prev true))
    pub disabled : any is_disabled r.2 ≡ (not cur.has_pwd && was (λ s. s.has_pwd) prev false)

  declined_iff :
      ((propose_decline decline_reset protected cur g).1 ≡ true)
      ↔ ((cur.pending_reset ≡ true) × (protected ≡ true) × ((decline_reset g).1 ≡ some true))
  unfolding propose_decline
  declined_iff = ground arith

  told_events :
      (declined : Bool)
      → (declined ≡ true → cur.pending_reset ≡ true)
      → (any is_blocked (security_events declined now prev cur) ≡ declined)
        × (any is_requested (security_events declined now prev cur)
            ≡ (cur.pending_reset && not (was (λ s. s.pending_reset) prev true) && not declined))
        × (any is_enabled (security_events declined now prev cur)
            ≡ (cur.has_pwd && not (was (λ s. s.has_pwd) prev true)))
        × (any is_disabled (security_events declined now prev cur)
            ≡ (not cur.has_pwd && was (λ s. s.has_pwd) prev false))
  unfolding security_events reset_events
  told_events declined due = elim (Option-cases prev) [
    | inl q ↦ rw q (ground arith, ground arith, ground arith, ground arith)
    | inr (s, q) ↦ rw q (
      rw (any-changes is_blocked declined now s cur is_blocked-Ignored) (ground arith),
      rw (any-changes is_requested declined now s cur is_requested-Ignored) (ground arith),
      rw (any-changes is_enabled declined now s cur is_enabled-Ignored) (ground arith),
      rw (any-changes is_disabled declined now s cur is_disabled-Ignored) (ground arith),
    )
  ]

  -- A pending reset is declined exactly when the policy protects and the gateway does so. The
  -- events say that a reset was blocked exactly when it was declined; that one was requested exactly
  -- when it is pending, was not before, and was not declined; and that the password was set or removed
  -- exactly when that changed since the snapshot before. With no snapshot before, no request and
  -- no change of the password is reported.
  pub check_security-Told : Told (check_security decline_reset protected now prev cur g)
  unfolding check_security
  check_security-Told =
      let d = (propose_decline decline_reset protected cur g).1 in
      let events = told_events d (λ e. (declined_iff.0 e).0) in
      record {
        declined = declined_iff;
        blocked = events.0;
        requested = events.1;
        enabled = events.2;
        disabled = events.3;
      }
