-- ===== src/Gateway/Lockstep/Head.antt =====
-- gateway.mjs, `reconcilePolicy`: the row of a version, and one move of the stored head.
use enclave_gateway.Base.{
  ℕ, Bool, true, false, List, [], ◌∷◌, String, none, some, Result, ok, raise, ◌==◌, ◌≡◌, refl, ◌∙◌,
  ◌⊎◌, inl, inr, arith, Bool-cases, Option-cases,
}
use enclave_gateway.Policy.Row.{Row}
use enclave_gateway.StateAuthority.Store.{StateRecord, AuthorityError, compare_and_advance}
use enclave_gateway.Gateway.Intake.{
  Delivery, delivered, request_lost, answer_lost, by_version, answered, advance_over,
}

pub by_version-version :
    (v : ℕ) (rows : List Row) (r : Row) → by_version v rows ≡ some r → r.version ≡ v
unfolding by_version
by_version-version v [] r e = cc
by_version-version v (x ∷ rs) r e = elim (Option-cases (by_version v rs)) [
  | inr (s, h) ↦ by_version-version v rs r (h ∙ (rw h at e))
  | inl h ↦ elim (Bool-cases (x.version == v)) [
    | inl t ↦ let e : some x ≡ some r = rw (h, t) at e in ground (arith, e, t)
    | inr t ↦ let e : none ≡ some r = rw (h, t) at e in cc
  ]
]

-- A head that was moved is at the version that was asked for; it is only seen to move if it has.
pub record Moves (r : StateRecord) (next : ℕ) (d : StateRecord × Bool) : Type 0 where
  pub at : (d.0 ≡ r) ⊎ (d.0.policy_version ≡ some next)
  pub seen : d.1 ≡ true → d.0.policy_version ≡ some next

compare_and_advance-version :
    (holder : String) (epoch v : ℕ) (h : String) (next : ℕ) (hash : String) (r s : StateRecord)
    → compare_and_advance holder epoch v h next hash r ≡ ok s
    → s.policy_version ≡ some next
unfolding compare_and_advance
compare_and_advance-version holder epoch v h next hash r s e = ground arith

answered-Moves :
    (b : Bool) (r : StateRecord) (next : ℕ) (d : Result AuthorityError StateRecord)
    → ((s : StateRecord) → d ≡ ok s → s.policy_version ≡ some next)
    → Moves r next (answered b r d)
answered-Moves b r next (ok s) h = record { at = inr (h s refl); seen = λ _. h s refl }
answered-Moves b r next (raise e) h = record { at = inl refl; seen = λ q. cc }

pub advance_over-Moves :
    (d : Delivery) (holder : String) (epoch v : ℕ) (h : String) (next : ℕ) (hash : String)
    (r : StateRecord)
    → Moves r next (advance_over d holder epoch v h next hash r)
unfolding advance_over
advance_over-Moves request_lost holder epoch v h next hash r = record {
  at = inl refl;
  seen = λ e. cc;
}
advance_over-Moves answer_lost holder epoch v h next hash r =
    answered-Moves false r next _ (compare_and_advance-version holder epoch v h next hash r)
advance_over-Moves delivered holder epoch v h next hash r =
    answered-Moves true r next _ (compare_and_advance-version holder epoch v h next hash r)
