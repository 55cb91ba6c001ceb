-- ===== src/Gateway/Writers.antt =====
-- At most one connection of an account is in use, and none is where its lease is released.
use enclave_gateway.Base.{
  ℕ, ◌+◌, ◌-◌, ◌<◌, Bool, true, false, List, [], ◌∷◌, String, Option, none, some, Result, ok, raise,
  leb, ltb, lookup, All, ◌≡◌, refl, sym, subst, inl, inr, arith, Bool-cases, Option-cases,
}
use enclave_gateway.StateAuthority.Store.{Phase, is_armed}
use enclave_gateway.Policy.Chain.{PolicyAuthority}
use enclave_gateway.Gateway.Accounts.{
  closed, released, Account, Server, Opening, liveness_stale_ms, max_renew_fail,
  max_reconnect_attempts, emit, Adoption, fresh_account, served, with_lease, with_phase, adopt,
  adopt_armed_link, self_fence, renewed, renew, reattach_failed, is_mismatched, rebuilt,
  recover_account, round_trip, back_off, is_quiet, watched, watch, release_lease,
}
use enclave_gateway.Gateway.Accounts.Rounds.{
  for_each, handles, renew_all_leases, account_watchdog, release_all_leases, no_accounts, Operation,
  adopting, fencing, renewing, watching, answering, backing_off, releasing, perform, perform_all,
}
use enclave_gateway.Gateway.InUse.{
  Else, Else-Tidy, Fits, OpenFits, Tidy, Tidy-Else, closed-Else, drop-Tidy, fence-Tidy, in_use,
  in_use-closed, open_and_connect-OpenFits, released-Else, store-Tidy,
}

-- A connection that serves no account is closed before the lease is released.
served-Tidy :
    (s : String) (gen deadline mono : ℕ) (derived : Option PolicyAuthority) (v : Server)
    (r : Server × Option ℕ)
    → OpenFits s v r
    → lookup s v.accts ≡ none
    → Tidy (served s gen deadline mono derived r)
served-Tidy s gen deadline mono derived v (w, none) (h, same, own) free =
    Else-Tidy s (emit (released s gen) w) (released-Else s gen w h own) (rw (same, free) own)
served-Tidy s gen deadline mono none v (w, some n) (h, same, one) free =
    let shut = in_use-closed s n w (subst (All (λ m. m ≡ n)) (sym one) (refl, tt)) in
    Else-Tidy s (emit (released s gen) (emit (closed s n) w))
      (released-Else s gen _ (closed-Else s n w h) shut) (rw (same, free) shut)
served-Tidy s gen deadline mono (some a) v (w, some n) (h, same, one) free =
    store-Tidy s (fresh_account gen deadline n a mono) w h
      (subst (All (λ m. m ≡ n)) (sym one) (refl, tt), omega arith, omega arith)

with_lease-Tidy :
    (s : String) (mono : ℕ) (q : Adoption) (r : Result String (ℕ × ℕ)) (v : Server)
    → Tidy v
    → lookup s v.accts ≡ none
    → Tidy (with_lease s mono q r v)
with_lease-Tidy s mono q (raise e) v h free = h
with_lease-Tidy s mono q (ok (gen, deadline)) v h free =
    served-Tidy s gen deadline mono q.derived v _
      (open_and_connect-OpenFits s q.opening v (Tidy-Else s v h)
        (subst (Fits (in_use s v.log)) free (h.fits s)))
      free

with_phase-Tidy :
    (s : String) (mono : ℕ) (q : Adoption) (r : Result String Phase) (v : Server)
    → Tidy v
    → lookup s v.accts ≡ none
    → Tidy (with_phase s mono q r v)
with_phase-Tidy s mono q (raise e) v h free = h
with_phase-Tidy s mono q (ok p) v h free = elim (Bool-cases (is_armed p)) [
  | inl e ↦ rw e (with_lease-Tidy s mono q q.lease v h free)
  | inr e ↦ rw e h
]

adopt-Tidy :
    (s : String) (mono : ℕ) (q : Adoption) (v : Server)
    → Tidy v
    → lookup s v.accts ≡ none
    → Tidy (adopt s mono q v)
unfolding adopt
adopt-Tidy s mono q v h free = with_phase-Tidy s mono q q.phase v h free

adopt_armed_link-Tidy :
    (s : String) (mono : ℕ) (q : Adoption) (v : Server)
    → Tidy v
    → Tidy (adopt_armed_link s mono q v)
unfolding adopt_armed_link
adopt_armed_link-Tidy s mono q v h = elim (Option-cases (lookup s v.accts)) [
  | inl e ↦ rw (e, adopt_armed_link) (adopt-Tidy s mono q v h e)
  | inr (a, e) ↦ rw (e, adopt_armed_link) h
]

-- An operation on the account of a state id, where there is one.
on_account-Tidy :
    (s : String) (f : Account → Server) (v : Server)
    → Tidy v
    → ((a : Account) → Else s v → Fits (in_use s v.log) (some a) → Tidy (f a))
    → Tidy (elim (lookup s v.accts) as (λ _. Server) [ none ↦ v | some a ↦ f a ])
on_account-Tidy s f v h k = elim (Option-cases (lookup s v.accts)) [
  | inl e ↦ rw e h
  | inr (a, e) ↦ rw e (k a (Tidy-Else s v h) (subst (Fits (in_use s v.log)) e (h.fits s)))
]

self_fence-Tidy : (s : String) (v : Server) → Tidy v → Tidy (self_fence s v)
unfolding self_fence
self_fence-Tidy s v h = on_account-Tidy s _ v h λ a e own. fence-Tidy s a v e (own.0)

renewed-Tidy :
    (s : String) (a : Account) (r : Result String ℕ) (v : Server)
    → Else s v
    → Fits (in_use s v.log) (some a)
    → Tidy (renewed s a r v)
renewed-Tidy s a (ok deadline) v e (tx, renewals, attempts) =
    store-Tidy s _ v e (tx, omega arith, attempts)
renewed-Tidy s a (raise x) v e (tx, renewals, attempts) =
    elim (Bool-cases (leb max_renew_fail (a.renew_fail + 1))) [
      | inl t ↦ rw t (fence-Tidy s a v e tx)
      | inr t ↦ rw t (store-Tidy s _ v e (tx, ground (arith, t), attempts))
    ]

renew-Tidy : (s : String) (r : Result String ℕ) (v : Server) → Tidy v → Tidy (renew s r v)
unfolding renew
renew-Tidy s r v h = on_account-Tidy s _ v h λ a e own. renewed-Tidy s a r v e own

reattach_failed-Tidy :
    (s : String) (a : Account) (v : Server)
    → Else s v
    → Fits (in_use s v.log) (some a)
    → Tidy (reattach_failed s a v)
reattach_failed-Tidy s a v e (tx, renewals, attempts) =
    elim (Bool-cases (leb max_reconnect_attempts (a.reconnect_attempts + 1))) [
      | inl t ↦ rw t (fence-Tidy s a v e tx)
      | inr t ↦ rw t (store-Tidy s _ v e (tx, renewals, ground (arith, t)))
    ]

rebuilt-Tidy :
    (s : String) (a : Account) (mono : ℕ) (mismatch : Bool) (v : Server) (r : Server × Option ℕ)
    → OpenFits s v r
    → a.renew_fail < 3
    → a.reconnect_attempts < 5
    → Tidy (rebuilt s a mono mismatch r)
rebuilt-Tidy s a mono mismatch v (w, some n) (e, same, one) renewals attempts =
    store-Tidy s _ w e (subst (All (λ m. m ≡ n)) (sym one) (refl, tt), renewals, omega arith)
rebuilt-Tidy s a mono true v (w, none) (e, same, own) renewals attempts =
    fence-Tidy s a w e (subst (All (λ m. m ≡ a.tx)) (sym own) tt)
rebuilt-Tidy s a mono false v (w, none) (e, same, own) renewals attempts =
    reattach_failed-Tidy s a w e (subst (All (λ m. m ≡ a.tx)) (sym own) tt, renewals, attempts)

recover_account-Tidy :
    (s : String) (mono : ℕ) (o : Opening) (v : Server) → Tidy v → Tidy (recover_account s mono o v)
unfolding recover_account
recover_account-Tidy s mono o v h = on_account-Tidy s _ v h λ a e own.
    rebuilt-Tidy s a mono (is_mismatched o) (emit (closed s a.tx) v) _
      (open_and_connect-OpenFits s o (emit (closed s a.tx) v) (closed-Else s a.tx v e)
        (in_use-closed s a.tx v (own.0)))
      (own.1) (own.2)

round_trip-Tidy : (s : String) (mono : ℕ) (v : Server) → Tidy v → Tidy (round_trip s mono v)
unfolding round_trip
round_trip-Tidy s mono v h = on_account-Tidy s _ v h λ a e own. store-Tidy s _ v e own

back_off-Tidy :
    (s : String) (flood frozen : Option ℕ) (v : Server) → Tidy v → Tidy (back_off s flood frozen v)
unfolding back_off
back_off-Tidy s flood frozen v h = on_account-Tidy s _ v h λ a e own. store-Tidy s _ v e own

release_lease-Tidy : (s : String) (v : Server) → Tidy v → Tidy (release_lease s v)
unfolding release_lease
release_lease-Tidy s v h = on_account-Tidy s _ v h λ a e own.
    let shut = in_use-closed s a.tx v (own.0) in
    drop-Tidy s (emit (released s a.gen) (emit (closed s a.tx) v))
      (released-Else s a.gen _ (closed-Else s a.tx v e) shut) shut

watched-Tidy :
    (s : String) (a : Account) (mono now : ℕ) (o : Opening) (v : Server)
    → Tidy v
    → Fits (in_use s v.log) (some a)
    → Tidy (watched s a mono now o v)
watched-Tidy s a mono now o v h own = elim (Bool-cases (is_quiet now a)) [
  | inl e ↦ rw e (store-Tidy s _ v (Tidy-Else s v h) own)
  | inr e ↦ elim (Bool-cases (ltb liveness_stale_ms (mono - a.last_rt_ok_at))) [
    | inl t ↦ rw (e, t) (recover_account-Tidy s mono o v h)
    | inr t ↦ rw (e, t) h
  ]
]

watch-Tidy :
    (s : String) (mono now : ℕ) (o : Opening) (v : Server) → Tidy v → Tidy (watch s mono now o v)
unfolding watch
watch-Tidy s mono now o v h = on_account-Tidy s _ v h λ a _ own. watched-Tidy s a mono now o v h own

for_each-Tidy :
    (f : String → Server → Server)
    → ((s : String) (v : Server) → Tidy v → Tidy (f s v))
    → (ss : List String) (v : Server) → Tidy v
    → Tidy (for_each f ss v)
unfolding for_each
for_each-Tidy f k [] v h = h
for_each-Tidy f k (s ∷ ss) v h = for_each-Tidy f k ss (f s v) (k s v h)

perform-Tidy : (o : Operation) (v : Server) → Tidy v → Tidy (perform o v)
unfolding renew_all_leases account_watchdog release_all_leases
perform-Tidy (adopting s mono q) v h = adopt_armed_link-Tidy s mono q v h
perform-Tidy (fencing s) v h = self_fence-Tidy s v h
perform-Tidy (renewing answers) v h =
    for_each-Tidy _ (λ s w k. renew-Tidy s (answers s) w k) (handles v) v h
perform-Tidy (watching mono now openings) v h =
    for_each-Tidy _ (λ s w k. watch-Tidy s mono now (openings s) w k) (handles v) v h
perform-Tidy (answering s mono) v h = round_trip-Tidy s mono v h
perform-Tidy (backing_off s flood frozen) v h = back_off-Tidy s flood frozen v h
perform-Tidy releasing v h = for_each-Tidy _ release_lease-Tidy (handles v) v h

perform_all_from-Tidy : (os : List Operation) (v : Server) → Tidy v → Tidy (perform_all os v)
perform_all_from-Tidy [] v h = h
perform_all_from-Tidy (o ∷ os) v h = perform_all_from-Tidy os (perform o v) (perform-Tidy o v h)

-- Whatever operations run from no accounts, and whatever they are answered, where a link is adopted
-- by `adoptArmedLinks`, which skips a state id that is served, and one operation follows the other: bar the connections
-- whose `whoAmI` threw, an account has no connection in use but its own one, and a state id without
-- an account has none; a lease is released where none is; and an account has had fewer than 3
-- failed renewals and 5 failed rebuildings in a row.
pub perform_all-Tidy : (os : List Operation) → Tidy (perform_all os no_accounts)
unfolding lookup
perform_all-Tidy os =
    perform_all_from-Tidy os no_accounts (record { fits = λ s. refl; ordered = tt })
