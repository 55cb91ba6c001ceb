-- ===== src/StateAuthority/Validity.antt =====
-- state-authority.mjs: the invariant of a stored record, over the calls.
use enclave_gateway.Base.{
  ℕ, ◌<◌, ◌≡◌, refl, Option, none, some, List, [], ◌∷◌, String, Result, ok, raise, arith, lookup,
  insert, lookup-insert, String-discrete, >>=-eq-ok, subst, ◌⊎◌, inl, inr, Result, raise, refl,
  insert, List, [], ◌∷◌,
}
use enclave_gateway.StateAuthority.Store.{
  StateRecord, Phase, onboarding, armed, terminal, Authority, Call, apply_call, fresh_record,
  find_record, in_process_transport, store_after, AuthorityError, run, Authority,
  in_process_transport, run,
}

-- A holder comes with a deadline and a positive epoch, and no holder with no deadline.
abbrev pub LeaseFits : Option String → Option ℕ → ℕ → Type 0
LeaseFits none none e = Unit
LeaseFits none (some t) e = ⊥
LeaseFits (some h) none e = ⊥
LeaseFits (some h) (some t) e = 0 < e

-- An onboarding record has no head, and an armed one has a version and a hash.
abbrev pub HeadFits : Phase → Option ℕ → Option String → Type 0
HeadFits onboarding v h = (v ≡ none) × (h ≡ none)
HeadFits armed v h = ((n : ℕ) × (v ≡ some n)) × ((s : String) × (h ≡ some s))
HeadFits terminal v h = Unit

pub record IsValid (r : StateRecord) : Type 0 where
  pub lease : LeaseFits r.lease_holder r.lease_expires_at r.lease_epoch
  pub head : HeadFits r.phase r.policy_version r.policy_head_hash
  pub terminal_free : r.phase ≡ terminal → r.lease_holder ≡ none

pub fresh_record-IsValid : (k : String) → IsValid (fresh_record k)
unfolding fresh_record
fresh_record-IsValid k = ground arith

pub apply_call-IsValid :
    (now : ℕ) (c : Call) (r : StateRecord) {r' : StateRecord}
    → IsValid r
    → apply_call now c r ≡ ok r'
    → IsValid r'
unfolding apply_call
apply_call-IsValid now Call.create r v h = ground arith
apply_call-IsValid now Call.read r v h = ground arith
apply_call-IsValid now (Call.acquire _ _) r v h = ground arith
apply_call-IsValid now (Call.renew _ _ _) r v h = ground arith
apply_call-IsValid now (Call.release _ _) r v h = ground arith
apply_call-IsValid now (Call.promote _ _ _ _) r v h = ground arith
apply_call-IsValid now (Call.advance _ _ _ _ _ _) r v h = ground arith
apply_call-IsValid now (Call.mark _ _ _ _ _ _) r v h = ground arith

-- Every record of a store is valid.
abbrev pub StoreIsValid : Authority → Type 0
StoreIsValid a = (k : String) (r : StateRecord) → lookup k a ≡ some r → IsValid r

pub find_record-IsValid :
    (a : Authority) (k : String) (c : Call) {r : StateRecord}
    → StoreIsValid a
    → find_record a k c ≡ ok r
    → IsValid r
unfolding find_record
find_record-IsValid a k Call.create {r} v h = ground (arith, v k r, fresh_record-IsValid k)
find_record-IsValid a k c {r} v h = ground (arith, v k r)

-- A call that succeeds found a record, was applied to it, and stored the result.
pub transport_steps :
    (now : ℕ) (a : Authority) (k : String) (c : Call) {r' : StateRecord} {a' : Authority}
    → in_process_transport now a k c ≡ ok (r', a')
    → (r : StateRecord) × (find_record a k c ≡ ok r)
      × (apply_call now c r ≡ ok r')
      × (a' ≡ insert k r' a)
unfolding in_process_transport
transport_steps now a k c h =
    let (r, found, rest) = >>=-eq-ok (find_record a k c) _ h in
    let (r'', applied, stored) = >>=-eq-ok (apply_call now c r) _ rest in
    (r, found, ground arith, ground arith)

transport_cases :
    (x : Result AuthorityError (StateRecord × Authority)) {a a' : Authority}
    → a' ≡ elim x [ ok (_, s) ↦ s | raise _ ↦ a ]
    → (a' ≡ a) ⊎ ((r : StateRecord) × (x ≡ ok (r, a')))
transport_cases (ok (r, s)) e = inr (r, ground arith)
transport_cases (raise _) e = inl e

-- What one call does to the store.
pub data Change (now : ℕ) (a : Authority) (k : String) (c : Call) (a' : Authority) : Type 0 where
  kept : a' ≡ a → Change now a k c a'
  stored :
      (r r' : StateRecord)
      → find_record a k c ≡ ok r
      → apply_call now c r ≡ ok r'
      → a' ≡ insert k r' a
      → Change now a k c a'

pub store_after-Change :
    (now : ℕ) (a : Authority) (k : String) (c : Call) → Change now a k c (store_after now a k c)
unfolding store_after
store_after-Change now a k c = elim (transport_cases (in_process_transport now a k c) refl) [
  | inl e ↦ Change.kept e
  | inr (r', e) ↦
      let (r, found, applied, put) = transport_steps now a k c e in
      Change.stored r r' found applied put
]

pub Change-StoreIsValid :
    {now : ℕ} {a : Authority} {k : String} {c : Call} {a' : Authority}
    → Change now a k c a'
    → StoreIsValid a
    → StoreIsValid a'
Change-StoreIsValid (Change.kept e) v j s found = v j s (rw e at found)
Change-StoreIsValid {now} {a} {k} {c} (Change.stored r r' at_k applied put) v j s found =
    let valid = apply_call-IsValid now c r (find_record-IsValid a k c v at_k) applied in
    elim (String-discrete k j) [
      | yes e ↦ subst IsValid (ground (arith, lookup-insert k j r' a)) valid
      | no n ↦ v j s (ground (arith, lookup-insert k j r' a))
    ]

-- The reference store keeps every record valid, whatever is called.
pub run-StoreIsValid :
    (a : Authority) (calls : List (ℕ × String × Call)) → StoreIsValid a → StoreIsValid (run a calls)
unfolding run
run-StoreIsValid a [] v = v
run-StoreIsValid a ((now, k, c) ∷ calls) v =
    run-StoreIsValid (store_after now a k c) calls
      (Change-StoreIsValid (store_after-Change now a k c) v)
