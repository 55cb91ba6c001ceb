-- ===== src/StateAuthority/History.antt =====
-- state-authority.mjs: how a record may change over any history of calls.
use enclave_gateway.Base.{
  ℕ, ◌≤◌, ◌≡◌, ◌⊎◌, Option, none, some, List, [], ◌∷◌, String, ok, arith, lookup, lookup-insert,
  String-discrete, subst,
}
use enclave_gateway.StateAuthority.Store.{
  StateRecord, onboarding, terminal, Authority, Call, apply_call, find_record, store_after, run,
}
use enclave_gateway.StateAuthority.Validity.{
  IsValid, StoreIsValid, Change, store_after-Change, Change-StoreIsValid, find_record-IsValid,
}

-- A version, once set, stays set and does not fall.
abbrev pub VersionLe : Option ℕ → Option ℕ → Type 0
VersionLe none w = Unit
VersionLe (some v) none = ⊥
VersionLe (some v) (some w) = v ≤ w

pub record Advances (r s : StateRecord) : Type 0 where
  pub epoch_le : r.lease_epoch ≤ s.lease_epoch
  pub one_holder :
      r.lease_epoch ≡ s.lease_epoch → (s.lease_holder ≡ none) ⊎ (s.lease_holder ≡ r.lease_holder)
  pub not_onboarding : s.phase ≡ onboarding → r.phase ≡ onboarding
  pub final : r.phase ≡ terminal → s ≡ r
  pub version_le : VersionLe r.policy_version s.policy_version
  pub no_fork : r.policy_version ≡ s.policy_version → s.policy_head_hash ≡ r.policy_head_hash

pub Advances-refl : (r : StateRecord) → Advances r r
Advances-refl r = ground arith

pub Advances-trans : {r s t : StateRecord} → Advances r s → Advances s t → Advances r t
Advances-trans {r} {s} {t} p q = ground arith

apply_call-Advances :
    (now : ℕ) (c : Call) (r : StateRecord) {r' : StateRecord}
    → IsValid r
    → apply_call now c r ≡ ok r'
    → Advances r r'
unfolding apply_call
apply_call-Advances now Call.create r v h = ground arith
apply_call-Advances now Call.read r v h = ground arith
apply_call-Advances now (Call.acquire _ _) r v h = ground arith
apply_call-Advances now (Call.renew _ _ _) r v h = ground arith
apply_call-Advances now (Call.release _ _) r v h = ground arith
apply_call-Advances now (Call.promote _ _ _ _) r v h = ground arith
apply_call-Advances now (Call.advance _ _ _ _ _ _) r v h = ground arith
apply_call-Advances now (Call.mark _ _ _ _ _ _) r v h = ground arith

-- What is known of the record at a key after some calls.
pub record Continues (k : String) (r : StateRecord) (a : Authority) : Type 0 where
  pub after : StateRecord
  pub found : lookup k a ≡ some after
  pub advances : Advances r after

pub find_record-lookup :
    (a : Authority) (k : String) (c : Call) {r s : StateRecord}
    → lookup k a ≡ some r
    → find_record a k c ≡ ok s
    → s ≡ r
unfolding find_record
find_record-lookup a k Call.create h e = ground arith
find_record-lookup a k c h e = ground arith

Change-Continues :
    {now : ℕ} {a : Authority} {j : String} {c : Call} {a' : Authority}
    → Change now a j c a'
    → (k : String) (r : StateRecord) → StoreIsValid a
    → lookup k a ≡ some r
    → Continues k r a'
Change-Continues (Change.kept e) k r v h = record {
  after = r;
  found = rw e h;
  advances = Advances-refl r;
}
Change-Continues {now} {a} {j} {c} (Change.stored s s' at_j applied put) k r v h =
    elim (String-discrete j k) [
      | yes e ↦
          let same : s ≡ r = find_record-lookup a j c (ground arith) at_j in
          record {
            after = s';
            found = ground (arith, lookup-insert j k s' a);
            advances =
                subst (λ x. Advances x s') same
                  (apply_call-Advances now c s (find_record-IsValid a j c v at_j) applied);
          }
      | no n ↦ record {
        after = r;
        found = ground (arith, lookup-insert j k s' a);
        advances = Advances-refl r;
      }
    ]

-- Over any sequence of calls to a valid store, the record under a key stays there and advances.
pub run-Continues :
    (a : Authority) (calls : List (ℕ × String × Call)) (k : String) (r : StateRecord)
    → StoreIsValid a
    → lookup k a ≡ some r
    → Continues k r (run a calls)
unfolding run
run-Continues a [] k r v h = record { after = r; found = h; advances = Advances-refl r }
run-Continues a ((now, j, c) ∷ calls) k r v h =
    let change = store_after-Change now a j c in
    let one = Change-Continues change k r v h in
    let rest =
      run-Continues (store_after now a j c) calls k one.after (Change-StoreIsValid change v)
        one.found in
    record {
      after = rest.after;
      found = rest.found;
      advances = Advances-trans one.advances rest.advances;
    }
