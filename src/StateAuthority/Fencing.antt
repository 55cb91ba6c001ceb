-- ===== src/StateAuthority/Fencing.antt =====
-- state-authority.mjs: superseded epochs, and the lease that has not expired.
use enclave_gateway.Base.{
  raise_of, true, ℕ, ◌<◌, ◌≡◌, Option, none, some, List, [], ◌∷◌, String, eqs, Result, ok, raise,
  is_raise, arith, lookup, lookup-insert, String-discrete, Bool, false, All, ◌&&◌, ◌==◌,
}
use enclave_gateway.StateAuthority.Store.{
  StateRecord, Authority, AuthorityError, Call, apply_call, find_record, store_after, run,
  in_process_transport,
}
use enclave_gateway.StateAuthority.Validity.{StoreIsValid, Change, store_after-Change}
use enclave_gateway.StateAuthority.History.{run-Continues, find_record-lookup}

-- The holder and epoch that a mutating call of a lease holder presents.
abbrev pub credentials : Call → Option (String × ℕ)
credentials (Call.renew h ep _) = some (h, ep)
credentials (Call.release h ep) = some (h, ep)
credentials (Call.promote h ep _ _) = some (h, ep)
credentials (Call.advance h ep _ _ _ _) = some (h, ep)
credentials _ = none

abbrev pub Refused : Result AuthorityError (StateRecord × Authority) → Type 0
Refused x = (e : AuthorityError) × (x ≡ raise e)

apply_call_stale :
    (now : ℕ) (c : Call) (r : StateRecord) (h : String) (ep : ℕ)
    → credentials c ≡ some (h, ep)
    → ep < r.lease_epoch
    → is_raise (apply_call now c r) ≡ true
unfolding apply_call
apply_call_stale now (Call.create) r h ep cred lt = cc
apply_call_stale now (Call.read) r h ep cred lt = cc
apply_call_stale now (Call.acquire _ _) r h ep cred lt = cc
apply_call_stale now (Call.renew _ _ _) r h ep cred lt = ground arith
apply_call_stale now (Call.release _ _) r h ep cred lt = ground arith
apply_call_stale now (Call.promote _ _ _ _) r h ep cred lt = ground arith
apply_call_stale now (Call.advance _ _ _ _ _ _) r h ep cred lt = ground arith
apply_call_stale now (Call.mark _ _ _ _ _ _) r h ep cred lt = cc

in_process_transport_found :
    (now : ℕ) (a : Authority) (k : String) (c : Call) (r : StateRecord) {e : AuthorityError}
    → lookup k a ≡ some r
    → apply_call now c r ≡ raise e
    → in_process_transport now a k c ≡ raise e
unfolding in_process_transport find_record
in_process_transport_found now a k Call.create r h p = ground arith
in_process_transport_found now a k c r h p = ground arith

-- Once the epoch of a record has passed `ep`, every call that presents `ep` is refused, whatever
-- was called in between.
pub run-Refused :
    (a : Authority) (calls : List (ℕ × String × Call)) (k : String) (r : StateRecord)
    → StoreIsValid a
    → lookup k a ≡ some r
    → (now : ℕ) (c : Call) (h : String) (ep : ℕ) → credentials c ≡ some (h, ep)
    → ep < r.lease_epoch
    → Refused (in_process_transport now (run a calls) k c)
run-Refused a calls k r v at_k now c h ep cred stale =
    let last = run-Continues a calls k r v at_k in
    let stale' : ep < last.after.lease_epoch = omega (arith, last.advances.epoch_le) in
    let stopped = apply_call_stale now c last.after h ep cred stale' in
    let (e, refused) = raise_of (apply_call now c last.after) stopped in
    (e, in_process_transport_found now (run a calls) k c last.after last.found refused)

-- The call presents the holder and the epoch.
abbrev pub presents : String → ℕ → Call → Bool
presents h ep (Call.renew h' ep' _) = eqs h h' && ep == ep'
presents h ep (Call.release h' ep') = eqs h h' && ep == ep'
presents h ep (Call.promote h' ep' _ _) = eqs h h' && ep == ep'
presents h ep (Call.advance h' ep' _ _ _ _) = eqs h h' && ep == ep'
presents h ep (Call.mark h' ep' _ _ _ _) = eqs h h' && ep == ep'
presents h ep _ = false

-- The record has a lease: who holds it, at which epoch, until when.
pub record Lease (h : String) (ep deadline : ℕ) (r : StateRecord) : Type 0 where
  pub holder : r.lease_holder ≡ some h
  pub epoch : r.lease_epoch ≡ ep
  pub until : r.lease_expires_at ≡ some deadline

module _ (h : String) (ep deadline : ℕ) (named : eqs h "" ≡ false) where
  apply_call_foreign :
      (now : ℕ) (c : Call) (r : StateRecord) {r' : StateRecord}
      → Lease h ep deadline r
      → now < deadline
      → presents h ep c ≡ false
      → apply_call now c r ≡ ok r'
      → r' ≡ r
  unfolding apply_call
  apply_call_foreign now Call.create r l lt p e = ground arith
  apply_call_foreign now Call.read r l lt p e = ground arith
  apply_call_foreign now (Call.acquire _ _) r l lt p e = ground arith
  apply_call_foreign now (Call.renew _ _ _) r l lt p e = ground arith
  apply_call_foreign now (Call.release _ _) r l lt p e = ground arith
  apply_call_foreign now (Call.promote _ _ _ _) r l lt p e = ground arith
  apply_call_foreign now (Call.advance _ _ _ _ _ _) r l lt p e = ground arith
  apply_call_foreign now (Call.mark _ _ _ _ _ _) r l lt p e = ground arith

  Change-foreign :
      {now : ℕ} {a : Authority} {j : String} {c : Call} {a' : Authority}
      → Change now a j c a'
      → (k : String) (r : StateRecord) → lookup k a ≡ some r
      → Lease h ep deadline r
      → now < deadline
      → presents h ep c ≡ false
      → lookup k a' ≡ some r
  Change-foreign (Change.kept e) k r at_k l lt p = rw e at_k
  Change-foreign {now} {a} {j} {c} (Change.stored s s' at_j applied put) k r at_k l lt p =
      elim (String-discrete j k) [
        | yes e ↦
            let same : s ≡ r = find_record-lookup a j c (ground arith) at_j in
            let kept = apply_call_foreign now c r l lt p (rw same at applied) in
            ground (arith, lookup-insert j k s' a)
        | no n ↦ ground (arith, lookup-insert j k s' a)
      ]

  -- The calls of others than the lease's holder, made before its deadline, leave the record of a
  -- held lease exactly as it is: none of them can take the lease over, end it or move the head.
  pub run_foreign :
      (calls : List (ℕ × String × Call)) (a : Authority) (k : String) (r : StateRecord)
      → lookup k a ≡ some r
      → Lease h ep deadline r
      → All (λ x. (x.0 < deadline) × (presents h ep x.2 ≡ false)) calls
      → lookup k (run a calls) ≡ some r
  unfolding run
  run_foreign [] a k r at_k l f = at_k
  run_foreign ((now, j, c) ∷ calls) a k r at_k l f =
      run_foreign calls (store_after now a j c) k r
        (Change-foreign (store_after-Change now a j c) k r at_k l f.0.0 f.0.1) l f.1
