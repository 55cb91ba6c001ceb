-- ===== src/StateAuthority/Mirror.antt =====
-- state-authority-dynamo.mjs: the store on conditional writes against the reference store.
use enclave_gateway.Base.{
  ◌∙◌, ◌⊎◌, inr, inl, raise, ◌∷◌, [], none, refl, sym, ap, lookup, insert, List, Result, Option,
  arith, ◌≡◌, false, ok, some, String, ℕ,
}
use enclave_gateway.StateAuthority.Store.{
  store_after, in_process_transport, find_record, fresh_record, Authority, run, create,
  acquire_lease, mark_terminal, Phase, StateRecord, is_terminal, Call, read, acquire, renew,
  release, promote, advance, mark, renew_lease, release_lease, promote_to_armed,
  compare_and_advance, apply_call,
}
use enclave_gateway.StateAuthority.Dynamo.{
  WriteError, table_after, table_run, write_at, written, put_onboarding, write_acquire,
  write_terminal, write_renew, write_release, write_promote, write_advance, write_call,
}

-- A terminal phase is not expected by a call that marks one.
abbrev pub Sensible : Call → Type 0
Sensible (mark h ep ph reason ev eh) = is_terminal ph ≡ false
Sensible _ = Unit

write_acquire-lease :
    (now : ℕ) (h : String) (ttl : ℕ) (seen r r' : StateRecord)
    → write_acquire now h ttl seen r ≡ ok (some r')
    → acquire_lease now h ttl r ≡ ok r'
unfolding write_acquire acquire_lease
write_acquire-lease now h ttl seen r r' e = ground arith

write_terminal-mark :
    (h : String) (ep : ℕ) (ph : Phase) (reason : Option String) (ev : Option ℕ) (eh : Option String)
    (seen r r' : StateRecord)
    → is_terminal ph ≡ false
    → write_terminal h ep ph reason ev eh seen r ≡ ok (some r')
    → mark_terminal h ep ph reason ev eh r ≡ ok r'
unfolding write_terminal mark_terminal
write_terminal-mark h ep ph reason ev eh seen r r' s e = ground arith

write_call-apply_call :
    (now : ℕ) (c : Call) (seen r r' : StateRecord)
    → Sensible c
    → write_call now c seen r ≡ ok (some r')
    → apply_call now c r ≡ ok r'
unfolding write_call apply_call
write_call-apply_call now create seen r r' s h = ground arith
write_call-apply_call now read seen r r' s h = ground arith
write_call-apply_call now (acquire h1 ttl) seen r r' s h =
    write_acquire-lease now h1 ttl seen r r' h
write_call-apply_call now (renew h1 ep ttl) seen r r' s h =
    unfold renew_lease in unfold write_renew in ground arith
write_call-apply_call now (release h1 ep) seen r r' s h =
    unfold release_lease in unfold write_release in ground arith
write_call-apply_call now (promote h1 ep v hash) seen r r' s h =
    unfold promote_to_armed in unfold write_promote in ground arith
write_call-apply_call now (advance h1 ep ev eh nv nh) seen r r' s h =
    unfold compare_and_advance in unfold write_advance in ground arith
write_call-apply_call now (mark h1 ep ph reason ev eh) seen r r' s h =
    write_terminal-mark h1 ep ph reason ev eh seen r r' s h

-- One call leaves the table as it is, or does what the reference store does.
abbrev Mirrored : ℕ → Authority → String → Call → Authority → Type 0
Mirrored now a state_id c after = (after ≡ a) ⊎ (after ≡ store_after now a state_id c)

find_record-some :
    (a : Authority) (state_id : String) (c : Call) (r : StateRecord)
    → lookup state_id a ≡ some r
    → find_record a state_id c ≡ ok r
unfolding find_record
find_record-some a state_id create r q = rw (q, find_record) refl
find_record-some a state_id read r q = rw (q, find_record) refl
find_record-some a state_id (acquire h ttl) r q = rw (q, find_record) refl
find_record-some a state_id (renew h ep ttl) r q = rw (q, find_record) refl
find_record-some a state_id (release h ep) r q = rw (q, find_record) refl
find_record-some a state_id (promote h ep v hash) r q = rw (q, find_record) refl
find_record-some a state_id (advance h ep ev eh nv nh) r q = rw (q, find_record) refl
find_record-some a state_id (mark h ep ph reason ev eh) r q = rw (q, find_record) refl

store_after-ok :
    (now : ℕ) (a : Authority) (state_id : String) (c : Call) (r r' : StateRecord)
    → lookup state_id a ≡ some r
    → apply_call now c r ≡ ok r'
    → store_after now a state_id c ≡ insert state_id r' a
unfolding in_process_transport store_after
store_after-ok now a state_id c r r' q e =
    rw (find_record-some a state_id c r q, e, in_process_transport, store_after) refl

store_after-create :
    (now : ℕ) (a : Authority) (state_id : String)
    → lookup state_id a ≡ none
    → store_after now a state_id create ≡ insert state_id (fresh_record state_id) a
unfolding find_record store_after in_process_transport apply_call
store_after-create now a state_id q =
    rw (q, find_record, in_process_transport, store_after, apply_call) refl

put-Mirrored :
    (now : ℕ) (a : Authority) (state_id : String) (o : Option StateRecord)
    → lookup state_id a ≡ o
    → Mirrored now a state_id create (put_onboarding a state_id o)
put-Mirrored now a state_id none q = inr (sym (store_after-create now a state_id q))
put-Mirrored now a state_id (some r) q = inl refl

written-Mirrored :
    (now : ℕ) (a : Authority) (state_id : String) (c : Call) (seen r : StateRecord)
    (w : Result WriteError (Option StateRecord))
    → Sensible c
    → lookup state_id a ≡ some r
    → write_call now c seen r ≡ w
    → Mirrored now a state_id c (written a state_id w)
written-Mirrored now a state_id c seen r (raise x) s q e = inl refl
written-Mirrored now a state_id c seen r (ok none) s q e = inl refl
written-Mirrored now a state_id c seen r (ok (some r')) s q e =
    inr (sym (store_after-ok now a state_id c r r' q (write_call-apply_call now c seen r r' s e)))

write_at-Mirrored :
    (now : ℕ) (a : Authority) (state_id : String) (c : Call) (seen : StateRecord)
    (o : Option StateRecord)
    → Sensible c
    → lookup state_id a ≡ o
    → Mirrored now a state_id c (write_at now a state_id c seen o)
write_at-Mirrored now a state_id c seen none s q = inl refl
write_at-Mirrored now a state_id c seen (some r) s q =
    written-Mirrored now a state_id c seen r (write_call now c seen r) s q refl

table_after-Mirrored :
    (now : ℕ) (a : Authority) (state_id : String) (c : Call) (seen : StateRecord)
    → Sensible c
    → Mirrored now a state_id c (table_after now a state_id c seen)
unfolding table_after
table_after-Mirrored now a state_id create seen s =
    put-Mirrored now a state_id (lookup state_id a) refl
table_after-Mirrored now a state_id c seen s =
    write_at-Mirrored now a state_id c seen (lookup state_id a) s refl

-- Calls of the reference store that are some of the calls on the table, in their order.
pub data Among : List (ℕ × String × Call × StateRecord) → List (ℕ × String × Call) → Type 0 where
  none_left : Among [] []
  without :
      {calls : List (ℕ × String × Call × StateRecord)} {kept : List (ℕ × String × Call)} (now : ℕ)
      (state_id : String) (c : Call) (seen : StateRecord)
      → Among calls kept
      → Among ((now, state_id, c, seen) ∷ calls) kept
  along :
      {calls : List (ℕ × String × Call × StateRecord)} {kept : List (ℕ × String × Call)} (now : ℕ)
      (state_id : String) (c : Call) (seen : StateRecord)
      → Among calls kept
      → Among ((now, state_id, c, seen) ∷ calls) ((now, state_id, c) ∷ kept)

abbrev pub AllSensible : List (ℕ × String × Call × StateRecord) → Type 0
AllSensible [] = Unit
AllSensible ((now, state_id, c, seen) ∷ calls) = Sensible c × AllSensible calls

-- If no call that marks a record terminal expects it to be so already: after any sequence of calls,
-- each on whatever older record it saw, the table is the one that the reference store has after some
-- of the calls, in their order. So every invariant of the reference store's runs is one of the table.
pub table_run-run :
    (a : Authority) (calls : List (ℕ × String × Call × StateRecord))
    → AllSensible calls
    → (kept : List (ℕ × String × Call)) × Among calls kept × (table_run a calls ≡ run a kept)
unfolding table_run run
table_run-run a [] s = ([], none_left, refl)
table_run-run a ((now, state_id, c, seen) ∷ calls) (s, rest) =
    let after = table_after now a state_id c seen in
    let (kept, among, same) = table_run-run after calls rest in
    elim (table_after-Mirrored now a state_id c seen s) [
      | inl q ↦
          let (kept', among', same') = table_run-run a calls rest in
          (kept', without now state_id c seen among', rw q same')
      | inr q ↦ (
        (now, state_id, c) ∷ kept,
        along now state_id c seen among,
        same ∙ ap (λ t. run t kept) q,
      )
    ]
