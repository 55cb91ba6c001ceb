-- ===== src/Policy/Permits.antt =====
-- policy-verify.mjs, `assertOpAllowed`: what an operation needs of the derived authority.
use mathlib.Core.List.{Memᴰ}
use enclave_gateway.Policy.Json.{Value, str}
use enclave_gateway.Policy.Core.{items, text_is}
use enclave_gateway.Policy.Chain.{PolicyAuthority}
use enclave_gateway.Policy.Ops.{
  list_sessions, read_security_state, who_am_i, unknown_op, logout_self, decline_reset,
  evict_session, assert_op, check_evict, assert_op_allowed, check_session, is_listed, Op, Session,
  OpArg, string_of, find_session,
}
use enclave_gateway.Base.{
  sym, Option-cases, Option, ok, none, subst, ◌↔◌, ◌≢◌, inr, inl, arith, ◌≡◌, false, true, ◌∷◌, [],
  some, refl, List, String, any, find, eqs, eqs_iff, Bool-cases,
}

-- An entry of the whitelist with the text of the hash.
pub record Kept (authority : PolicyAuthority) (hash : String) : Type 0 where
  pub entry : Value
  pub listed : Memᴰ entry (items authority.whitelist)
  pub names : string_of entry ≡ hash

-- The first session of a roster with the hash.
pub data First (hash : String) : List Session → Session → Type 0 where
  here : {rest : List Session} (s : Session) → s.hash ≡ hash → First hash (s ∷ rest) s
  later :
      {rest : List Session} {s : Session} (other : Session)
      → other.hash ≢ hash
      → First hash rest s
      → First hash (other ∷ rest) s

pub record Evictable (authority : PolicyAuthority) (arg : OpArg) : Type 0 where
  pub roster : List Session
  pub fresh : arg.fresh_roster ≡ some roster
  pub session : Session
  pub found : First arg.hash roster session
  pub not_own : session.current ≡ false
  pub unless_burn :
      Kept authority arg.hash
      → (arg.contest_override ≡ true) × (authority.contest_protection ≡ str "auto_burn")

-- What an operation needs of the authority.
abbrev pub Permitted : PolicyAuthority → Op → OpArg → Type 0
Permitted authority evict_session arg = (authority.disconnected ≡ false) × Evictable authority arg
Permitted authority decline_reset arg =
    (authority.disconnected ≡ false) × (authority.reset_protection ≡ true)
Permitted authority logout_self arg = authority.disconnected ≡ true
Permitted authority (unknown_op name) arg = ⊥
Permitted authority _ arg = authority.disconnected ≡ false

found-First :
    (hash : String) (roster : List Session) (s : Session)
    → find_session hash roster ≡ some s
    → First hash roster s
unfolding find_session
found-First hash [] s e = cc
found-First hash (t ∷ ts) s e = elim (Bool-cases (eqs t.hash hash)) [
  | inl q ↦
      let same : t ≡ s = ground arith in
      subst (First hash (t ∷ ts)) same (here t ((eqs_iff t.hash hash).0 q))
  | inr q ↦
      let rest : find (λ x. eqs x.hash hash) ts ≡ some s = ground arith in
      later t (λ same. cc ((eqs_iff t.hash hash).1 same)) (found-First hash ts s rest)
]

First-found :
    {hash : String} {roster : List Session} {s : Session}
    → First hash roster s
    → find_session hash roster ≡ some s
unfolding find_session
First-found (here s q) = ground arith
First-found (later other q f) = let ih = First-found f in ground arith

text_is_iff : (v : Value) (s : String) → (text_is s v ≡ true) ↔ (v ≡ str s)
text_is_iff v s = ground arith

any-listed :
    (hash : String) (vs : List Value)
    → any (λ v. eqs (string_of v) hash) vs ≡ true
    → (entry : Value) × Memᴰ entry vs × (string_of entry ≡ hash)
any-listed hash [] h = cc
any-listed hash (v ∷ vs) h = elim (Bool-cases (eqs (string_of v) hash)) [
  | inl e ↦ (v, Memᴰ.head refl, (eqs_iff (string_of v) hash).0 e)
  | inr e ↦ let (w, m, q) = any-listed hash vs (ground arith) in (w, Memᴰ.tail m, q)
]

listed-any :
    (hash : String) (vs : List Value) (entry : Value)
    → Memᴰ entry vs
    → string_of entry ≡ hash
    → any (λ v. eqs (string_of v) hash) vs ≡ true
listed-any hash [] entry m q = elim m [ ]
listed-any hash (v ∷ vs) entry (Memᴰ.head e) q = ground arith
listed-any hash (v ∷ vs) entry (Memᴰ.tail m) q =
    let ih = listed-any hash vs entry m q in ground arith

session_ok :
    (authority : PolicyAuthority) (arg : OpArg) (s : Session)
    → check_session authority arg (some s) ≡ ok tt
    → (s.current ≡ false)
      × (is_listed authority.whitelist arg.hash ≡ true
          → (arg.contest_override ≡ true)
            × (text_is "auto_burn" authority.contest_protection ≡ true))
session_ok authority arg s e = ground arith

ok_session :
    (authority : PolicyAuthority) (arg : OpArg) (s : Session)
    → s.current ≡ false
    → (is_listed authority.whitelist arg.hash ≡ true
        → (arg.contest_override ≡ true) × (text_is "auto_burn" authority.contest_protection ≡ true))
    → check_session authority arg (some s) ≡ ok tt
ok_session authority arg s not_own burn =
    elim (Bool-cases (is_listed authority.whitelist arg.hash)) [
      | inl e ↦ let b = burn e in ground arith
      | inr e ↦ ground arith
    ]

check_evict-Evictable :
    (authority : PolicyAuthority) (arg : OpArg) (roster : Option (List Session))
    → roster ≡ arg.fresh_roster
    → check_evict authority arg roster ≡ ok tt
    → Evictable authority arg
unfolding check_evict
check_evict-Evictable authority arg none q e = cc
check_evict-Evictable authority arg (some roster) q e =
    elim (Option-cases (find_session arg.hash roster)) [
      | inl n ↦ let stuck : check_session authority arg none ≡ ok tt = rw n at e in ground arith
      | inr (s, f) ↦
          let (not_own, burn) =
            session_ok authority arg s (subst (λ o. check_session authority arg o ≡ ok tt) f e) in
          record {
            roster = roster;
            fresh = sym q;
            session = s;
            found = found-First arg.hash roster s f;
            not_own = not_own;
            unless_burn = λ k.
                let b = burn (
                  unfold is_listed in
                  listed-any arg.hash (items authority.whitelist) k.entry k.listed k.names) in
                (b.0, (text_is_iff authority.contest_protection "auto_burn").0 b.1);
          }
    ]

Evictable-check_evict :
    (authority : PolicyAuthority) (arg : OpArg)
    → Evictable authority arg
    → check_evict authority arg arg.fresh_roster ≡ ok tt
unfolding check_evict
Evictable-check_evict authority arg v =
    let checked = ok_session authority arg v.session v.not_own (λ l.
      let (entry, m, names) =
        any-listed arg.hash (items authority.whitelist) (unfold is_listed in l) in
      let b = v.unless_burn (record { entry = entry; listed = m; names = names }) in
      (b.0, (text_is_iff authority.contest_protection "auto_burn").1 b.1)) in
    rw (v.fresh, First-found v.found) checked

evict_steps :
    (authority : PolicyAuthority) (arg : OpArg)
    → assert_op_allowed authority evict_session arg ≡ ok tt
    → (authority.disconnected ≡ false) × (check_evict authority arg arg.fresh_roster ≡ ok tt)
unfolding assert_op_allowed assert_op
evict_steps authority arg e = ground arith

steps_evict :
    (authority : PolicyAuthority) (arg : OpArg)
    → authority.disconnected ≡ false
    → check_evict authority arg arg.fresh_roster ≡ ok tt
    → assert_op_allowed authority evict_session arg ≡ ok tt
unfolding assert_op_allowed assert_op
steps_evict authority arg live checked = ground arith

-- An operation passes exactly when the derived authority permits it. A disconnected account may do
-- nothing but log out, and only it may. Declining a reset needs reset protection. An eviction needs a
-- fresh roster whose first session with the hash is not the guard's own, and the hash must not be on
-- the signed whitelist unless the override is asked for and the signed policy says `auto_burn`. An
-- unknown operation never passes.
pub assert_op_allowed_iff :
    (authority : PolicyAuthority) (op : Op) (arg : OpArg)
    → (assert_op_allowed authority op arg ≡ ok tt) ↔ Permitted authority op arg
unfolding assert_op_allowed assert_op
assert_op_allowed_iff authority evict_session arg = (
  λ e.
      let (live, checked) = evict_steps authority arg e in
      (live, check_evict-Evictable authority arg arg.fresh_roster refl checked),
  λ p. steps_evict authority arg p.0 (Evictable-check_evict authority arg p.1),
)
assert_op_allowed_iff authority decline_reset arg = ground arith
assert_op_allowed_iff authority logout_self arg = ground arith
assert_op_allowed_iff authority list_sessions arg = ground arith
assert_op_allowed_iff authority read_security_state arg = ground arith
assert_op_allowed_iff authority who_am_i arg = ground arith
assert_op_allowed_iff authority (unknown_op name) arg = ground arith
