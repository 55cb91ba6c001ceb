-- ===== src/Arming/Loaded.antt =====
-- What the results of the loading and of its checks tell.
use mathlib.Core.List.{Memᴰ}
use enclave_gateway.Base.{
  ap, sym, ◌∙◌, true, false, List, [], ◌∷◌, String, Option, none, some, Result, ok, raise, ◌==◌,
  ◌≡◌, arith, Bool-cases, inl, inr,
}
use enclave_gateway.Policy.Json.{Value, Values, arr, canonical_eq, num}
use enclave_gateway.Policy.Core.{Core, same_value}
use enclave_gateway.Policy.Row.{Row}
use enclave_gateway.Policy.Chain.{ChainError}
use enclave_gateway.Envelope.Aad.{EnvelopeError}
use enclave_gateway.Arming.Genesis.{
  effect, from_chain, from_envelope, genesis_of, from_genesis, malformed_genesis, with_core, is_nil,
  check_owner,
}

pub ok_inj : {E A : Type 0} (x y : A) → ◌≡◌ {A = Result E A} (ok x) (ok y) → x ≡ y
ok_inj x y e = ground arith

raise_not_ok :
    {E A : Type 0} (P : Type 0) (x : E) (y : A) → ◌≡◌ {A = Result E A} (raise x) (ok y) → P
raise_not_ok P x y e = cc

pub effect_sound : {A : Type 0} (m : Result String A) (x : A) → effect m ≡ ok x → m ≡ ok x
effect_sound (ok a) x e = ground arith
effect_sound (raise r) x e = cc

pub from_chain_sound :
    {A : Type 0} (m : Result ChainError A) (x : A) → from_chain m ≡ ok x → m ≡ ok x
from_chain_sound (ok a) x e = ground arith
from_chain_sound (raise r) x e = cc

pub from_envelope_sound :
    {A : Type 0} (m : Result EnvelopeError A) (x : A) → from_envelope m ≡ ok x → m ≡ ok x
from_envelope_sound (ok a) x e = ground arith
from_envelope_sound (raise r) x e = cc

-- The genesis is a row of version 1.
pub genesis_of_sound :
    (rows : List Row) (g : Row) → genesis_of rows ≡ some g → Memᴰ g rows × (g.version ≡ 1)
unfolding genesis_of
genesis_of_sound [] g e = cc
genesis_of_sound (r ∷ rs) g e = elim (Bool-cases (r.version == 1)) [
  | inl h ↦
      let same : g ≡ r = ground arith in
      (Memᴰ.head same, ap (λ x. x.version) same ∙ ground (arith, h))
  | inr h ↦ let (m, v) = genesis_of_sound rs g (rw h at e) in (Memᴰ.tail m, v)
]

with_core_sound :
    (g h : Row) (o : Option Core) (c : Core) → with_core g o ≡ ok (h, c) → (h ≡ g) × (o ≡ some c)
with_core_sound g h none c e = cc
with_core_sound g h (some d) c e = elim (Bool-cases (same_value d.v (num 1))) [
  | inl t ↦
      let e : ok (g, d) ≡ ok (h, c) = rw t at e in
      let same = ok_inj (g, d) (h, c) e in (sym (ap (λ p. p.0) same), ap (λ p. some (p.1)) same)
  | inr t ↦ raise_not_ok _ malformed_genesis (h, c) (rw t at e)
]

pub from_genesis_sound :
    (o : Option Row) (g : Row) (c : Core)
    → from_genesis o ≡ ok (g, c)
    → (o ≡ some g) × (g.core ≡ some c)
from_genesis_sound none g c e = cc
from_genesis_sound (some r) g c e =
    let (same, core) = with_core_sound r g r.core c e in
    (ap some (sym same), ap (λ x. x.core) same ∙ core)

pub check_owner_sound :
    (vs : Values) (signers : Value)
    → check_owner vs signers ≡ ok tt
    → (is_nil vs ≡ false) × (canonical_eq (arr vs) signers ≡ true)
unfolding check_owner
check_owner_sound vs signers e = ground arith
