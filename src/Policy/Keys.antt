-- ===== src/Policy/Keys.antt =====
-- policy-verify.mjs, `remove-key` and `add-key`: what they do to the set of signers.
use mathlib.Core.List.{Memᴰ}
use enclave_gateway.Base.{
  if◌then◌else◌, ◌↔◌, ◌≢◌, ◌%◌, ◌/◌, ◌*◌, ◌-◌, ◌>>=◌, ◌≤◌, ◌<◌, ◌||◌, ◌&&◌, ◌++◌, suc, zero, ◌==◌,
  false, raise, all, map, not, sym, List, Bool, Option, ◌+◌, ◌>>◌, ◌∙◌, ◌⊎◌, inr, inl, arith, ◌≡◌,
  true, ok, ◌∷◌, [], some, none, refl, second_ok, All, throw_if, ℕ, find, length, Bool-cases, min,
}
use enclave_gateway.Policy.Json.{Value, canonical_eq, num}
use enclave_gateway.Policy.Core.{Core, items, id_of, same_value, has_id}
use enclave_gateway.Policy.Action.{
  remove_key, add_key, valid_new_signer, altered_signer, malformed_signer,
}
use enclave_gateway.Policy.Delta.{
  verify_delta, surviving, added_signers, remove_key_check, add_key_check, min_threshold,
  same_number,
}
pub mod Removed

-- The signer is one of `before`, with the same id and canonically the same.
pub record Survivor (before : List Value) (s : Value) : Type 0 where
  pub was : Value
  pub listed : Memᴰ was before
  pub same_id : same_value (id_of was) (id_of s) ≡ true
  pub unaltered : canonical_eq was s ≡ true

find-mem {ℓ} :
    {A : Type ℓ} (p : A → Bool) (xs : List A) {x : A}
    → find p xs ≡ some x
    → Memᴰ x xs × (p x ≡ true)
find-mem p [] e = cc
find-mem p (y ∷ xs) {x} e = elim (Bool-cases (p y)) [
  | inl t ↦ let same : y ≡ x = ground arith in (Memᴰ.head (sym same), rw (← same) t)
  | inr f ↦ let (m, t) = find-mem p xs (rw f at e) in (Memᴰ.tail m, t)
]

abbrev pub matches : Value → Value → Bool
matches s x = same_value (id_of x) (id_of s)

surviving_step :
    (before : List Value) (s : Value) (ss : List Value) (found : Option Value)
    → find (matches s) before ≡ found
    → surviving before (s ∷ ss) ≡ ok tt
    → Survivor before s × (surviving before ss ≡ ok tt)
unfolding surviving
surviving_step before s ss none f e = cc (rw (f, surviving) at e)
surviving_step before s ss (some x) f e =
    let rest = throw_if (not (canonical_eq x s)) altered_signer >> surviving before ss in
    let e' : rest ≡ ok tt = rw (f, surviving) at e in
    let (listed, same) = find-mem (matches s) before f in
    (
      record { was = x; listed = listed; same_id = same; unaltered = ground arith },
      second_ok (throw_if (not (canonical_eq x s)) altered_signer) (surviving before ss) e',
    )

pub surviving_sound :
    (before ss : List Value) → surviving before ss ≡ ok tt → All (Survivor before) ss
surviving_sound before [] e = tt
surviving_sound before (s ∷ ss) e =
    let (one, rest) = surviving_step before s ss _ refl e in (one, surviving_sound before ss rest)

abbrev pub bump : Option Value → ℕ → ℕ
bump none n = n + 1
bump (some x) n = n

-- How many of the signers have an id that no signer had before.
abbrev pub count_new : List Value → List Value → ℕ
count_new before [] = 0
count_new before (s ∷ ss) = bump (find (matches s) before) (count_new before ss)

pub bump-add : (o : Option Value) (a b : ℕ) → bump o a + b ≡ a + bump o b
bump-add none a b = omega arith
bump-add (some x) a b = refl

-- A signer with a new id that is well formed, or one from before.
abbrev pub NewOrSurvivor : List Value → Value → Type 0
NewOrSurvivor before s =
    ((find (matches s) before ≡ none) × (valid_new_signer s ≡ true)) ⊎ Survivor before s

added_step :
    (before : List Value) (s : Value) (ss : List Value) (added n : ℕ) (found : Option Value)
    → find (matches s) before ≡ found
    → added_signers before (s ∷ ss) added ≡ ok n
    → NewOrSurvivor before s × (added_signers before ss (bump found added) ≡ ok n)
unfolding added_signers
added_step before s ss added n none f e =
    let rest =
      throw_if (not (valid_new_signer s)) malformed_signer >> added_signers before ss (added + 1) in
    let e' : rest ≡ ok n = rw (f, added_signers) at e in
    (
      inl (f, ground arith),
      second_ok (throw_if (not (valid_new_signer s)) malformed_signer)
          (added_signers before ss (added + 1)) e',
    )
added_step before s ss added n (some x) f e =
    let rest = throw_if (not (canonical_eq x s)) altered_signer >> added_signers before ss added in
    let e' : rest ≡ ok n = rw (f, added_signers) at e in
    let (listed, same) = find-mem (matches s) before f in
    (
      inr (record { was = x; listed = listed; same_id = same; unaltered = ground arith }),
      second_ok (throw_if (not (canonical_eq x s)) altered_signer) (added_signers before ss added)
          e',
    )

added_sound :
    (before ss : List Value) (added n : ℕ)
    → added_signers before ss added ≡ ok n
    → All (NewOrSurvivor before) ss × (n ≡ added + count_new before ss)
added_sound before [] added n e = (tt, unfold added_signers in ground arith)
added_sound before (s ∷ ss) added n e =
    let (one, rest) = added_step before s ss added n _ refl e in
    let (all_rest, count) = added_sound before ss (bump (find (matches s) before) added) n rest in
    ((one, all_rest), count ∙ bump-add (find (matches s) before) added (count_new before ss))

-- One signer more: exactly one has a new id and is well formed, the others are as they were, and
-- every id from before is still there.
pub record KeyAdded (prev core : Core) : Type 0 where
  pub count : length (items core.signers) ≡ length (items prev.signers) + 1
  pub kept : all (has_id (map id_of (items core.signers))) (map id_of (items prev.signers)) ≡ true
  pub others : All (NewOrSurvivor (items prev.signers)) (items core.signers)
  pub one_new : count_new (items prev.signers) (items core.signers) ≡ 1

add_key_steps :
    (prev core : Core)
    → add_key_check prev core ≡ ok tt
    → (length (items core.signers) ≡ length (items prev.signers) + 1)
      × (all (has_id (map id_of (items core.signers))) (map id_of (items prev.signers)) ≡ true)
      × (added_signers (items prev.signers) (items core.signers) 0 ≡ ok 1)
add_key_steps prev core e = unfold add_key_check in ground arith

-- A verified addition of a key adds exactly one signer with a new id, which is well formed; it keeps
-- every id from before, and every other signer is unaltered.
pub add_key-KeyAdded :
    (date : Value → Option ℕ) (prev core : Core)
    → verify_delta date add_key prev core ≡ ok tt
    → KeyAdded prev core
unfolding verify_delta
add_key-KeyAdded date prev core e =
    let steps = add_key_steps prev core (second_ok _ (add_key_check prev core) e) in
    let (others, one) = added_sound (items prev.signers) (items core.signers) 0 1 steps.2 in
    record { count = steps.0; kept = steps.1; others = others; one_new = omega arith }
