-- ===== src/Policy/Keys/Removed.antt =====
-- policy-verify.mjs, `remove-key`: what it does to the set of signers.
use enclave_gateway.Base.{
  All-mono, All, second_ok, Option, map, sym, List, Option, ◌+◌, ◌∙◌, inr, inl, arith, ◌≡◌, true,
  false, ok, ◌∷◌, [], some, none, refl, second_ok, All, ℕ, find, length, Bool-cases, min, ap, subst,
  eqs_iff,
}
use mathlib.Core.List.{Memᴰ}
use enclave_gateway.Policy.Json.{Value, num}
use enclave_gateway.Policy.Core.{Core, items, Core, items, id_of, same_value, has_id, distinct}
use enclave_gateway.Policy.Action.{remove_key}
use enclave_gateway.Policy.Delta.{verify_delta, remove_key_check, min_threshold, same_number}
use enclave_gateway.Policy.Keys.{Survivor, matches, surviving_sound, bump, count_new}

-- One signer fewer: exactly one of the signers before has an id that is left, the others are as they
-- were, and the threshold is lowered only as far as it must be.
pub record KeyRemoved (prev core : Core) : Type 0 where
  pub count : length (items core.signers) + 1 ≡ length (items prev.signers)
  pub one_dropped : count_new (items core.signers) (items prev.signers) ≡ 1
  pub others : All (Survivor (items prev.signers)) (items core.signers)
  pub threshold :
      (n : ℕ) × (prev.threshold ≡ num n)
      × (core.threshold ≡ num (min n (length (items core.signers))))

threshold_lowered :
    (v w : Value) (n : ℕ)
    → same_number (min_threshold v n) w ≡ true
    → (k : ℕ) × (v ≡ num k) × (w ≡ num (min k n))
threshold_lowered (num k) (num m) n e = (k, refl, ground arith)
threshold_lowered (num k) Value.undefined n e = cc
threshold_lowered (num k) _ n e = cc
threshold_lowered _ w n e = cc

same_value-eq : (x y : Value) → same_value x y ≡ true → x ≡ y
same_value-eq Value.undefined Value.undefined e = refl
same_value-eq Value.null Value.null e = refl
same_value-eq (Value.bool true) (Value.bool true) e = refl
same_value-eq (Value.bool false) (Value.bool false) e = refl
same_value-eq (num n) (num m) e = ap num (ground (arith, e))
same_value-eq (Value.other_num s) (Value.other_num t) e = ap Value.other_num ((eqs_iff s t).0 e)
same_value-eq (Value.str s) (Value.str t) e = ap Value.str ((eqs_iff s t).0 e)
same_value-eq _ _ e = cc

same_value_sym : (x y : Value) → same_value x y ≡ true → same_value y x ≡ true
same_value_sym x y e =
    let q = same_value-eq x y e in
    subst (λ z. same_value z x ≡ true) q (subst (λ z. same_value x z ≡ true) (sym q) e)

-- No signer of the list has the id of `s`.
missing :
    (s : Value) (ss : List Value)
    → has_id (map id_of ss) (id_of s) ≡ false
    → find (matches s) ss ≡ none
missing s [] h = refl
missing s (x ∷ ss) h = elim (Bool-cases (matches s x)) [
  | inl e ↦ let back = same_value_sym (id_of x) (id_of s) e in ground (arith, h, back)
  | inr e ↦ rw e (missing s ss (ground (arith, h)))
]

-- A signer that none of the others shares the id of does not count among them.
count_new-other :
    (c : Value) (cs ps : List Value)
    → has_id (map id_of ps) (id_of c) ≡ false
    → count_new (c ∷ cs) ps ≡ count_new cs ps
count_new-other c cs [] h = refl
count_new-other c cs (p ∷ ps) h =
    let other : matches p c ≡ false = ground (arith, h) in
    rw other (ap (bump (find (matches p) cs)) (count_new-other c cs ps (ground (arith, h))))

bump-next : (o : Option Value) (n : ℕ) → bump o n + 1 ≡ bump o (n + 1)
bump-next none n = refl
bump-next (some x) n = refl

-- One signer more of those before is one fewer that is missing.
count_new-next :
    (c : Value) (cs ps : List Value)
    → distinct (map id_of ps) ≡ true
    → has_id (map id_of ps) (id_of c) ≡ true
    → has_id (map id_of cs) (id_of c) ≡ false
    → count_new (c ∷ cs) ps + 1 ≡ count_new cs ps
count_new-next c cs [] d known new = cc
count_new-next c cs (p ∷ ps) d known new = elim (Bool-cases (matches p c)) [
  | inl e ↦
      let same = same_value-eq (id_of c) (id_of p) e in
      let gone = missing p cs (subst (λ x. has_id (map id_of cs) x ≡ false) same new) in
      let alone : has_id (map id_of ps) (id_of c) ≡ false =
        subst (λ x. has_id (map id_of ps) x ≡ false) (sym same) (ground (arith, d)) in
      rw (e, gone) (ap (λ n. n + 1) (count_new-other c cs ps alone))
  | inr e ↦
      let ih = count_new-next c cs ps (ground (arith, d)) (ground (arith, known, e)) new in
      rw e (
        bump-next (find (matches p) cs) (count_new (c ∷ cs) ps)
        ∙ ap (bump (find (matches p) cs)) ih)
]

count_new-none : (ps : List Value) → count_new [] ps ≡ length ps
count_new-none [] = refl
count_new-none (p ∷ ps) = ap (λ n. n + 1) (count_new-none ps) ∙ omega arith

abbrev Known : List Value → Value → Type 0
Known ps c = has_id (map id_of ps) (id_of c) ≡ true

-- Signers of different ids, each of which was there, are as many as those before less the missing.
count_new-length :
    (cs ps : List Value)
    → distinct (map id_of ps) ≡ true
    → distinct (map id_of cs) ≡ true
    → All (Known ps) cs
    → count_new cs ps + length cs ≡ length ps
count_new-length [] ps d e h = let n = count_new-none ps in omega (arith, n)
count_new-length (c ∷ cs) ps d e (known, h) =
    let next = count_new-next c cs ps d known (ground (arith, e)) in
    let ih = count_new-length cs ps d (ground (arith, e)) h in omega (arith, next, ih)

has_id-mem :
    (x : Value) (ps : List Value) (s : Value)
    → Memᴰ x ps
    → same_value (id_of x) (id_of s) ≡ true
    → Known ps s
has_id-mem x [] s m e = elim m [ ]
has_id-mem x (p ∷ ps) s (Memᴰ.head q) e =
    let back =
      same_value_sym (id_of p) (id_of s) (subst (λ y. same_value (id_of y) (id_of s) ≡ true) q e) in
    ground (arith, back)
has_id-mem x (p ∷ ps) s (Memᴰ.tail m) e = let ih = has_id-mem x ps s m e in ground (arith, ih)

-- Between two lists of signers of different ids, as `verifyEnvelopeRow` asks of every core, a verified
-- removal of a key drops exactly one signer, keeps every other one unaltered, and sets the threshold
-- to the least of the old one and the number of signers that remain.
pub remove_key-KeyRemoved :
    (date : Value → Option ℕ) (prev core : Core)
    → distinct (map id_of (items prev.signers)) ≡ true
    → distinct (map id_of (items core.signers)) ≡ true
    → verify_delta date remove_key prev core ≡ ok tt
    → KeyRemoved prev core
unfolding verify_delta
remove_key-KeyRemoved date prev core before after e =
    let h : remove_key_check prev core ≡ ok tt = second_ok _ (remove_key_check prev core) e in
    let others =
      surviving_sound (items prev.signers) (items core.signers)
        (unfold remove_key_check in ground arith) in
    let known =
      All-mono (Survivor (items prev.signers)) (Known (items prev.signers))
        (λ s k. has_id-mem k.was (items prev.signers) s k.listed k.same_id) (items core.signers)
        others in
    let count : length (items core.signers) + 1 ≡ length (items prev.signers) =
      unfold remove_key_check in ground arith in
    let sum = count_new-length (items core.signers) (items prev.signers) before after known in
    record {
      count = count;
      one_dropped = omega (arith, count, sum);
      others = others;
      threshold =
          threshold_lowered prev.threshold core.threshold (length (items core.signers))
            (unfold remove_key_check in ground arith);
    }
