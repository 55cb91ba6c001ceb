-- ===== src/Brain/Sets.antt =====
-- brain.mjs: the membership of a set after `Set.add`.
use enclave_gateway.Base.{
  ◌⊎◌, ◌||◌, ◌++◌, inr, inl, arith, ◌≡◌, true, ◌∷◌, [], refl, List, String, eqs, eqs_iff,
  Bool-cases, subst,
}
use enclave_gateway.Replay.Geo.{has, add}

has-append : (xs ys : List String) (y : String) → has (xs ++ ys) y ≡ (has xs y || has ys y)
has-append [] ys y = refl
has-append (x ∷ xs) ys y = let ih = has-append xs ys y in ground arith

pub has-add :
    (xs : List String) (x y : String) → has (add xs x) y ≡ true → (has xs y ≡ true) ⊎ (x ≡ y)
unfolding add
has-add xs x y h = elim (Bool-cases (has xs x)) [
  | inl e ↦ inl (rw e at h)
  | inr e ↦ elim (Bool-cases (has xs y)) [
    | inl q ↦ inl q
    | inr q ↦ let both = has-append xs (x ∷ []) y in inr ((eqs_iff x y).0 (ground arith))
  ]
]

pub add-has :
    (xs : List String) (x y : String) → (has xs y ≡ true) ⊎ (x ≡ y) → has (add xs x) y ≡ true
unfolding add
add-has xs x y h = elim (Bool-cases (has xs x)) [
  | inl e ↦ rw e (elim h [ inl q ↦ q | inr q ↦ subst (λ z. has xs z ≡ true) q e ])
  | inr e ↦
      rw (e, has-append xs (x ∷ []) y)
        (elim h [
          | inl q ↦ ground arith
          | inr q ↦ let same : eqs x y ≡ true = (eqs_iff x y).1 q in ground arith
        ])
]
