-- ===== src/Policy/Quorum.antt =====
-- policy-verify.mjs, `verifyEnvelopeSigs`: what its count is a count of.
use mathlib.Core.List.{Memᴰ}
use enclave_gateway.Base.{
  All, Bool-cases, take, ◌&&◌, suc, zero, false, none, refl, Bool, sym, String, List, Option, inr,
  inl, arith, ◌≡◌, true, ◌∷◌, [], some, ℕ, Option-cases,
}
use enclave_gateway.Policy.Json.{Value}
use enclave_gateway.Policy.Core.{has_id, distinct, id_of, same_value, property}
use enclave_gateway.Policy.Row.{
  verify_envelope_sigs, count_sig, count_sigs, Signature, by_id, is_checked_kind,
}

module _ (date : Value → Option ℕ) (sha256 : String → String)
    (counts : String → String → Signature → Value → Value → Bool) (action ph : String)
    (trusted : List Value) (issued : Value) where
  -- A signature of the list counts for the id: it is by a trusted signer of that id and of its kind.
  pub record Vouched (sigs : List (Option Signature)) (id : Value) : Type 0 where
    pub sig : Signature
    pub given : Memᴰ (some sig) sigs
    pub names : sig.signer_id ≡ id
    pub signer : Value
    pub trusted_signer : Memᴰ signer trusted
    pub signer_id : same_value id (id_of signer) ≡ true
    pub kind : same_value (property "kind" signer) sig.kind ≡ true
    pub checked_kind : is_checked_kind sig.kind ≡ true
    pub valid : counts action ph sig signer issued ≡ true

by_id_sound :
    (trusted : List Value) (id : Value) {s : Value}
    → by_id trusted id ≡ some s
    → Memᴰ s trusted × (same_value id (id_of s) ≡ true)
unfolding by_id
by_id_sound [] id e = cc
by_id_sound (t ∷ ts) id {s} e = elim (Option-cases (by_id ts id)) [
  | inl missing ↦
      let same : t ≡ s = ground arith in (Memᴰ.head (sym same), rw (← same) (ground arith))
  | inr (u, found) ↦
      let same : u ≡ s = ground arith in
      let (m, t') = by_id_sound ts id found in (rw (← same) (Memᴰ.tail m), rw (← same) t')
]

mem-take {ℓ} : {A : Type ℓ} {x : A} (n : ℕ) (xs : List A) → Memᴰ x (take n xs) → Memᴰ x xs
mem-take zero xs m = elim m [ ]
mem-take (suc n) [] m = elim m [ ]
mem-take (suc n) (y ∷ xs) (Memᴰ.head e) = Memᴰ.head e
mem-take (suc n) (y ∷ xs) (Memᴰ.tail m) = Memᴰ.tail (mem-take n xs m)

module _ (date : Value → Option ℕ) (sha256 : String → String)
    (counts : String → String → Signature → Value → Value → Bool) (action ph : String)
    (trusted : List Value) (issued : Value) (sigs : List (Option Signature)) where
  -- The ids are distinct, and each is vouched for.
  pub record Quorum (ids : List Value) : Type 0 where
    pub different : distinct ids ≡ true
    pub vouched : All (Vouched date sha256 counts action ph trusted issued sigs) ids

  added-Quorum :
      (valid : List Value) (sig : Signature) (found : Option Value)
      → Memᴰ (some sig) sigs
      → Quorum valid
      → has_id valid sig.signer_id ≡ false
      → by_id trusted sig.signer_id ≡ found
      → Quorum (count_sig date sha256 counts action ph trusted issued valid (some sig))
  unfolding count_sig
  added-Quorum valid sig none m q fresh f = rw (fresh, f, count_sig) q
  added-Quorum valid sig (some signer) m q fresh f =
      elim (Bool-cases (
        same_value (property "kind" signer) sig.kind
        && is_checked_kind sig.kind
        && counts action ph sig signer issued)) [
          | inl good ↦
              let (trusted_signer, same) = by_id_sound trusted sig.signer_id f in
              rw (fresh, f, good, count_sig)
                (record {
                  different = ground (arith, q.different);
                  vouched = (
                    record {
                      sig = sig;
                      given = m;
                      names = refl;
                      signer = signer;
                      trusted_signer = trusted_signer;
                      signer_id = same;
                      kind = ground arith;
                      checked_kind = ground arith;
                      valid = ground arith;
                    },
                    q.vouched,
                  );
                })
          | inr bad ↦ rw (fresh, f, bad, count_sig) q
        ]

  count_sig-Quorum :
      (valid : List Value) (o : Option Signature)
      → Memᴰ o sigs
      → Quorum valid
      → Quorum (count_sig date sha256 counts action ph trusted issued valid o)
  count_sig-Quorum valid none m q = unfold count_sig in q
  count_sig-Quorum valid (some sig) m q = elim (Bool-cases (has_id valid sig.signer_id)) [
    | inl old ↦ unfold count_sig in rw old q
    | inr fresh ↦ added-Quorum valid sig (by_id trusted sig.signer_id) m q fresh refl
  ]

  count_sigs-Quorum :
      (ss : List (Option Signature)) (valid : List Value)
      → ((o : Option Signature) → Memᴰ o ss → Memᴰ o sigs)
      → Quorum valid
      → Quorum (count_sigs date sha256 counts action ph trusted issued valid ss)
  unfolding count_sigs
  count_sigs-Quorum [] valid within q = q
  count_sigs-Quorum (o ∷ ss) valid within q =
      count_sigs-Quorum ss (count_sig date sha256 counts action ph trusted issued valid o)
        (λ x m. within x (Memᴰ.tail m)) (count_sig-Quorum valid o (within o (Memᴰ.head refl)) q)

  -- What is counted are distinct ids, each of a trusted signer, with a signature among those given
  -- that is of the signer's kind and passes its check.
  pub verify_envelope_sigs-Quorum :
      Quorum (verify_envelope_sigs date sha256 counts action ph sigs trusted issued)
  unfolding verify_envelope_sigs
  verify_envelope_sigs-Quorum =
      count_sigs-Quorum (take 16 sigs) [] (λ o m. mem-take 16 sigs m)
        (record { different = refl; vouched = tt })
