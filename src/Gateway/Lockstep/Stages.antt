-- ===== src/Gateway/Lockstep/Stages.antt =====
-- gateway.mjs, `reconcilePolicy`: the derivations at the rows of a chain that derives an authority.
use enclave_gateway.Base.{
  eqs_refl, ℕ, ◌≤◌, List, ◌∷◌, none, some, ok, length, ◌≡◌, refl, sym, ap, subst, ◌∙◌, arith,
  eqs_refl,
}
use enclave_gateway.Policy.Core.{Core}
use enclave_gateway.Policy.Row.{Row, payload_hash}
use enclave_gateway.Policy.Chain.{
  check_head, PolicyAuthority, walk, walk_all, sort_rows, derive_authority, authority_of,
}
use enclave_gateway.Gateway.Intake.{Env, by_version, up_to, derive, derive_at, anchor_at}
use enclave_gateway.Gateway.Lockstep.Prefix.{
  sort_rows-Numbered, up_to-Numbered, up_to-length, up_to-first,
}
use enclave_gateway.Gateway.Lockstep.Head.{by_version-version}
use enclave_gateway.Gateway.Lockstep.Reach.{walk-Reaches, walk-Numbered}

module _ (env : Env) where
  head_met :
      (r : Row) (c : Core)
      → check_head env.date env.sha256 env.counts env.config
          (some (record {
            version = r.version;
            hash = some (payload_hash env.date env.sha256 env.counts r.action c.body);
          }))
          (authority_of env.date env.sha256 env.counts env.config r c)
        ≡ ok tt
  unfolding authority_of payload_hash
  head_met r c =
      let same = eqs_refl (payload_hash env.date env.sha256 env.counts r.action c.body) in
      ground (arith, same)

  derive-end :
      (rows : List Row) (r : Row) (c : Core)
      → walk_all env.date env.sha256 env.counts env.config (sort_rows rows) ≡ ok r
      → r.core ≡ some c
      → derive env rows (anchor_at env r)
        ≡ ok (authority_of env.date env.sha256 env.counts env.config r c)
  unfolding derive_authority authority_of
  derive-end rows r c e at = rw (e, at, head_met r c) refl

  -- The row of a version of a chain, and the authority that the rows up to it derive.
  pub record Stage (rows : List Row) (w : ℕ) : Type 0 where
    pub row : Row
    pub authority : PolicyAuthority
    pub listed : by_version w rows ≡ some row
    pub version : row.version ≡ w
    pub derived : derive_at env rows row ≡ ok authority

  pub walk-Stage :
      (first : Row) (rest : List Row) (last : Row) (w : ℕ)
      → walk env.date env.sha256 env.counts env.config none first rest ≡ ok last
      → 1 ≤ w
      → w ≤ length (first ∷ rest)
      → Stage (first ∷ rest) w
  unfolding walk_all
  walk-Stage first rest last w e ge le =
      let n = walk-Numbered env.date env.sha256 env.counts env.config none first rest last e in
      let h =
        walk-Reaches env.date env.sha256 env.counts env.config none first rest last w e ge
          (omega (arith, le)) in
      let version = by_version-version w (first ∷ rest) h.end h.listed in
      let shape = up_to-first w first rest (omega (arith, n.0, ge)) in
      let sorted = sort_rows-Numbered 1 _ (up_to-Numbered 1 w (first ∷ rest) n) ∙ shape in
      record {
        row = h.end;
        authority = authority_of env.date env.sha256 env.counts env.config h.end h.core;
        listed = h.listed;
        version = version;
        derived =
            subst
              (λ v.
                derive env (up_to v (first ∷ rest)) (anchor_at env h.end)
                ≡ ok (authority_of env.date env.sha256 env.counts env.config h.end h.core))
              (sym version)
              (derive-end (up_to w (first ∷ rest)) h.end h.core
                (ap (walk_all env.date env.sha256 env.counts env.config) sorted ∙ h.walked) h.at);
      }

  -- The whole chain is the rows up to its head.
  pub whole-derive_at :
      (rows : List Row) (first : Row) (rest : List Row) (last : Row) (head : Row)
      → sort_rows rows ≡ first ∷ rest
      → walk env.date env.sha256 env.counts env.config none first rest ≡ ok last
      → head.version ≡ length (first ∷ rest)
      → derive_at env (first ∷ rest) head ≡ derive env rows (anchor_at env head)
  unfolding derive_authority
  whole-derive_at rows first rest last head s e at =
      let n = walk-Numbered env.date env.sha256 env.counts env.config none first rest last e in
      let all = up_to-length 1 head.version (first ∷ rest) n (omega (arith, at)) in
      let same : sort_rows (up_to head.version (first ∷ rest)) ≡ sort_rows rows =
        ap sort_rows all ∙ sort_rows-Numbered 1 (first ∷ rest) n ∙ sym s in
      rw same refl
