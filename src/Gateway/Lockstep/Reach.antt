-- ===== src/Gateway/Lockstep/Reach.antt =====
-- gateway.mjs, `reconcilePolicy`: where the whole chain derives an authority, the rows up to each of
-- its versions do so.
use enclave_gateway.Base.{
  ℕ_discrete, ℕ, ◌+◌, ◌≤◌, ◌<◌, Bool, List, [], ◌∷◌, String, Option, some, Result, ok, length, ◌≡◌,
  refl, sym, subst, ◌∙◌, arith, ◌>>◌,
}
use enclave_gateway.Policy.Json.{Value}
use enclave_gateway.Policy.Core.{Core}
use enclave_gateway.Policy.Row.{Row, Config, RowError, Signature, verify_envelope_row, next_version}
use enclave_gateway.Policy.Chain.{ChainError, from_row, walk}
use enclave_gateway.Policy.Accepts.{verify_envelope_row-Accepted}
use enclave_gateway.Gateway.Intake.{by_version, up_to}
use enclave_gateway.Gateway.Lockstep.Prefix.{
  up_to-first, by_version-later, Numbered, Numbered-past, Numbered-missing,
}

module _ (date : Value → Option ℕ) (sha256 : String → String)
    (counts : String → String → Signature → Value → Value → Bool) (cfg : Config) where
  accepts_ok :
      (v : ℕ) (r : Result RowError (Unit {0})) (k : Result ChainError Row) (last : Row)
      → (from_row v r >> k) ≡ ok last
      → (r ≡ ok tt) × (k ≡ ok last)
  accepts_ok v r k last e = ground arith

  -- Where a row is accepted: its version is the one due, and its core is at hand.
  accepts-due :
      (prev : Option Core) (row : Row)
      → verify_envelope_row date sha256 counts cfg row prev ≡ ok tt
      → (row.version ≡ next_version prev)
        × ((c : Core) × (row.core ≡ some c))
        × (next_version row.core ≡ next_version prev + 1)
  accepts-due prev row e =
      let (core, a) = verify_envelope_row-Accepted date sha256 counts cfg row prev e in
      let w = a.well_formed in
      (
        ground (arith, w.version, w.row_version),
        (core, a.at),
        subst (λ c. next_version c ≡ next_version prev + 1) (sym a.at) (ground (arith, w.version)),
      )

  pub walk-Numbered :
      (prev : Option Core) (row : Row) (rows : List Row) (last : Row)
      → walk date sha256 counts cfg prev row rows ≡ ok last
      → Numbered (next_version prev) (row ∷ rows)
  unfolding walk
  walk-Numbered prev row [] last e =
      let (a, _) = accepts_ok row.version _ (ok row) last e in ((accepts-due prev row a).0, tt)
  walk-Numbered prev row (r ∷ rows) last e =
      let (a, e) = accepts_ok row.version _ (walk date sha256 counts cfg row.core r rows) last e in
      let (due, _, later) = accepts-due prev row a in
      (due, subst (λ v. Numbered v (r ∷ rows)) later (walk-Numbered row.core r rows last e))

  -- Every version of the chain has one row, and the walk over the rows up to it ends there.
  pub record Reaches (prev : Option Core) (row : Row) (rows : List Row) (w : ℕ) : Type 0 where
    pub end : Row
    pub core : Core
    pub listed : by_version w (row ∷ rows) ≡ some end
    pub at : end.core ≡ some core
    pub walked : walk date sha256 counts cfg prev row (up_to w rows) ≡ ok end

  Reaches-here :
      (prev : Option Core) (row : Row) (rows : List Row) (w : ℕ)
      → verify_envelope_row date sha256 counts cfg row prev ≡ ok tt
      → row.version ≡ w
      → Numbered (w + 1) rows
      → Reaches prev row rows w
  unfolding walk by_version
  Reaches-here prev row rows w a at n =
      let (_, (core, there), _) = accepts-due prev row a in
      let missing = Numbered-missing (w + 1) w rows n (omega arith) in
      record {
        end = row;
        core = core;
        listed = rw missing (ground (arith, at));
        at = there;
        walked = rw (Numbered-past (w + 1) w rows n (omega arith), a) refl;
      }

  Reaches-later :
      (prev : Option Core) (row r : Row) (rows : List Row) (w : ℕ)
      → verify_envelope_row date sha256 counts cfg row prev ≡ ok tt
      → r.version ≤ w
      → Reaches row.core r rows w
      → Reaches prev row (r ∷ rows) w
  unfolding walk
  Reaches-later prev row r rows w a le h = record {
    end = h.end;
    core = h.core;
    listed = by_version-later w row h.end (r ∷ rows) h.listed;
    at = h.at;
    walked = rw (up_to-first w r rows le, a) h.walked;
  }

  pub walk-Reaches :
      (prev : Option Core) (row : Row) (rows : List Row) (last : Row) (w : ℕ)
      → walk date sha256 counts cfg prev row rows ≡ ok last
      → next_version prev ≤ w
      → w < next_version prev + length (row ∷ rows)
      → Reaches prev row rows w
  unfolding walk
  walk-Reaches prev row [] last w e ge lt =
      let (a, _) = accepts_ok row.version _ (ok row) last e in
      let (due, _, _) = accepts-due prev row a in
      Reaches-here prev row [] w a (omega (arith, due, ge, lt)) tt
  walk-Reaches prev row (r ∷ rows) last w e ge lt =
      let n = walk-Numbered prev row (r ∷ rows) last e in
      let (a, e) = accepts_ok row.version _ (walk date sha256 counts cfg row.core r rows) last e in
      let (due, _, later) = accepts-due prev row a in
      elim (ℕ_discrete w (next_version prev)) [
        | yes q ↦
            Reaches-here prev row (r ∷ rows) w a (due ∙ sym q)
              (subst (λ v. Numbered (v + 1) (r ∷ rows)) (sym q) n.1)
        | no q ↦ Reaches-later prev row r rows w a (omega (arith, n.1.0, q, ge)) (
            walk-Reaches row.core r rows last w e (omega (arith, later, ge, q))
              (omega (arith, later, lt)))
      ]
