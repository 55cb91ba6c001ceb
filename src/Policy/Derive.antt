-- ===== src/Policy/Derive.antt =====
-- policy-verify.mjs, `deriveAuthority`: what the chain behind a derived authority is.
use enclave_gateway.Policy.Json.{Value}
use enclave_gateway.Policy.Core.{Core}
use enclave_gateway.Policy.Row.{
  given, next_version, Row, Config, RowError, Signature, verify_envelope_row,
}
use enclave_gateway.Policy.Accepts.{Accepted, verify_envelope_row-Accepted}
use enclave_gateway.Policy.Chain.{
  at_head, walk_all, check_head, derive_authority, authority_of, PolicyAuthority, Anchor,
  ChainError, insert_row, sort_rows, walk, from_row,
}
use enclave_gateway.Base.{
  sym, >>=-eq-ok, ◌+◌, true, none, subst, ap, ◌∙◌, suc, arith, ◌≡◌, ok, ◌∷◌, [], some, refl, Result,
  List, Option, String, Bool, ℕ, length, first_ok, second_ok,
}

length-insert_row : (r : Row) (rows : List Row) → length (insert_row r rows) ≡ suc (length rows)
unfolding insert_row
length-insert_row r [] = refl
length-insert_row r (s ∷ ss) = let ih = length-insert_row r ss in ground arith

pub length-sort_rows : (rows : List Row) → length (sort_rows rows) ≡ length rows
unfolding sort_rows
length-sort_rows [] = refl
length-sort_rows (r ∷ rs) = length-insert_row r (sort_rows rs) ∙ ap suc (length-sort_rows rs)

module _ (date : Value → Option ℕ) (sha256 : String → String)
    (counts : String → String → Signature → Value → Value → Bool) (cfg : Config) where
  -- Rows of which each is accepted on top of the core of the one before, up to a head.
  pub data Chain : Option Core → List Row → Row → Core → Type 0 where
    head :
        {prev : Option Core} (row : Row) (core : Core)
        → Accepted date sha256 counts cfg prev row core
        → Chain prev (row ∷ []) row core
    next :
        {prev : Option Core} {rows : List Row} {last : Row} {top : Core} (row : Row) (core : Core)
        → Accepted date sha256 counts cfg prev row core
        → Chain (some core) rows last top
        → Chain prev (row ∷ rows) last top

  from_row_ok : (n : ℕ) (r : Result RowError (Unit {0})) → from_row n r ≡ ok tt → r ≡ ok tt
  from_row_ok n r e = ground arith

  ok-injective : (a b : Row) (r : Result ChainError Row) → r ≡ ok a → r ≡ ok b → a ≡ b
  ok-injective a b r p q = cc

  walk-Chain :
      (prev : Option Core) (row : Row) (rows : List Row) (last : Row)
      → walk date sha256 counts cfg prev row rows ≡ ok last
      → (top : Core) × Chain prev (row ∷ rows) last top × (last.core ≡ some top)
  unfolding walk
  walk-Chain prev row [] last e =
      let accepts = verify_envelope_row date sha256 counts cfg row prev in
      let (core, accepted) =
        verify_envelope_row-Accepted date sha256 counts cfg row prev
          (from_row_ok row.version accepts (first_ok (from_row row.version accepts) (ok row) e)) in
      let q =
        ok-injective row last (ok row) refl (second_ok (from_row row.version accepts) (ok row) e) in
      (
        core,
        subst (λ l. Chain prev (row ∷ []) l core) q (head row core accepted),
        subst (λ l. l.core ≡ some core) q accepted.at,
      )
  walk-Chain prev row (r ∷ rows) last e =
      let accepts = verify_envelope_row date sha256 counts cfg row prev in
      let later = walk date sha256 counts cfg row.core r rows in
      let (core, accepted) =
        verify_envelope_row-Accepted date sha256 counts cfg row prev
          (from_row_ok row.version accepts (first_ok (from_row row.version accepts) later e)) in
      let rest = second_ok (from_row row.version accepts) later e in
      let (top, chain, at) =
        walk-Chain (some core) r rows last
          (subst (λ c. walk date sha256 counts cfg c r rows ≡ ok last) accepted.at rest) in
      (top, next row core accepted chain, at)

  -- The versions of a chain run from the one that is due, without a gap.
  Chain-version :
      {prev : Option Core} {rows : List Row} {last : Row} {top : Core}
      → Chain prev rows last top
      → (top.policy_version + 1 ≡ next_version prev + length rows)
        × (last.version ≡ top.policy_version)
  Chain-version (head row core a) = let w = a.well_formed in ground arith
  Chain-version (next row core a c) =
      let w = a.well_formed in let ih = Chain-version c in ground arith

  -- What a derived authority stands on.
  pub record Derived (rows : List Row) (anchor : Option Anchor) (a : PolicyAuthority) : Type 0 where
    pub last : Row
    pub top : Core
    pub chain : Chain none (sort_rows rows) last top
    pub is_head : a ≡ authority_of date sha256 counts cfg last top
    pub version : a.head_version ≡ length rows
    pub anchored : (x : Anchor) → anchor ≡ some x → x.version ≡ length rows
    pub hash : (x : Anchor) → anchor ≡ some x → given x.hash ≡ true → x.hash ≡ some a.head_hash

  check_head_sound :
      (x : Anchor) (a : PolicyAuthority)
      → check_head date sha256 counts cfg (some x) a ≡ ok tt
      → (a.head_version ≡ x.version) × (given x.hash ≡ true → x.hash ≡ some a.head_hash)
  check_head_sound x a e = ground arith

  walk_all-Chain :
      (rows : List Row) (last : Row)
      → walk_all date sha256 counts cfg rows ≡ ok last
      → (top : Core) × Chain none rows last top × (last.core ≡ some top)
  unfolding walk_all
  walk_all-Chain [] last e = ground arith
  walk_all-Chain (row ∷ rows) last e = walk-Chain none row rows last e

  at_head_sound :
      (anchor : Option Anchor) (last : Row) (top : Core) (a : PolicyAuthority)
      → at_head date sha256 counts cfg anchor last (some top) ≡ ok a
      → (check_head date sha256 counts cfg anchor (authority_of date sha256 counts cfg last top)
          ≡ ok tt)
        × (authority_of date sha256 counts cfg last top ≡ a)
  at_head_sound anchor last top a e = ground arith

  authority_of-version :
      (last : Row) (top : Core)
      → (authority_of date sha256 counts cfg last top).head_version ≡ last.version
  unfolding authority_of
  authority_of-version last top = refl

  -- A derived authority is the one of the head of a chain that starts at an anchor row, in which
  -- every row is accepted on top of the one before it; the chain is all of the rows given, in the
  -- order of their versions, and they are versions one to their number; and an anchored head is met,
  -- its version and, where it has one, its hash.
  pub derive_authority-Derived :
      (rows : List Row) (anchor : Option Anchor) (a : PolicyAuthority)
      → derive_authority date sha256 counts cfg rows anchor ≡ ok a
      → Derived rows anchor a
  unfolding derive_authority walk_all
  derive_authority-Derived rows anchor a e =
      let (last, walked, ended) =
        >>=-eq-ok (walk_all date sha256 counts cfg (sort_rows rows))
          (λ l. at_head date sha256 counts cfg anchor l l.core) e in
      let (top, chain, at) = walk_all-Chain (sort_rows rows) last walked in
      let (checked, is_head) =
        at_head_sound anchor last top a
          (subst (λ c. at_head date sha256 counts cfg anchor last c ≡ ok a) at ended) in
      let head_version =
        subst (λ x. x.head_version ≡ last.version) is_head (authority_of-version last top) in
      let checks =
        subst (λ x. check_head date sha256 counts cfg anchor x ≡ ok tt) is_head checked in
      let (run, same) = Chain-version chain in
      let number = length-sort_rows rows in
      let numbered : a.head_version ≡ length rows = ground arith in
      record {
        last = last;
        top = top;
        chain = chain;
        is_head = sym is_head;
        version = numbered;
        anchored = λ x q.
            sym
              (check_head_sound x a
                (subst (λ o. check_head date sha256 counts cfg o a ≡ ok tt) q checks)).0
            ∙ numbered;
        hash = λ x q.
            (check_head_sound x a
              (subst (λ o. check_head date sha256 counts cfg o a ≡ ok tt) q checks)).1;
      }
