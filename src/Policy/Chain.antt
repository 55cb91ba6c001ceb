-- ===== src/Policy/Chain.antt =====
-- policy-verify.mjs, `deriveAuthority`: the walk over the whole chain, and the authority at its head.
use enclave_gateway.Base.{
  same?, filter, not, eqs, ltb, throw_if, Result, List, Option, if◌then◌else◌, ◌>>◌, ◌>>=◌, ◌&&◌,
  ◌==◌, raise, ok, ◌∷◌, [], some, none, ℕ, String, Bool,
}
use enclave_gateway.Policy.Json.{Value, undefined, null, str}
use enclave_gateway.Policy.Core.{Core, items, is_nullish, is_truthy, is_text, property}
use enclave_gateway.Policy.Row.{
  given, Row, Config, RowError, Signature, verify_envelope_row, payload_hash,
}

-- `anchor`; its hash is not compared where it is null or empty.
pub record Anchor : Type 0 where
  pub version : ℕ
  pub hash : Option String

-- The authority that the gateway enforces. Of the two lists that the code maps through `String` and
-- `toUpperCase`, the entries stand here as they are before that.
pub record PolicyAuthority : Type 0 where
  pub whitelist : Value
  pub signers : Value
  pub threshold : Value
  pub reset_protection : Bool
  pub reset_allowed_until : Value
  pub disconnected : Bool
  pub contest_protection : Value
  pub allow_ip_jumping : List Value
  pub enroll_until : Value
  pub locality_allowlist : List (String × Value)
  pub travel_mode : Bool
  pub country_allowlist : List Value
  pub travel_until : Value
  pub head_version : ℕ
  pub head_hash : String

pub data ChainError : Type 0 where
  empty_chain head_version_mismatch head_hash_mismatch : ChainError
  bad_row : ℕ → RowError → ChainError

-- `sort((a, b) => a.version - b.version)`, which is stable
unfoldable pub insert_row : Row → List Row → List Row
insert_row r [] = r ∷ []
insert_row r (s ∷ ss) = if ltb s.version r.version then s ∷ insert_row r ss else r ∷ s ∷ ss

unfoldable pub sort_rows : List Row → List Row
unfolding insert_row
sort_rows [] = []
sort_rows (r ∷ rs) = insert_row r (sort_rows rs)

-- `v ?? null`
abbrev pub or_null : Value → Value
or_null undefined = null
or_null v = v

-- `v ?? "alert"`
abbrev pub or_alert : Value → Value
or_alert undefined = str "alert"
or_alert null = str "alert"
or_alert v = v

-- The entries of a locality allowlist that have a text for `loc`.
unfoldable pub localities : List Value → List (String × Value)
localities [] = []
localities (e ∷ es) = elim (property "loc" e) [
  | str loc ↦ (loc, or_null (property "until" e)) ∷ localities es
  | _ ↦ localities es
]

abbrev pub from_row : ℕ → Result RowError (Unit {0}) → Result ChainError (Unit {0})
from_row version (ok _) = ok tt
from_row version (raise e) = raise (bad_row version e)

module _ (date : Value → Option ℕ) (sha256 : String → String)
    (counts : String → String → Signature → Value → Value → Bool) (cfg : Config) where
  -- The loop, from the core that was accepted last; the result is the last row.
  unfoldable pub walk : Option Core → Row → List Row → Result ChainError Row
  walk prev row [] = do
    from_row row.version (verify_envelope_row date sha256 counts cfg row prev)
    ok row
  walk prev row (next ∷ rows) = do
    from_row row.version (verify_envelope_row date sha256 counts cfg row prev)
    walk row.core next rows

  unfoldable pub walk_all : List Row → Result ChainError Row
  walk_all [] = raise empty_chain
  walk_all (row ∷ rows) = walk none row rows

  unfoldable pub authority_of : Row → Core → PolicyAuthority
  unfolding localities payload_hash
  authority_of head c = record {
    whitelist = c.whitelist;
    signers = c.signers;
    threshold = c.threshold;
    reset_protection = is_nullish c.reset_allowed_until;
    reset_allowed_until = or_null c.reset_allowed_until;
    disconnected = eqs head.action "disconnect";
    contest_protection = or_alert c.contest_protection;
    allow_ip_jumping = items c.allow_ip_jumping;
    enroll_until = or_null c.enroll_until;
    locality_allowlist = localities (items c.locality_allowlist);
    travel_mode = is_truthy c.travel_mode;
    country_allowlist = filter is_text (items c.country_allowlist);
    travel_until = or_null c.travel_until;
    head_version = head.version;
    head_hash = payload_hash date sha256 counts head.action c.body;
  }

  -- The head against the anchored one.
  abbrev pub check_head : Option Anchor → PolicyAuthority → Result ChainError (Unit {0})
  check_head none a = ok tt
  check_head (some anchor) a = do
    throw_if (not (a.head_version == anchor.version)) head_version_mismatch
    throw_if (given anchor.hash && not (same? anchor.hash a.head_hash)) head_hash_mismatch

  abbrev pub at_head : Option Anchor → Row → Option Core → Result ChainError PolicyAuthority
  at_head anchor head none = raise (bad_row head.version RowError.malformed_core)
  at_head anchor head (some c) = do
    check_head anchor (authority_of head c)
    ok (authority_of head c)

  unfoldable pub derive_authority : List Row → Option Anchor → Result ChainError PolicyAuthority
  derive_authority rows anchor = do head ← walk_all (sort_rows rows); at_head anchor head head.core
