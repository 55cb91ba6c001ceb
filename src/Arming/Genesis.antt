-- ===== src/Arming/Genesis.antt =====
-- arm.mjs, `rowToSigner`, `loadGenesis` and `loadRegisteredSigners`, with the checks on what they
-- load, and the records and errors of the arming. The calls that change state are a list, the
-- earliest first.
use enclave_gateway.Base.{
  ℕ, Bool, true, false, List, [], ◌∷◌, String, Option, none, some, Result, ok, raise, ◌>>=◌,
  throw_if, not, ◌==◌, if◌then◌else◌,
}
use enclave_gateway.Policy.Json.{
  Value, Values, nil, cons, str, arr, obj, field, end, num, canonical_eq,
}
use enclave_gateway.Policy.Core.{Core, property, text_is, same_value}
use enclave_gateway.Policy.Row.{Row}
use enclave_gateway.Policy.Chain.{ChainError}
use enclave_gateway.Envelope.Aad.{EnvelopeError}
use enclave_gateway.Envelope.Seal.{Sealed}

-- A row of the table of registered signers.
pub record SignerRow : Type 0 where
  pub id : String
  pub kind : Value
  pub credential : Value

-- The row of a link that waits to be armed.
pub record PendingRow (C : Type 0) : Type 0 where
  pub id : String
  pub state_id : String
  pub tg_user_id : String
  pub signers_commit : Option (List ℕ)
  pub seal_generation : ℕ
  pub kms_context_id : Option (List ℕ)
  pub sealed : Sealed C

pub data ArmError : Type 0 where
  no_genesis malformed_genesis no_signers other_signers : ArmError
  failed : String → ArmError
  unverified : ChainError → ArmError
  bad_envelope : EnvelopeError → ArmError

pub record DataKey : Type 0 where
  pub plaintext_key : List ℕ
  pub encrypted_data_key : List ℕ

-- What the effects answer: a value, or an error with its message. The nonce is the one of the seal.
pub record Answers : Type 0 where
  pub envelopes : Result String (List Row)
  pub signers : Result String (List SignerRow)
  pub open_key : Result String (List ℕ)
  pub data_key : Result String DataKey
  pub context_id : List ℕ
  pub nonce : List ℕ
  pub lease : Result String ℕ
  pub promotion : Result String (Unit {0})
  pub commit : Result String (Unit {0})

-- The seal and the head that an account is armed with.
pub record Armament (C : Type 0) : Type 0 where
  pub genesis_hash : String
  pub signers_commit : String
  pub generation : ℕ
  pub encrypted_data_key : List ℕ
  pub sealed : Sealed C
  pub context_id : List ℕ
  pub digest : List ℕ

-- The calls that change state. The commit names the generation that it replaces.
pub data Call (C : Type 0) : Type 0 where
  acquire_lease : String → Call C
  promote_to_armed : String → ℕ → ℕ → String → Call C
  gateway_complete_arm : String → String → ℕ → Armament C → Call C
  release_lease : String → ℕ → Call C

pub record Done (C : Type 0) : Type 0 where
  pub calls : List (Call C)
  pub result : Result ArmError (Armament C)

abbrev pub effect : {A : Type 0} → Result String A → Result ArmError A
effect (ok a) = ok a
effect (raise e) = raise (failed e)

abbrev pub from_chain : {A : Type 0} → Result ChainError A → Result ArmError A
from_chain (ok a) = ok a
from_chain (raise e) = raise (unverified e)

abbrev pub from_envelope : {A : Type 0} → Result EnvelopeError A → Result ArmError A
from_envelope (ok a) = ok a
from_envelope (raise e) = raise (bad_envelope e)

-- `rows.find((row) => row.version === 1)`
unfoldable pub genesis_of : List Row → Option Row
genesis_of [] = none
genesis_of (r ∷ rs) = if r.version == 1 then some r else genesis_of rs

abbrev pub with_core : Row → Option Core → Result ArmError (Row × Core)
with_core g none = raise malformed_genesis
with_core g (some c) = if same_value c.v (num 1) then ok (g, c) else raise malformed_genesis

abbrev pub from_genesis : Option Row → Result ArmError (Row × Core)
from_genesis none = raise no_genesis
from_genesis (some g) = with_core g g.core

-- The genesis row with its core, of version 1.
abbrev pub load_genesis : List Row → Result ArmError (Row × Core)
load_genesis rows = from_genesis (genesis_of rows)

abbrev pub passkey_signer : String → Value → Value → Option Value
passkey_signer id (str c) (str k) = some (
    obj (
      field "id" (str id)
        (field "kind" (str "passkey") (field "credId" (str c) (field "publicKey" (str k) end)))))
passkey_signer id _ _ = none

abbrev pub text_signer : String → String → String → (String → String) → Value → Option Value
text_signer id kind name f (str s) =
    some (obj (field "id" (str id) (field "kind" (str kind) (field name (str (f s)) end))))
text_signer id kind name f _ = none

-- `lower` is `toLowerCase`.
abbrev pub row_to_signer : (String → String) → SignerRow → Option Value
row_to_signer lower s =
    if text_is "passkey" s.kind
    then passkey_signer s.id (property "id" s.credential) (property "publicKey" s.credential)
    else if text_is "wallet" s.kind
    then text_signer s.id "wallet" "address" lower (property "address" s.credential)
    else if text_is "google" s.kind
    then text_signer s.id "google" "sub" (λ x. x) (property "sub" s.credential)
    else none

-- `rows.map(rowToSigner).filter(Boolean)`
unfoldable pub registered : (String → String) → List SignerRow → Values
registered lower [] = nil
registered lower (r ∷ rs) = elim (row_to_signer lower r) [
  | none ↦ registered lower rs
  | some s ↦ cons s (registered lower rs)
]

abbrev pub is_nil : Values → Bool
is_nil nil = true
is_nil (cons v vs) = false

-- The registered signers own the genesis.
unfoldable pub check_owner : Values → Value → Result ArmError (Unit {0})
check_owner vs signers = do
  there ← throw_if (is_nil vs) no_signers
  throw_if (not (canonical_eq (arr vs) signers)) other_signers
