-- ===== src/Policy/Samples.antt =====
-- A chain of two rows, and the next cores, for the runs of the policy and of its clients. Times are
-- numbers, the digest of a text is the text, and a signature counts where its body is the payload's
-- hash.
use enclave_gateway.Policy.Chain.{Anchor, PolicyAuthority, authority_of}
use enclave_gateway.Policy.Row.{Signature, Row, Config, signers_commit, payload_hash}
use enclave_gateway.Policy.Json.{
  Value, Values, nil, cons, end, field, undefined, null, num, str, arr, obj,
}
use enclave_gateway.Policy.Core.{Core, number_of, same_value}
use enclave_gateway.Base.{◌*◌, ◌∷◌, [], some, none, List, Option, String, Bool, ℕ}

abbrev pub at_number : Value → Option ℕ
at_number = number_of

abbrev pub as_text : String → String
as_text s = s

abbrev pub signs_hash : String → String → Signature → Value → Value → Bool
signs_hash action ph sig signer issued = same_value sig.body (str ph)

abbrev pub passkey : String → Value
passkey id = obj (
    field "id" (str id)
      (field "kind" (str "passkey") (field "credId" (str "c") (field "publicKey" (str "p") end))))

abbrev pub core_with : ℕ → Value → Values → Core
core_with version whitelist signers = record {
  body = obj (field "policy_version" (num version) end);
  v = num 1;
  link_id = "L";
  tg_user_id = "U";
  policy_version = version;
  whitelist = whitelist;
  threshold = num 1;
  signers = arr signers;
  reset_allowed_until = null;
  contest_protection = undefined;
  allow_ip_jumping = undefined;
  enroll_until = undefined;
  locality_allowlist = undefined;
  travel_mode = undefined;
  country_allowlist = undefined;
  travel_until = undefined;
  issued_at = num (100 * version);
}

abbrev pub anchor_core : Core
anchor_core = core_with 1 (arr nil) (cons (passkey "a") nil)

abbrev pub kept_core : Core
kept_core = core_with 2 (arr (cons (str "77") nil)) (cons (passkey "a") nil)

abbrev pub two_keys : Core
two_keys = core_with 3 (arr (cons (str "77") nil)) (cons (passkey "a") (cons (passkey "b") nil))

abbrev pub other_key : Core
other_key = core_with 4 (arr (cons (str "77") nil)) (cons (passkey "b") nil)

abbrev pub row_of : String → Core → Row
row_of action core = record {
  version = core.policy_version;
  action = action;
  core = some core;
  core_hash = none;
  sigs =
      some (record {
        signer_id = str "a";
        kind = str "passkey";
        body = str (payload_hash at_number as_text signs_hash action core.body);
      })
      ∷ [];
}

abbrev pub config : Config
config = record {
  link_id = "L";
  tg_user_id = some "U";
  signers_commit =
      some (signers_commit at_number as_text signs_hash anchor_core.signers anchor_core.threshold);
  now_ms = 1000;
}

abbrev pub anchor_row : Row
anchor_row = row_of "arm" anchor_core

abbrev pub kept_row : Row
kept_row = row_of "set-whitelist" kept_core

abbrev pub chain_rows : List Row
chain_rows = kept_row ∷ anchor_row ∷ []

abbrev pub derived : PolicyAuthority
derived = authority_of at_number as_text signs_hash config kept_row kept_core

abbrev pub head_anchor : Anchor
head_anchor = record {
  version = 2;
  hash = some (payload_hash at_number as_text signs_hash "set-whitelist" kept_core.body);
}
