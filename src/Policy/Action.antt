-- ===== src/Policy/Action.antt =====
-- policy-verify.mjs: the actions of the chain, the windows, and the shapes of single values.
use Prim.Native.Char.{code}
use enclave_gateway.Base.{
  ltb, leb, not, if◌then◌else◌, ◌*◌, ◌+◌, ◌||◌, ◌&&◌, suc, zero, ◌==◌, false, true, ℕ, String, Bool,
  eqs,
}
use enclave_gateway.Policy.Json.{Value, str}
use enclave_gateway.Policy.Core.{PolicyField, property, is_truthy, is_text, text_is, id_of}

pub data Action : Type 0 where
  set_whitelist set_threshold allow_reset protect_reset disconnect : Action
  set_contest_protection set_allow_ip_jumping set_locality_allowlist set_travel_mode : Action
  set_country_allowlist set_travel_window open_enroll remove_key add_key arm : Action
  unknown : String → Action

-- The labels of the `switch`, and of the tests on `arm`.
unfoldable pub action_of : String → Action
action_of s =
    if eqs s "set-whitelist"
    then set_whitelist
    else if eqs s "set-threshold"
    then set_threshold
    else if eqs s "allow-reset"
    then allow_reset
    else if eqs s "protect-reset"
    then protect_reset
    else if eqs s "disconnect"
    then disconnect
    else if eqs s "set-contest-protection"
    then set_contest_protection
    else if eqs s "set-allow-ip-jumping"
    then set_allow_ip_jumping
    else if eqs s "set-locality-allowlist"
    then set_locality_allowlist
    else if eqs s "set-travel-mode"
    then set_travel_mode
    else if eqs s "set-country-allowlist"
    then set_country_allowlist
    else if eqs s "set-travel-window"
    then set_travel_window
    else if eqs s "open-enroll"
    then open_enroll
    else if eqs s "remove-key"
    then remove_key
    else if eqs s "add-key"
    then add_key
    else if eqs s "arm"
    then arm
    else unknown s

pub data DeltaError : Type 0 where
  may_not_change : PolicyField → DeltaError
  threshold_range no_window bad_times window_length window_not_cleared bad_contest : DeltaError
  bad_list bad_entry bad_travel_mode window_past window_too_long : DeltaError
  signer_count introduced_signer altered_signer wrong_threshold removed_signer : DeltaError
  malformed_signer unknown_action : DeltaError

abbrev pub reset_window_ms : ℕ
reset_window_ms = 8 * 24 * 60 * 60 * 1000

abbrev pub enroll_window_ms : ℕ
enroll_window_ms = 30 * 60 * 1000

abbrev pub travel_max_ms : ℕ
travel_max_ms = 90 * 24 * 60 * 60 * 1000

-- `s.length`: a character beyond the basic plane counts twice.
unfoldable pub utf16_length : String → ℕ
utf16_length String.[] = 0
utf16_length (String.◌∷◌ c s) = (if ltb (code c) 65536 then 1 else 2) + utf16_length s

-- `/^[0-9a-f]*$/i`, of so many characters
unfoldable pub is_hex : ℕ → String → Bool
is_hex zero String.[] = true
is_hex zero (String.◌∷◌ c s) = false
is_hex (suc n) String.[] = false
is_hex (suc n) (String.◌∷◌ c s) =
    let d = code c in
    ((leb b'0' d && leb d b'9') || (leb b'a' d && leb d b'f') || (leb b'A' d && leb d b'F'))
    && is_hex n s

-- `/^0x[0-9a-f]{40}$/i`
unfoldable pub is_address : String → Bool
unfolding is_hex
is_address (String.◌∷◌ a (String.◌∷◌ b s)) =
    code a == b'0' && (code b == b'x' || code b == b'X') && is_hex 40 s
is_address _ = false

-- `/^[A-Z]{2}$/`
unfoldable pub is_country_code : String → Bool
is_country_code (String.◌∷◌ a (String.◌∷◌ b String.[])) =
    leb b'A' (code a) && leb (code a) b'Z' && leb b'A' (code b) && leb (code b) b'Z'
is_country_code _ = false

-- A string that satisfies the test.
abbrev pub text_where : (String → Bool) → Value → Bool
text_where p (str s) = p s
text_where p _ = false

unfoldable pub valid_new_signer : Value → Bool
unfolding is_address
valid_new_signer s =
    let kind = property "kind" s in
    is_truthy s
    && is_text (id_of s)
    && (if text_is "passkey" kind
        then is_text (property "credId" s) && is_text (property "publicKey" s)
        else if text_is "wallet" kind
        then text_where is_address (property "address" s)
        else text_is "google" kind && text_where (λ t. not (eqs t "")) (property "sub" s))
