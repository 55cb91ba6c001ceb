-- ===== src/Policy/Delta.antt =====
-- policy-verify.mjs, `validNewSigner`, `sameExcept` and `verifyDelta`: what one action may change.
-- `new Date(v).getTime()` is the parameter `date`, with `none` for NaN.
use enclave_gateway.Base.{
  all, throw_if, min, map, any, find, Option, List, ltb, leb, Result, not, if◌then◌else◌, ◌+◌, ◌>>◌,
  ◌>>=◌, ◌||◌, ◌&&◌, ◌==◌, false, true, raise, ok, ◌∷◌, [], some, none, ℕ, Bool, length,
}
use enclave_gateway.Policy.Json.{Value, num, canonical_eq}
use enclave_gateway.Policy.Core.{
  Core, PolicyField, same_field, get, elements, items, property, is_nullish, is_null, is_truthy,
  is_text, is_bool, is_object, same_value, text_is, id_of, has_id,
}
use enclave_gateway.Policy.Action.{
  Action, set_whitelist, set_threshold, allow_reset, protect_reset, disconnect,
  set_contest_protection, set_allow_ip_jumping, set_locality_allowlist, set_travel_mode,
  set_country_allowlist, set_travel_window, open_enroll, remove_key, add_key, arm, unknown,
  DeltaError, may_not_change, threshold_range, no_window, bad_times, window_length,
  window_not_cleared, bad_contest, bad_list, bad_entry, bad_travel_mode, window_past,
  window_too_long, signer_count, introduced_signer, altered_signer, wrong_threshold, removed_signer,
  malformed_signer, unknown_action, reset_window_ms, enroll_window_ms, travel_max_ms, utf16_length,
  is_country_code, text_where, valid_new_signer,
}

abbrev pub all_fields : List PolicyField
all_fields =
    PolicyField.whitelist ∷ PolicyField.threshold ∷ PolicyField.reset_allowed_until
    ∷ PolicyField.signers ∷ PolicyField.contest_protection ∷ PolicyField.allow_ip_jumping
    ∷ PolicyField.enroll_until ∷ PolicyField.locality_allowlist ∷ PolicyField.travel_mode
    ∷ PolicyField.country_allowlist ∷ PolicyField.travel_until ∷ []

abbrev pub includes : List PolicyField → PolicyField → Bool
includes changed f = any (λ c. same_field c f) changed

unfoldable pub same_fields :
    List PolicyField → Core → Core → List PolicyField → Result DeltaError (Unit {0})
same_fields changed prev core [] = ok tt
same_fields changed prev core (f ∷ fs) = do
  throw_if (not (includes changed f) && not (canonical_eq (get f prev) (get f core)))
      (may_not_change f)
  same_fields changed prev core fs

unfoldable pub same_except : Core → Core → List PolicyField → Result DeltaError (Unit {0})
unfolding same_fields
same_except prev core changed = same_fields changed prev core all_fields

-- `Number.isFinite` of a time
abbrev pub is_finite : Option ℕ → Bool
is_finite none = false
is_finite (some t) = true

-- `Math.abs(until - (issued + window)) > 60_000`
abbrev pub off_by_minute : ℕ → ℕ → Bool
off_by_minute a b = ltb (b + 60000) a || ltb (a + 60000) b

abbrev pub window_check : Option ℕ → Option ℕ → ℕ → Result DeltaError (Unit {0})
window_check (some until) (some issued) window =
    throw_if (off_by_minute until (issued + window)) window_length
window_check _ _ window = raise bad_times

abbrev pub travel_check : Option ℕ → Option ℕ → Result DeltaError (Unit {0})
travel_check (some until) (some issued) = do
  throw_if (ltb (until + 60000) issued) window_past
  throw_if (ltb (issued + travel_max_ms) until) window_too_long
travel_check _ _ = raise bad_times

-- `core.threshold >= 1 && core.threshold <= core.signers.length`, of a number
abbrev pub threshold_fits : Value → Value → Bool
threshold_fits (num n) signers = leb 1 n && leb n (length (items signers))
threshold_fits _ signers = false

-- A list of at most 50 whose entries pass the test; `Array.isArray` fails on all else.
abbrev pub short_list : (Value → Bool) → Value → Result DeltaError (Unit {0})
short_list p v = elim (elements v) [
  | none ↦ raise bad_list
  | some xs ↦ do throw_if (ltb 50 (length xs)) bad_list; throw_if (not (all p xs)) bad_entry
]

-- An entry of `locality_allowlist`.
unfoldable pub valid_locality : (Value → Option ℕ) → Value → Bool
unfolding utf16_length
valid_locality date en =
    is_truthy en
    && is_object en
    && text_where (λ s. leb 1 (utf16_length s) && leb (utf16_length s) 96) (property "loc" en)
    && (is_nullish (property "until" en)
        || (is_text (property "until" en) && is_finite (date (property "until" en))))

abbrev pub ids_of : Value → List Value
ids_of signers = map id_of (items signers)

-- Each signer of `ss` is one of `prev`, unaltered.
unfoldable pub surviving : List Value → List Value → Result DeltaError (Unit {0})
surviving prev [] = ok tt
surviving prev (s ∷ ss) = elim (find (λ x. same_value (id_of x) (id_of s)) prev) [
  | none ↦ raise introduced_signer
  | some x ↦ do throw_if (not (canonical_eq x s)) altered_signer; surviving prev ss
]

-- The loop of `add-key`: the signers of `prev` unaltered, and the number of new ones.
unfoldable pub added_signers : List Value → List Value → ℕ → Result DeltaError ℕ
unfolding valid_new_signer
added_signers prev [] added = ok added
added_signers prev (s ∷ ss) added = elim (find (λ x. same_value (id_of x) (id_of s)) prev) [
  | some x ↦ do throw_if (not (canonical_eq x s)) altered_signer; added_signers prev ss added
  | none ↦ do
    throw_if (not (valid_new_signer s)) malformed_signer
    added_signers prev ss (added + 1)
]

-- `Math.min(prev.threshold, core.signers.length)`
abbrev pub min_threshold : Value → ℕ → Option ℕ
min_threshold (num n) count = some (min n count)
min_threshold _ count = none

abbrev pub same_number : Option ℕ → Value → Bool
same_number (some n) (num m) = n == m
same_number _ _ = false

unfoldable pub remove_key_check : Core → Core → Result DeltaError (Unit {0})
unfolding surviving
remove_key_check prev core = do
  let before = items prev.signers
  let after = items core.signers
  throw_if (not (length after + 1 == length before)) signer_count
  surviving before after
  throw_if (not (same_number (min_threshold prev.threshold (length after)) core.threshold))
      wrong_threshold

unfoldable pub add_key_check : Core → Core → Result DeltaError (Unit {0})
unfolding added_signers
add_key_check prev core = do
  let before = items prev.signers
  let after = items core.signers
  throw_if (not (length after == length before + 1)) signer_count
  throw_if (not (all (has_id (map id_of after)) (map id_of before))) removed_signer
  added ← added_signers before after 0
  throw_if (not (added == 1)) signer_count

module _ (date : Value → Option ℕ) where
  unfoldable pub verify_delta : Action → Core → Core → Result DeltaError (Unit {0})
  unfolding remove_key_check add_key_check
  verify_delta set_whitelist prev core = same_except prev core (PolicyField.whitelist ∷ [])
  verify_delta set_threshold prev core = do
    same_except prev core (PolicyField.threshold ∷ [])
    throw_if (not (threshold_fits core.threshold core.signers)) threshold_range
  verify_delta allow_reset prev core = do
    same_except prev core (PolicyField.reset_allowed_until ∷ [])
    throw_if (not (is_truthy core.reset_allowed_until)) no_window
    window_check (date core.reset_allowed_until) (date core.issued_at) reset_window_ms
  verify_delta protect_reset prev core = do
    same_except prev core (PolicyField.reset_allowed_until ∷ [])
    throw_if (not (is_null core.reset_allowed_until)) window_not_cleared
  verify_delta disconnect prev core = same_except prev core []
  verify_delta set_contest_protection prev core = do
    same_except prev core (PolicyField.contest_protection ∷ [])
    throw_if
        (not (
          text_is "off" core.contest_protection
          || text_is "alert" core.contest_protection
          || text_is "auto_burn" core.contest_protection))
        bad_contest
  verify_delta set_allow_ip_jumping prev core = do
    same_except prev core (PolicyField.allow_ip_jumping ∷ [])
    short_list (text_where (λ s. leb (utf16_length s) 64)) core.allow_ip_jumping
  verify_delta set_locality_allowlist prev core = do
    same_except prev core (PolicyField.locality_allowlist ∷ [])
    if is_nullish core.locality_allowlist
        then ok tt
        else short_list (valid_locality date) core.locality_allowlist
  verify_delta set_travel_mode prev core = do
    same_except prev core (PolicyField.travel_mode ∷ [])
    throw_if (not (is_bool core.travel_mode)) bad_travel_mode
  verify_delta set_country_allowlist prev core = do
    same_except prev core (PolicyField.country_allowlist ∷ [])
    if is_nullish core.country_allowlist
        then ok tt
        else short_list (text_where is_country_code) core.country_allowlist
  verify_delta set_travel_window prev core = do
    same_except prev core (PolicyField.travel_until ∷ [])
    if is_nullish core.travel_until
        then ok tt
        else travel_check (date core.travel_until) (date core.issued_at)
  verify_delta open_enroll prev core = do
    same_except prev core (PolicyField.enroll_until ∷ [])
    throw_if (not (is_truthy core.enroll_until)) no_window
    window_check (date core.enroll_until) (date core.issued_at) enroll_window_ms
  verify_delta remove_key prev core = do
    same_except prev core (PolicyField.signers ∷ PolicyField.threshold ∷ [])
    remove_key_check prev core
  verify_delta add_key prev core = do
    same_except prev core (PolicyField.signers ∷ [])
    add_key_check prev core
  verify_delta arm prev core = raise unknown_action
  verify_delta (unknown s) prev core = raise unknown_action
