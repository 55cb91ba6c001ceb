-- ===== src/Policy/Core.antt =====
-- policy-verify.mjs: a policy core and the chain's rows, with the reading of their fields. Versions
-- are numbers, and the ids that are compared as `String(x)` are strings.
use enclave_gateway.Base.{
  any, Option, List, not, if◌then◌else◌, ◌&&◌, ◌==◌, false, true, ◌∷◌, [], some, none, ℕ, String,
  Bool, eqs,
}
use enclave_gateway.Policy.Json.{
  Value, undefined, null, bool, num, other_num, str, arr, obj, Values, nil, cons, Fields, end,
  field,
}

-- `body` is the whole object, as it is hashed; the other fields are read from it.
pub record Core : Type 0 where
  pub body : Value
  pub v : Value
  pub link_id : String
  pub tg_user_id : String
  pub policy_version : ℕ
  pub whitelist : Value
  pub threshold : Value
  pub signers : Value
  pub reset_allowed_until : Value
  pub contest_protection : Value
  pub allow_ip_jumping : Value
  pub enroll_until : Value
  pub locality_allowlist : Value
  pub travel_mode : Value
  pub country_allowlist : Value
  pub travel_until : Value
  pub issued_at : Value

-- The fields that `sameExcept` pins, in its order.
pub data PolicyField : Type 0 where
  whitelist threshold reset_allowed_until signers contest_protection allow_ip_jumping : PolicyField
  enroll_until locality_allowlist travel_mode country_allowlist travel_until : PolicyField

abbrev pub rank : PolicyField → ℕ
rank PolicyField.whitelist = 0
rank PolicyField.threshold = 1
rank PolicyField.reset_allowed_until = 2
rank PolicyField.signers = 3
rank PolicyField.contest_protection = 4
rank PolicyField.allow_ip_jumping = 5
rank PolicyField.enroll_until = 6
rank PolicyField.locality_allowlist = 7
rank PolicyField.travel_mode = 8
rank PolicyField.country_allowlist = 9
rank PolicyField.travel_until = 10

-- `f === g` on the names of fields
abbrev pub same_field : PolicyField → PolicyField → Bool
same_field f g = rank f == rank g

-- `core[f]`
abbrev pub get : PolicyField → Core → Value
get PolicyField.whitelist c = c.whitelist
get PolicyField.threshold c = c.threshold
get PolicyField.reset_allowed_until c = c.reset_allowed_until
get PolicyField.signers c = c.signers
get PolicyField.contest_protection c = c.contest_protection
get PolicyField.allow_ip_jumping c = c.allow_ip_jumping
get PolicyField.enroll_until c = c.enroll_until
get PolicyField.locality_allowlist c = c.locality_allowlist
get PolicyField.travel_mode c = c.travel_mode
get PolicyField.country_allowlist c = c.country_allowlist
get PolicyField.travel_until c = c.travel_until

abbrev pub to_list : Values → List Value
to_list nil = []
to_list (cons x xs) = x ∷ to_list xs

-- `Array.isArray(v)`, with the elements
abbrev pub elements : Value → Option (List Value)
elements (arr xs) = some (to_list xs)
elements _ = none

-- The elements of an array, where it is known to be one.
abbrev pub items : Value → List Value
items (arr xs) = to_list xs
items _ = []

abbrev pub find_field : String → Fields → Value
find_field k end = undefined
find_field k (field l v fs) = if eqs l k then v else find_field k fs

-- `v.k`
abbrev pub property : String → Value → Value
property k (obj fs) = find_field k fs
property k _ = undefined

-- `v === null || v === undefined`
abbrev pub is_nullish : Value → Bool
is_nullish undefined = true
is_nullish null = true
is_nullish _ = false

abbrev pub is_null : Value → Bool
is_null null = true
is_null _ = false

-- JavaScript's truth of a value; a number that is no natural number counts as true.
abbrev pub is_truthy : Value → Bool
is_truthy undefined = false
is_truthy null = false
is_truthy (bool b) = b
is_truthy (num n) = not (n == 0)
is_truthy (other_num t) = true
is_truthy (str s) = not (eqs s "")
is_truthy _ = true

abbrev pub is_text : Value → Bool
is_text (str s) = true
is_text _ = false

abbrev pub is_bool : Value → Bool
is_bool (bool b) = true
is_bool _ = false

-- `typeof v === "object"` of a value that is truthy
abbrev pub is_object : Value → Bool
is_object (arr xs) = true
is_object (obj fs) = true
is_object _ = false

-- `a === b` on primitive values; the objects of two JSON texts are never the same.
abbrev pub same_value : Value → Value → Bool
same_value undefined undefined = true
same_value null null = true
same_value (bool true) (bool true) = true
same_value (bool false) (bool false) = true
same_value (num n) (num m) = n == m
same_value (other_num s) (other_num t) = eqs s t
same_value (str s) (str t) = eqs s t
same_value _ _ = false

abbrev pub text_is : String → Value → Bool
text_is k (str s) = eqs s k
text_is k _ = false

-- `s.id` of a signer
abbrev pub id_of : Value → Value
id_of = property "id"

abbrev pub has_id : List Value → Value → Bool
has_id ids x = any (same_value x) ids

-- `new Set(ids).size === ids.length`
abbrev pub distinct : List Value → Bool
distinct [] = true
distinct (x ∷ xs) = not (has_id xs x) && distinct xs

-- The number of a value that is a natural number.
abbrev pub number_of : Value → Option ℕ
number_of (num n) = some n
number_of _ = none
