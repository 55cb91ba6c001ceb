-- ===== src/Policy/Ops.antt =====
-- policy-verify.mjs, `assertOpAllowed`: the gate on every operation that is proposed.
use Prim.Native.String.{◌++◌ as concat}
use enclave_gateway.Policy.Json.{
  decimal, Values, nil, cons, Value, str, undefined, null, bool, num, other_num, arr, obj,
}
use enclave_gateway.Policy.Core.{items, text_is}
use enclave_gateway.Policy.Chain.{PolicyAuthority}
use enclave_gateway.Base.{
  ◌>>◌, ◌&&◌, false, true, raise, ok, some, none, Result, List, Option, String, Bool, if◌then◌else◌,
  any, find, eqs, not, throw_if,
}

pub data Op : Type 0 where
  evict_session decline_reset logout_self list_sessions read_security_state who_am_i : Op
  unknown_op : String → Op

-- A row of the roster, its hash as `String(s.hash)`.
pub record Session : Type 0 where
  pub hash : String
  pub current : Bool

-- `arg`; `contest_override` says whether the field is `true` itself.
pub record OpArg : Type 0 where
  pub hash : String
  pub fresh_roster : Option (List Session)
  pub contest_override : Bool

pub data OpError : Type 0 where
  disconnected needs_roster not_in_roster is_current whitelisted reset_protection_off : OpError
  needs_disconnect unknown_operation : OpError

abbrev pub is_logout : Op → Bool
is_logout logout_self = true
is_logout _ = false

-- `String(v)`; within an array undefined and null are the empty text.
unfoldable mutual
  unfolding decimal

  pub string_of : Value → String
  string_of undefined = "undefined"
  string_of null = "null"
  string_of (bool true) = "true"
  string_of (bool false) = "false"
  string_of (num n) = decimal n
  string_of (other_num t) = t
  string_of (str s) = s
  string_of (arr xs) = join_values xs
  string_of (obj fs) = "[object Object]"

  pub join_values : Values → String
  join_values nil = ""
  join_values (cons x nil) = element_text x
  join_values (cons x (cons y ys)) = concat (element_text x) (concat "," (join_values (cons y ys)))

  pub element_text : Value → String
  element_text undefined = ""
  element_text null = ""
  element_text (bool true) = "true"
  element_text (bool false) = "false"
  element_text (num n) = decimal n
  element_text (other_num t) = t
  element_text (str s) = s
  element_text (arr xs) = join_values xs
  element_text (obj fs) = "[object Object]"

-- `wl.has(String(arg.hash))`
unfoldable pub is_listed : Value → String → Bool
is_listed whitelist hash = any (λ v. eqs (string_of v) hash) (items whitelist)

-- `roster.find(...)`
unfoldable pub find_session : String → List Session → Option Session
find_session hash roster = find (λ s. eqs s.hash hash) roster

abbrev pub check_burn : PolicyAuthority → OpArg → Result OpError (Unit {0})
check_burn authority arg =
    throw_if (not (arg.contest_override && text_is "auto_burn" authority.contest_protection))
      whitelisted

abbrev pub check_session : PolicyAuthority → OpArg → Option Session → Result OpError (Unit {0})
check_session authority arg none = raise not_in_roster
check_session authority arg (some s) = do
  throw_if s.current is_current
  if is_listed authority.whitelist arg.hash then check_burn authority arg else ok tt

unfoldable pub check_evict :
    PolicyAuthority → OpArg → Option (List Session) → Result OpError (Unit {0})
check_evict authority arg none = raise needs_roster
check_evict authority arg (some roster) = check_session authority arg (find_session arg.hash roster)

unfoldable pub assert_op : PolicyAuthority → Op → OpArg → Result OpError (Unit {0})
assert_op authority evict_session arg = check_evict authority arg arg.fresh_roster
assert_op authority decline_reset arg =
    throw_if (not authority.reset_protection) reset_protection_off
assert_op authority logout_self arg = throw_if (not authority.disconnected) needs_disconnect
assert_op authority (unknown_op name) arg = raise unknown_operation
assert_op authority _ arg = ok tt

unfoldable pub assert_op_allowed : PolicyAuthority → Op → OpArg → Result OpError (Unit {0})
assert_op_allowed authority op arg = do
  throw_if (authority.disconnected && not (is_logout op)) OpError.disconnected
  assert_op authority op arg
