-- ===== src/Policy/Json.antt =====
-- policy-verify.mjs, `canon`, `canonicalEq` and `payloadHash`, over JSON values. A number that is no
-- natural number is kept as the text that `String` makes of it. Strings are ordered by code points.
use Prim.Native.Char.{Char, code}
use Prim.Native.String.{◌++◌ as concat, compare}
use text.Mathlib.Text.{is_lt}
use enclave_gateway.Base.{
  ◌*◌, ◌+◌, ◌-◌, ◌||◌, zero, ◌==◌, ◌/◌, ◌%◌, eqs, if◌then◌else◌, eqb?, suc, Option, false, true,
  some, none, ℕ, String, Bool, ltb,
}

mutual
  pub data Value : Type 0 where
    undefined : Value
    null : Value
    bool : Bool → Value
    num : ℕ → Value
    other_num : String → Value
    str : String → Value
    arr : Values → Value
    obj : Fields → Value

  pub data Values : Type 0 where
    nil : Values
    cons : Value → Values → Values

  pub data Fields : Type 0 where
    end : Fields
    field : String → Value → Fields → Fields

-- `a < b` on strings
abbrev pub text_lt : String → String → Bool
text_lt a b = is_lt (compare a b)

unfoldable pub digit_text : ℕ → String
digit_text d =
    if d == 0
    then "0"
    else if d == 1
    then "1"
    else if d == 2
    then "2"
    else if d == 3
    then "3"
    else if d == 4
    then "4"
    else if d == 5
    then "5"
    else if d == 6
    then "6"
    else if d == 7
    then "7"
    else if d == 8
    then "8"
    else if d == 9
    then "9"
    else if d == 10
    then "a"
    else if d == 11
    then "b"
    else if d == 12
    then "c"
    else if d == 13
    then "d"
    else if d == 14
    then "e"
    else "f"

unfoldable pub decimal_from : ℕ → ℕ → String → String
unfolding digit_text
decimal_from zero n acc = acc
decimal_from (suc f) n acc =
    let acc' = concat (digit_text (n % 10)) acc in
    let rest = decimal_from f (n / 10) acc' in if ltb n 10 then acc' else rest

-- A number in decimal; a number has fewer digits than it counts, and one.
unfoldable pub decimal : ℕ → String
unfolding decimal_from
decimal n = decimal_from (suc n) n ""

-- One character of a quoted string.
unfoldable pub escape : Char → String
unfolding digit_text
escape c =
    let n = code c in
    if n == 34
    then "\\\""
    else if n == 92
    then "\\\\"
    else if n == 8
    then "\\b"
    else if n == 9
    then "\\t"
    else if n == 10
    then "\\n"
    else if n == 12
    then "\\f"
    else if n == 13
    then "\\r"
    else if ltb n 32
    then concat "\\u00" (concat (digit_text (n / 16)) (digit_text (n % 16)))
    else String.◌∷◌ c String.[]

unfoldable pub escape_all : String → String
unfolding escape
escape_all String.[] = String.[]
escape_all (String.◌∷◌ c s) = concat (escape c) (escape_all s)

unfoldable pub quote : String → String
unfolding escape_all
quote s = concat "\"" (concat (escape_all s) "\"")

abbrev pub is_undefined : Value → Bool
is_undefined undefined = true
is_undefined _ = false

-- `JSON.stringify`: undefined is null in an array, and absent in an object.
unfoldable mutual
  unfolding quote decimal

  pub stringify : Value → String
  stringify undefined = "null"
  stringify null = "null"
  stringify (bool true) = "true"
  stringify (bool false) = "false"
  stringify (num n) = decimal n
  stringify (other_num t) = if eqs t "Infinity" || eqs t "-Infinity" then "null" else t
  stringify (str s) = quote s
  stringify (arr xs) = concat "[" (concat (stringify_values xs) "]")
  stringify (obj fs) = concat "{" (concat (stringify_fields fs) "}")

  pub stringify_values : Values → String
  stringify_values nil = ""
  stringify_values (cons x nil) = stringify x
  stringify_values (cons x (cons y ys)) =
      concat (stringify x) (concat "," (stringify_values (cons y ys)))

  pub stringify_fields : Fields → String
  stringify_fields end = ""
  stringify_fields (field k v end) =
      if is_undefined v then "" else concat (quote k) (concat ":" (stringify v))
  stringify_fields (field k v (field l w fs)) =
      let rest = stringify_fields (field l w fs) in
      if is_undefined v
      then rest
      else concat (quote k)
          (concat ":" (concat (stringify v) (if eqs rest "" then "" else concat "," rest)))

-- Insertion by the canonical text, as the comparator of `sort` asks.
unfoldable pub insert_value : Value → Values → Values
insert_value x nil = cons x nil
insert_value x (cons y ys) =
    if text_lt (stringify y) (stringify x) then cons y (insert_value x ys) else cons x (cons y ys)

abbrev number_from : String → ℕ → Option ℕ
number_from String.[] n = some n
number_from (String.◌∷◌ c s) n =
    if ltb (code c) 48 || ltb 57 (code c) then none else number_from s (n * 10 + (code c - 48))

abbrev below_max : Option ℕ → Option ℕ
below_max none = none
below_max (some n) = if ltb n 0xffffffff then some n else none

-- The number of a key that is an array index: in decimal, without a leading zero, below 2 ^ 32 - 1.
abbrev array_index : String → Option ℕ
array_index String.[] = none
array_index (String.◌∷◌ c String.[]) = number_from (String.◌∷◌ c "") 0
array_index (String.◌∷◌ c (String.◌∷◌ d s)) =
    if code c == 48 then none else below_max (number_from (String.◌∷◌ c (String.◌∷◌ d s)) 0)

-- The order of the keys of an object that was filled in the order of `sort()`: first the array
-- indexes by number, then the others by their text.
abbrev comes_first : Option ℕ → Option ℕ → String → String → Bool
comes_first none none l k = text_lt l k
comes_first none (some j) l k = false
comes_first (some i) none l k = true
comes_first (some i) (some j) l k = ltb i j

unfoldable pub insert_field : String → Value → Fields → Fields
insert_field k v end = field k v end
insert_field k v (field l w fs) =
    if comes_first (array_index l) (array_index k) l k
    then field l w (insert_field k v fs)
    else field k v (field l w fs)

-- `o[k] = …` on an object makes no own key `__proto__`.
unfoldable mutual
  unfolding insert_value insert_field

  pub canon : Value → Value
  canon undefined = undefined
  canon null = null
  canon (bool b) = bool b
  canon (num n) = num n
  canon (other_num t) = other_num t
  canon (str s) = str s
  canon (arr xs) = arr (canon_values xs)
  canon (obj fs) = obj (canon_fields fs)

  pub canon_values : Values → Values
  canon_values nil = nil
  canon_values (cons x xs) = insert_value (canon x) (canon_values xs)

  pub canon_fields : Fields → Fields
  canon_fields end = end
  canon_fields (field k v fs) =
      let rest = canon_fields fs in
      if eqs k "__proto__" then rest else insert_field k (canon v) rest

-- `JSON.stringify(x)` at the top: undefined has no text.
abbrev pub top_text : Value → Option String
top_text undefined = none
top_text v = some (stringify v)

unfoldable pub canonical_eq : Value → Value → Bool
canonical_eq a b = eqb? (top_text (canon a)) (top_text (canon b))

-- `canon(payload ?? {})`
abbrev pub or_empty : Value → Value
or_empty undefined = obj end
or_empty null = obj end
or_empty v = canon v

-- The text that `payloadHash` digests; a null or undefined payload counts as an empty object.
unfoldable pub payload_text : String → Value → String
payload_text action payload =
    stringify (obj (field "a" (str action) (field "p" (or_empty payload) end)))
