-- ===== src/Protocol/Value.antt =====
-- The JavaScript values that brain-protocol.mjs encodes, decodes and looks into. An object has its
-- own properties in the order of their insertion, and a prototype: the usual one, or the value
-- that an assignment to the key `__proto__` has put in its place. A number that is no natural
-- number is kept as its text.
use enclave_gateway.Base.{
  arith, ◌≡◌, refl, Bool-cases, inl, inr, Option, some, none, ℕ, zero, suc, ◌+◌, Bool, true, false,
  List, [], ◌∷◌, String, ◌==◌, ltb, if◌then◌else◌, ◌&&◌, length,
}
use enclave_gateway.Protocol.Utf8.{codes}
use enclave_gateway.Policy.Json.{decimal}

mutual
  pub data Value : Type 0 where
    undefined null : Value
    bool : Bool → Value
    num : ℕ → Value
    other_num : String → Value
    big : ℕ → Value
    negative_big : ℕ → Value
    bytes : List ℕ → Value
    text : List ℕ → Value
    arr : Values → Value
    obj : Proto → Fields → Value

  pub data Values : Type 0 where
    nil : Values
    cons : Value → Values → Values

  pub data Fields : Type 0 where
    end : Fields
    field : List ℕ → Value → Fields → Fields

  pub data Proto : Type 0 where
    usual : Proto
    set_to : Value → Proto

-- `a === b` on texts and byte strings
unfoldable pub same : List ℕ → List ℕ → Bool
same [] [] = true
same (x ∷ xs) (y ∷ ys) = (x == y) && same xs ys
same _ _ = false

unfoldable pub includes : List ℕ → List (List ℕ) → Bool
unfolding same
includes k [] = false
includes k (x ∷ xs) = if same x k then true else includes k xs

abbrev pub is_nullish : Value → Bool
is_nullish undefined = true
is_nullish null = true
is_nullish _ = false

-- `typeof v === "string"`
abbrev pub is_text : Value → Bool
is_text (text s) = true
is_text _ = false

-- `typeof v === "number"`
abbrev pub is_number : Value → Bool
is_number (num n) = true
is_number (other_num t) = true
is_number _ = false

-- the empty object `{}`
abbrev pub empty : Value
empty = obj usual end

-- `v ?? {}`
abbrev pub or_empty : Value → Value
or_empty v = if is_nullish v then empty else v

pub or_empty_idem : (v : Value) → or_empty (or_empty v) ≡ or_empty v
or_empty_idem v = elim (Bool-cases (is_nullish v)) [ inl e ↦ rw e refl | inr e ↦ rw (e, e) refl ]

unfoldable pub own : List ℕ → Fields → Option Value
unfolding same
own k end = none
own k (field j v fs) = if same j k then some v else own k fs

-- `v[k]`, for a key that no built-in prototype has: the value's own property, or its prototype's.
unfoldable mutual
  unfolding own

  pub get : List ℕ → Value → Value
  get k (obj p fs) = elim (own k fs) [ some v ↦ v | none ↦ get_proto k p ]
  get k _ = undefined

  pub get_proto : List ℕ → Proto → Value
  get_proto k usual = undefined
  get_proto k (set_to v) = get k v

-- The property names of an array, a text or a byte string of a length.
unfoldable pub indices : ℕ → ℕ → List (List ℕ)
unfolding decimal
indices zero from = []
indices (suc n) from = codes (decimal from) ∷ indices n (suc from)

-- The length of a text, in UTF-16 units.
unfoldable pub units : List ℕ → ℕ
units [] = 0
units (c ∷ s) = (if ltb c 0x10000 then 1 else 2) + units s

unfoldable pub names : Fields → List (List ℕ)
names end = []
names (field k v fs) = k ∷ names fs

unfoldable pub items_length : Values → ℕ
items_length nil = 0
items_length (cons v vs) = suc (items_length vs)

unfoldable pub fields_length : Fields → ℕ
fields_length end = 0
fields_length (field k v fs) = suc (fields_length fs)

-- `Object.keys(v)`
unfoldable pub own_keys : Value → List (List ℕ)
unfolding indices units names items_length
own_keys (obj p fs) = names fs
own_keys (arr vs) = indices (items_length vs) 0
own_keys (text s) = indices (units s) 0
own_keys (bytes b) = indices (length b) 0
own_keys _ = []

pub same-eq : (a b : List ℕ) → same a b ≡ true → a ≡ b
unfolding same
same-eq [] [] h = refl
same-eq [] (y ∷ ys) h = cc
same-eq (x ∷ xs) [] h = cc
same-eq (x ∷ xs) (y ∷ ys) h = ground (arith, same-eq xs ys)

pub same_refl : (s : List ℕ) → same s s ≡ true
unfolding same
same_refl [] = refl
same_refl (c ∷ s) = ground (arith, same_refl s)
