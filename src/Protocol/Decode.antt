-- ===== src/Protocol/Decode.antt =====
-- brain-protocol.mjs, `decode`. The position in the buffer is the list of the bytes that are left;
-- a read past the end gives undefined and leaves the position past it for good, and a length that
-- is undefined makes it NaN. The depth is counted down from 9 levels to none.
use enclave_gateway.Base.{
  min, throw_if, false, true, raise, ok, ℕ, zero, suc, ◌+◌, ◌-◌, ◌*◌, ◌/◌, ◌%◌, Bool, List, [], ◌∷◌,
  ltb, leb, ◌==◌, if◌then◌else◌, length, Result, not, take, drop, Option, some, none, ◌>>=◌,
}
use enclave_gateway.Protocol.Utf8.{utf8_text, codes}
use enclave_gateway.Protocol.Value.{
  Value, Values, Fields, Proto, undefined, null, bool, num, big, bytes, text, arr, obj, nil, cons,
  end, field, usual, set_to, same,
}
use enclave_gateway.Protocol.Encode.{
  invalid_array_length, CborError, non_canonical, bad_info, too_deep, non_string_key, key_order,
  unsupported_major, trailing_bytes, out_of_range, key_lt,
}

pub data Cursor : Type 0 where
  at : List ℕ → Cursor
  past nan : Cursor

-- The `n` of a head.
pub data Count : Type 0 where
  number bigint : ℕ → Count
  no_number : Count

pub record Head : Type 0 where
  pub major : ℕ
  pub count : Count
  pub after : Cursor

abbrev pub Decoded : Type 0 → Type 0
Decoded A = Result CborError (A × Cursor)

unfoldable pub be_number : ℕ → List ℕ → ℕ
be_number acc [] = acc
be_number acc (b ∷ bs) = be_number (acc * 256 + b) bs

-- `readUInt16BE` and its like: the number in the next `k` bytes, below `least` not canonical.
unfoldable pub read_uint : ℕ → ℕ → (ℕ → Count) → ℕ → List ℕ → Result CborError Head
unfolding be_number
read_uint k least as_count major bs =
    let n = be_number 0 (take k bs) in
    if ltb (length bs) k
    then raise out_of_range
    else if ltb n least
    then raise non_canonical
    else ok (record { major = major; count = as_count n; after = at (drop k bs) })

unfoldable pub read_byte : ℕ → List ℕ → Result CborError Head
read_byte major [] = ok (record { major = major; count = no_number; after = past })
read_byte major (n ∷ bs) =
    if ltb n 24
    then raise non_canonical
    else ok (record { major = major; count = number n; after = at bs })

-- The head of a byte that is there.
unfoldable pub head_of : ℕ → List ℕ → Result CborError Head
unfolding read_uint read_byte
head_of ib bs =
    let major = ib / 32 in
    let info = ib % 32 in
    if ltb info 24
    then ok (record { major = major; count = number info; after = at bs })
    else if info == 24
    then read_byte major bs
    else if info == 25
    then read_uint 2 0x100 number major bs
    else if info == 26
    then read_uint 4 0x10000 number major bs
    else if info == 27
    then read_uint 8 0x100000000 bigint major bs
    else raise bad_info

-- Past the end the byte is undefined, whose bits are those of 0.
unfoldable pub read_head : Cursor → Result CborError Head
unfolding head_of
read_head (at (ib ∷ bs)) = head_of ib bs
read_head (at []) = ok (record { major = 0; count = number 0; after = past })
read_head past = ok (record { major = 0; count = number 0; after = past })
read_head nan = ok (record { major = 0; count = number 0; after = nan })

-- `i < len`: an undefined length is no bound that an index is below.
abbrev pub rounds : Count → ℕ
rounds (number n) = n
rounds (bigint n) = n
rounds no_number = 0

-- `buf.subarray(off, off + len)` and `off += len`
unfoldable pub payload : Count → Cursor → List ℕ × Cursor
payload no_number c = ([], nan)
payload count nan = ([], nan)
payload count past = ([], past)
payload count (at bs) = (
  take (rounds count) bs,
  if leb (rounds count) (length bs) then at (drop (rounds count) bs) else past,
)

-- `buf.subarray(kStart, off)`
unfoldable pub between : Cursor → Cursor → List ℕ
between (at bs) (at rest) = take (length bs - length rest) bs
between (at bs) past = bs
between _ _ = []

-- `m[k] = v` on an object: the key `__proto__` sets the prototype, if the value is one.
abbrev pub may_be_proto : Value → Bool
may_be_proto null = true
may_be_proto (bytes b) = true
may_be_proto (arr vs) = true
may_be_proto (obj p fs) = true
may_be_proto _ = false

-- A key that is there keeps its place: two spellings that are not UTF-8 can be one text.
unfoldable pub add_last : List ℕ → Value → Fields → Fields
add_last k v end = field k v end
add_last k v (field j w fs) =
    let others = add_last k v fs in if same j k then field j v fs else field j w others

unfoldable pub assign : List ℕ → Value → Proto → Fields → Proto × Fields
unfolding add_last
assign k v p fs =
    if same k (codes "__proto__")
    then (if may_be_proto v then set_to v else p, fs)
    else (p, add_last k v fs)

-- `for (let i = 0; i < len; i++) a.push(item(depth + 1))`
unfoldable pub read_items : (Cursor → Decoded Value) → ℕ → Cursor → Decoded Values
read_items item zero c = ok (nil, c)
read_items item (suc n) c =
    item c >>= λ first. read_items item n (first.1) >>= λ rest. ok (cons (first.0) (rest.0), rest.1)

-- An array has fewer than 2 ^ 32 items: the `push` of one more throws, after that item was read.
abbrev pub max_items : ℕ
max_items = 0x100000000

abbrev pub within_array : ℕ → Values × Cursor → Decoded Value
within_array n r = if ltb n max_items then ok (arr r.0, r.1) else raise invalid_array_length

-- `prevKey && !(…)`
abbrev pub out_of_order : Option (List ℕ) → List ℕ → Bool
out_of_order none k = false
out_of_order (some j) k = not (key_lt j k)

-- The text of a key, which must be one.
abbrev pub key_text : Value → Result CborError (List ℕ)
key_text (text s) = ok s
key_text _ = raise non_string_key

abbrev pub key_checked : Option (List ℕ) → List ℕ → Result CborError (Unit {0})
key_checked prev k = throw_if (out_of_order prev k) key_order

-- The loop over the entries of a map, with `prevKey` and the object made so far.
unfoldable pub read_fields :
    (Cursor → Decoded Value) → ℕ → Option (List ℕ) → Proto → Fields → Cursor → Decoded Value
unfolding between assign
read_fields item zero prev p fs c = ok (obj p fs, c)
read_fields item (suc n) prev p fs c = do
  key ← item c
  k ← key_text (key.0)
  checked ← key_checked prev (between c (key.1))
  v ← item (key.1)
  let made = assign k (v.0) p fs in
      read_fields item n (some (between c (key.1))) (made.0) (made.1) (v.1)

abbrev pub count_value : Count → Value
count_value (number n) = num n
count_value (bigint n) = big n
count_value no_number = undefined

-- The item after a head, with the reader of the items one level down.
unfoldable pub read_body : (Cursor → Decoded Value) → Head → Decoded Value
unfolding payload read_items read_fields
read_body item h =
    let items = read_items item (min (rounds h.count) max_items) h.after in
    let entries = read_fields item (rounds h.count) none usual end h.after in
    if h.major == 0
    then ok (count_value h.count, h.after)
    else if h.major == 2
    then ok (bytes (payload h.count h.after).0, (payload h.count h.after).1)
    else if h.major == 3
    then ok (text (utf8_text ((payload h.count h.after).0)), (payload h.count h.after).1)
    else if h.major == 4
    then (items >>= within_array (rounds h.count))
    else if h.major == 5
    then entries
    else raise unsupported_major

-- The values of one byte.
unfoldable pub simple : Cursor → Option (Value × Cursor)
simple (at (ib ∷ bs)) =
    if ib == 0xf6
    then some (null, at bs)
    else if ib == 0xf5
    then some (bool true, at bs)
    else if ib == 0xf4
    then some (bool false, at bs)
    else none
simple _ = none

unfoldable pub read_item : ℕ → Cursor → Decoded Value
unfolding simple read_head read_body
read_item zero c = raise too_deep
read_item (suc levels) c = elim (simple c) [
  | some v ↦ ok v
  | none ↦ read_head c >>= read_body (read_item levels)
]

-- `depth > 8` is too deep.
abbrev pub max_levels : ℕ
max_levels = 9

abbrev pub at_end : Cursor → Bool
at_end (at []) = true
at_end _ = false

unfoldable pub decode : List ℕ → Result CborError Value
unfolding read_item
decode buf = do
  out ← read_item max_levels (at buf)
  trailing ← throw_if (not (at_end (out.1))) trailing_bytes
  ok (out.0)
