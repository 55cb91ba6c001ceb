-- ===== src/Protocol/Refusals.antt =====
-- What `decode` refuses, and what it makes of frames that `encode` does not write.
use enclave_gateway.Protocol.Decode.{
  read_body, max_items, Decoded, Count, Cursor, rounds, head_of, may_be_proto, assign, read_head,
  simple, read_fields, bigint, at, past, decode, max_levels, read_item, read_items,
}
use enclave_gateway.Protocol.Heads.{read_uint-small, count_of, read_item-enc_head, rounds-count_of}
use enclave_gateway.Protocol.RoundTrip.Objects.{between-prefix, read_fields-step}
use enclave_gateway.Protocol.Utf8.{codes, utf8_bytes, char_bytes}
use enclave_gateway.Protocol.RoundTrip.Fits.{Fits, IsText}
use enclave_gateway.Protocol.RoundTrip.Encoded.{enc_bigint-fits, read_back}
use native.Mathlib.Decide.{dec_le}
use enclave_gateway.Base.{
  ◌⊎◌, inl, inr, false, min, ◌≤◌, ◌^◌, ◌<◌, true, none, sym, append-none, ◌∙◌, ltb, ap, ℕ, zero,
  suc, List, [], ◌∷◌, ◌++◌, ok, raise, refl, ◌≡◌, arith,
}
use enclave_gateway.Protocol.RoundTrip.Bodies.{body_items, body_fields, item_text}
use enclave_gateway.Protocol.Value.{
  set_to, big, obj, end, usual, arr, Proto, Fields, Value, same, Values, num, cons, nil,
  items_length,
}
use enclave_gateway.Protocol.Encode.{
  trailing_bytes, invalid_array_length, non_canonical, enc_head, enc_text, encode, be_bytes,
}

-- Bytes after a value are refused.
pub decode-trailing :
    (v : Value) (b : List ℕ) (x : ℕ) (xs : List ℕ)
    → Fits max_levels v
    → encode v ≡ ok b
    → decode (b ++ (x ∷ xs)) ≡ raise trailing_bytes
unfolding decode
decode-trailing v b x xs fits e =
    let (c, f, read) = read_back max_levels v fits in
    let same_bytes : b ≡ c = cc (e, f) in rw (same_bytes, read (x ∷ xs)) refl

-- The array that is read past the end: a zero in each place.
pub zeros : ℕ → Values
zeros zero = nil
zeros (suc n) = cons (num 0) (zeros n)

items_length-zeros : (n : ℕ) → items_length (zeros n) ≡ n
unfolding zeros items_length
items_length-zeros zero = refl
items_length-zeros (suc n) = omega (arith, items_length-zeros n)

read_item-past : (l : ℕ) → read_item (suc l) past ≡ ok (num 0, past)
unfolding read_item
read_item-past l = refl

read_items-past : (l n : ℕ) → read_items (read_item (suc l)) n past ≡ ok (zeros n, past)
unfolding read_items zeros
read_items-past l zero = refl
read_items-past l (suc n) = rw (read_item-past l, read_items-past l n) refl

-- From the end of the frame on, any positive number of items is read.
read_items-end : (l n : ℕ) → 0 < n → read_items (read_item (suc l)) n (at []) ≡ ok (zeros n, past)
unfolding read_items zeros read_item
read_items-end l zero h = absurd (omega arith)
read_items-end l (suc n) h = rw (read_items-past l n) refl

head_alone :
    (n : ℕ)
    → n < 2 ^ 64
    → read_item max_levels (at (enc_head 4 n))
      ≡ read_body (read_item 8) (record { major = 4; count = count_of n; after = at [] })
head_alone n h =
    ap (λ b. read_item max_levels (at b)) (sym (append-none (enc_head 4 n)))
    ∙ read_item-enc_head 8 4 n [] (omega arith) h

body_too_long :
    (item : Cursor → Decoded Value) (count : Count) (n : ℕ) (c d : Cursor) (vs : Values)
    → rounds count ≡ n
    → 2 ^ 32 ≤ n
    → read_items item max_items c ≡ ok (vs, d)
    → read_body item (record { major = 4; count = count; after = c }) ≡ raise invalid_array_length
unfolding read_body
body_too_long item count n c d vs e many f =
    let all : min n max_items ≡ max_items = ground (arith, many) in
    let long : ltb n max_items ≡ false = ground (arith, many) in rw (e, all, f, long) refl

-- A head alone announces any positive number of items: so many are made before the frame is
-- refused, or, from 2 ^ 32 on, before the array cannot hold one more.
pub decode-announced :
    (n : ℕ)
    → 0 < n
    → n < 2 ^ 64
    → ((vs : Values) × (n < 2 ^ 32)
        × (read_item max_levels (at (enc_head 4 n)) ≡ ok (arr vs, past))
        × (items_length vs ≡ n)
        × (decode (enc_head 4 n) ≡ raise trailing_bytes))
      ⊎ ((2 ^ 32 ≤ n) × (decode (enc_head 4 n) ≡ raise invalid_array_length))
unfolding decode
decode-announced n pos h = elim (dec_le (2 ^ 32) n) [
  | yes many ↦
      let stuck : read_item max_levels (at (enc_head 4 n)) ≡ raise invalid_array_length =
        head_alone n h
        ∙ body_too_long (read_item 8) (count_of n) n (at []) past _ (rounds-count_of _) many
            (read_items-end 7 max_items (omega arith)) in
      inr (many, rw stuck refl)
  | no few ↦
      let below : n < 2 ^ 32 = omega (arith, few) in
      let whole : read_item max_levels (at (enc_head 4 n)) ≡ ok (arr (zeros n), past) =
        head_alone n h
        ∙ body_items (read_item 8) (count_of n) [] n (zeros n) past (rounds-count_of _) below
            (read_items-end 7 n pos) in
      inl (zeros n, below, whole, items_length-zeros n, rw whole refl)
]

read_item-small_bigint :
    (l n : ℕ) → n < 2 ^ 32 → read_item (suc l) (at (27 ∷ be_bytes 8 n)) ≡ raise non_canonical
unfolding read_item simple read_head head_of
read_item-small_bigint l n h =
    let small : ltb n 0x100000000 ≡ true = ground arith in
    rw (read_uint-small 8 0x100000000 bigint 0 n (omega (arith, h)) small) refl

-- A bigint that a number could hold is written in a form that the decoder refuses.
pub decode-small_bigint :
    (n : ℕ) → n < 2 ^ 32 → (b : List ℕ) × (encode (big n) ≡ ok b) × (decode b ≡ raise non_canonical)
unfolding encode decode
decode-small_bigint n h = (
  27 ∷ be_bytes 8 n,
  enc_bigint-fits n (omega (arith, h)),
  rw (read_item-small_bigint 8 n h) refl,
)

assign-prototype :
    (v : Value) (p : Proto) (fs : Fields)
    → may_be_proto v ≡ true
    → assign (codes "__proto__") v p fs ≡ (set_to v, fs)
unfolding assign same
assign-prototype v p fs h = rw h refl

prototype_key : IsText (codes "__proto__")
unfolding utf8_bytes char_bytes
prototype_key = ground arith

-- An entry `__proto__` becomes the prototype of the object that is made, and none of its own keys.
pub decode-prototype :
    (v : Value) (b : List ℕ)
    → Fits 8 v
    → may_be_proto v ≡ true
    → encode v ≡ ok b
    → decode (enc_head 5 1 ++ (enc_text (codes "__proto__") ++ b)) ≡ ok (obj (set_to v) end)
unfolding decode
decode-prototype v b fits m e =
    let (c, f, read) = read_back 8 v fits in
    let same_bytes : b ≡ c = cc (e, f) in
    let key = codes "__proto__" in
    let entry : read_fields (read_item 8) 1 none usual end (at (enc_text key ++ b))
        ≡ ok (obj (set_to v) end, at []) =
      read_fields-step (read_item 8) 0 none usual (set_to v) end end (at (enc_text key ++ b)) (at b)
        (at []) key (enc_text key) v (item_text 7 b key prototype_key)
        (between-prefix (enc_text key) b) refl
        (rw same_bytes (ap (λ t. read_item 8 (at t)) (sym (append-none c)) ∙ read []))
        (assign-prototype v usual end m) in
    let whole : read_item max_levels (at (enc_head 5 1 ++ (enc_text key ++ b)))
        ≡ ok (obj (set_to v) end, at []) =
      read_item-enc_head 8 5 1 (enc_text key ++ b) (omega arith) (omega arith)
      ∙ body_fields (read_item 8) (count_of 1) (enc_text key ++ b) 1 (obj (set_to v) end) (at [])
          refl entry in
    rw whole refl
