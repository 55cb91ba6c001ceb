-- ===== src/Protocol/Encode.antt =====
-- brain-protocol.mjs, `encHead` and `encode`: canonical CBOR. The head of a length is written
-- without the check of its size, which no length of a buffer in memory fails.
use enclave_gateway.Base.{
  ◌>>=◌, false, true, raise, ok, ℕ, zero, suc, ◌+◌, ◌*◌, ◌/◌, ◌%◌, ◌^◌, Bool, List, [], ◌∷◌, ◌++◌,
  ltb, ◌==◌, ◌&&◌, if◌then◌else◌, length, Result,
}
use enclave_gateway.Protocol.Utf8.{utf8_bytes}
use enclave_gateway.Protocol.Value.{
  Value, Values, Fields, undefined, null, bool, num, other_num, big, negative_big, bytes, text, arr,
  obj, nil, cons, end, field, items_length, fields_length,
}

-- What the two functions throw, the range errors of the Buffer methods included.
pub data CborError : Type 0 where
  negative_bigint only_unsigned unsupported_value : CborError
  non_canonical bad_info too_deep non_string_key key_order unsupported_major : CborError
  trailing_bytes out_of_range invalid_array_length : CborError

abbrev pub Encoded : Type 0
Encoded = Result CborError (List ℕ)

-- The `k` low bytes of a number, the highest first.
unfoldable pub be_bytes : ℕ → ℕ → List ℕ
be_bytes zero n = []
be_bytes (suc k) n = be_bytes k (n / 256) ++ (n % 256 ∷ [])

unfoldable pub enc_head : ℕ → ℕ → List ℕ
unfolding be_bytes
enc_head major n =
    if ltb n 24
    then (major * 32 + n) ∷ []
    else if ltb n 0x100
    then (major * 32 + 24) ∷ be_bytes 1 n
    else if ltb n 0x10000
    then (major * 32 + 25) ∷ be_bytes 2 n
    else if ltb n 0x100000000
    then (major * 32 + 26) ∷ be_bytes 4 n
    else (major * 32 + 27) ∷ be_bytes 8 n

-- `writeBigUInt64BE` throws outside its range.
unfoldable pub enc_number : ℕ → Encoded
enc_number n = if ltb n (2 ^ 64) then ok (enc_head 0 n) else raise out_of_range

unfoldable pub enc_bigint : ℕ → Encoded
unfolding be_bytes
enc_bigint n = if ltb n (2 ^ 64) then ok (27 ∷ be_bytes 8 n) else raise out_of_range

unfoldable pub enc_text : List ℕ → List ℕ
enc_text s = enc_head 3 (length (utf8_bytes s)) ++ utf8_bytes s

-- `Buffer.compare(a, b) < 0`
unfoldable pub bytes_lt : List ℕ → List ℕ → Bool
bytes_lt [] [] = false
bytes_lt [] (y ∷ ys) = true
bytes_lt (x ∷ xs) [] = false
bytes_lt (x ∷ xs) (y ∷ ys) = if ltb x y then true else if x == y then bytes_lt xs ys else false

-- The order of encoded keys: the length first, then the bytes.
unfoldable pub key_lt : List ℕ → List ℕ → Bool
unfolding bytes_lt
key_lt a b = if ltb (length a) (length b) then true else (length a == length b) && bytes_lt a b

-- An entry of a map: its encoded key, and what the encoding of its value gives.
abbrev pub Entry : Type 0
Entry = List ℕ × Encoded

unfoldable pub insert_entry : Entry → List Entry → List Entry
unfolding key_lt
insert_entry e [] = e ∷ []
insert_entry e (f ∷ fs) = if key_lt f.0 e.0 then f ∷ insert_entry e fs else e ∷ f ∷ fs

unfoldable pub sort_entries : List Entry → List Entry
unfolding insert_entry
sort_entries [] = []
sort_entries (e ∷ es) = insert_entry e (sort_entries es)

unfoldable pub concat_entries : List Entry → Encoded
concat_entries [] = ok []
concat_entries ((k, v) ∷ es) = v >>= λ b. concat_entries es >>= λ rest. ok (k ++ (b ++ rest))

unfoldable mutual
  unfolding enc_number enc_bigint

  pub encode : Value → Encoded
  encode undefined = raise unsupported_value
  encode null = ok (0xf6 ∷ [])
  encode (bool true) = ok (0xf5 ∷ [])
  encode (bool false) = ok (0xf4 ∷ [])
  encode (num n) = enc_number n
  encode (other_num t) = raise only_unsigned
  encode (big n) = enc_bigint n
  encode (negative_big n) = raise negative_bigint
  encode (bytes b) = ok (enc_head 2 (length b) ++ b)
  encode (text s) = ok (enc_text s)
  encode (arr vs) = encode_items vs >>= λ b. ok (enc_head 4 (items_length vs) ++ b)
  encode (obj p fs) = concat_entries (sort_entries (encode_fields fs)) >>= λ b.
      ok (enc_head 5 (fields_length fs) ++ b)

  pub encode_items : Values → Encoded
  encode_items nil = ok []
  encode_items (cons v vs) = encode v >>= λ b. encode_items vs >>= λ rest. ok (b ++ rest)

  -- The values are encoded before the sort, which looks at the keys alone.
  pub encode_fields : Fields → List Entry
  encode_fields end = []
  encode_fields (field k v fs) = (enc_text k, encode v) ∷ encode_fields fs
