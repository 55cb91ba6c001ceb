-- ===== src/Protocol/RoundTrip/Encoded.antt =====
-- The bytes that `encode` writes, read back by `decode`.
use enclave_gateway.Base.{
  append-none, sym, [], ◌∷◌, ◌<◌, arith, ◌≡◌, refl, ℕ, zero, suc, ◌^◌, true, false, List, ltb,
  Option, none, some, ok, ◌∙◌, ap,
}
use enclave_gateway.Protocol.Value.{
  Value, Values, Fields, null, bool, num, big, bytes, text, arr, obj, nil, cons, end, field, usual,
  items_length, fields_length,
}
use enclave_gateway.Protocol.Encode.{
  enc_number, enc_bigint, concat_entries, encode, be_bytes, enc_head, enc_text,
}
use enclave_gateway.Protocol.Decode.{max_levels, decode, at, read_item, read_items, read_fields}
use enclave_gateway.Protocol.RoundTrip.Fits.{Fits, FitFields, FitItems}
use enclave_gateway.Protocol.RoundTrip.Bodies.{item_bytes, item_bigint, item_number, item_text}
use enclave_gateway.Protocol.RoundTrip.Items.{value_items, ReadBack, ReadBackItems, items_cons}
use enclave_gateway.Protocol.RoundTrip.Objects.{
  join-end, ReadBackFields, fields_cons, value_fields, join,
}

enc_number-fits : (n : ℕ) → n < 2 ^ 32 → enc_number n ≡ ok (enc_head 0 n)
unfolding enc_number
enc_number-fits n h = let e : ltb n (2 ^ 64) ≡ true = ground arith in rw e refl

pub enc_bigint-fits : (n : ℕ) → n < 2 ^ 64 → enc_bigint n ≡ ok (27 ∷ be_bytes 8 n)
unfolding enc_bigint
enc_bigint-fits n h = let e : ltb n (2 ^ 64) ≡ true = ground arith in rw e refl

mutual
  unfolding Fits encode read_item read_items read_fields items_length fields_length concat_entries
      join

  pub read_back : (l : ℕ) (v : Value) → Fits l v → ReadBack l v
  read_back (suc l) null h = (_, refl, λ rest. refl)
  read_back (suc l) (bool true) h = (_, refl, λ rest. refl)
  read_back (suc l) (bool false) h = (_, refl, λ rest. refl)
  read_back (suc l) (num n) h = (enc_head 0 n, enc_number-fits n h, λ rest. item_number l rest n h)
  read_back (suc l) (big n) (h, k) =
      (27 ∷ be_bytes 8 n, enc_bigint-fits n k, λ rest. item_bigint l rest n h k)
  read_back (suc l) (bytes b) h = (_, refl, λ rest. item_bytes l rest b h)
  read_back (suc l) (text s) h = (_, refl, λ rest. item_text l rest s h)
  read_back (suc l) (arr vs) (n, h) = value_items l vs n (read_back_items l vs h)
  read_back (suc l) (obj usual fs) (n, h) = value_fields l fs n h (read_back_fields l none fs h)
  read_back _ _ h = absurd h

  read_back_items : (l : ℕ) (vs : Values) → FitItems l vs → ReadBackItems l vs
  read_back_items l nil h = ([], refl, λ rest. refl)
  read_back_items l (cons v vs) (h, hs) =
      items_cons l v vs (read_back l v h) (read_back_items l vs hs)

  read_back_fields :
      (l : ℕ) (prev : Option (List ℕ)) (fs : Fields)
      → FitFields l prev fs
      → ReadBackFields l prev fs
  read_back_fields l prev end h = ([], refl, λ rest acc before. rw (join-end acc) refl)
  read_back_fields (suc l) prev (field k v fs) (o, p, s, h, hs) =
      fields_cons l prev k v fs o p s (read_back (suc l) v h)
        (read_back_fields (suc l) (some (enc_text k)) fs hs)
  read_back_fields zero prev (field k v fs) (o, p, s, h, hs) = absurd h

pub decode-encode :
    (v : Value) → Fits max_levels v → (b : List ℕ) × (encode v ≡ ok b) × (decode b ≡ ok v)
unfolding decode
decode-encode v h =
    let (b, e, f) = read_back max_levels v h in
    let whole : read_item max_levels (at b) ≡ ok (v, at []) =
      ap (λ t. read_item max_levels (at t)) (sym (append-none b)) ∙ f [] in
    (b, e, rw whole refl)
