-- ===== src/Protocol/RoundTrip/Bodies.antt =====
-- The items that begin with a head, one by one: byte strings, texts, numbers.
use enclave_gateway.Base.{
  min, sym, ◌∷◌, ◌≤◌, ◌<◌, arith, ◌≡◌, refl, ℕ, suc, ◌^◌, true, false, List, ◌++◌, ltb, length,
  none, ok, ◌∙◌, ap,
}
use enclave_gateway.Protocol.Utf8.{utf8_bytes, utf8_text}
use enclave_gateway.Protocol.Utf8.Characters.{utf8_text-utf8_bytes}
use enclave_gateway.Protocol.Value.{Value, Values, num, big, bytes, text, arr, end, usual}
use enclave_gateway.Protocol.Encode.{be_bytes, enc_head, enc_text}
use mathlib.Core.List.{append_assoc}
use enclave_gateway.Protocol.Decode.{
  max_items, count_value, Decoded, Count, Cursor, at, read_item, read_items, read_fields, read_body,
  payload, rounds,
}
use enclave_gateway.Protocol.Heads.{read_item-enc_head, payload-prefix}
use enclave_gateway.Protocol.RoundTrip.Fits.{IsText}

module _ (item : Cursor → Decoded Value) (count : Count) (rest : List ℕ) where
  pub body_number :
      read_body item (record { major = 0; count = count; after = at rest })
      ≡ ok (count_value count, at rest)
  unfolding read_body
  body_number = refl

  pub body_bytes :
      (b : List ℕ) (c : Cursor)
      → payload count (at rest) ≡ (b, c)
      → read_body item (record { major = 2; count = count; after = at rest }) ≡ ok (bytes b, c)
  unfolding read_body
  body_bytes b c e = rw e refl

  pub body_text :
      (b : List ℕ) (c : Cursor)
      → payload count (at rest) ≡ (b, c)
      → read_body item (record { major = 3; count = count; after = at rest })
        ≡ ok (text (utf8_text b), c)
  unfolding read_body
  body_text b c e = rw e refl

  pub body_items :
      (n : ℕ) (vs : Values) (c : Cursor)
      → rounds count ≡ n
      → n < 2 ^ 32
      → read_items item n (at rest) ≡ ok (vs, c)
      → read_body item (record { major = 4; count = count; after = at rest }) ≡ ok (arr vs, c)
  unfolding read_body
  body_items n vs c e few f =
      let all : min n max_items ≡ n = ground (arith, few) in
      let short : ltb n max_items ≡ true = ground (arith, few) in rw (e, all, f, short) refl

  pub body_fields :
      (n : ℕ) (v : Value) (c : Cursor)
      → rounds count ≡ n
      → read_fields item n none usual end (at rest) ≡ ok (v, c)
      → read_body item (record { major = 5; count = count; after = at rest }) ≡ ok (v, c)
  unfolding read_body
  body_fields n v c e f = rw (e, f) refl

enc_head_wide : (n : ℕ) → ltb n (2 ^ 32) ≡ false → enc_head 0 n ≡ 27 ∷ be_bytes 8 n
unfolding enc_head
enc_head_wide n h =
    let a : ltb n 24 ≡ false = ground arith in
    let b : ltb n 0x100 ≡ false = ground arith in
    let c : ltb n 0x10000 ≡ false = ground arith in rw (a, b, c, h) refl

module _ (l : ℕ) (rest : List ℕ) where
  pub item_bytes :
      (b : List ℕ)
      → length b < 2 ^ 64
      → read_item (suc l) (at ((enc_head 2 (length b) ++ b) ++ rest)) ≡ ok (bytes b, at rest)
  item_bytes b short = rw (append_assoc (enc_head 2 (length b)) b rest) (
      read_item-enc_head l 2 (length b) (b ++ rest) (omega arith) short
      ∙ body_bytes (read_item l) _ (b ++ rest) b (at rest) (payload-prefix (length b) b rest refl))

  pub item_text :
      (s : List ℕ) → IsText s → read_item (suc l) (at (enc_text s ++ rest)) ≡ ok (text s, at rest)
  unfolding enc_text
  item_text s (scalars, short) =
      let b = utf8_bytes s in
      rw (append_assoc (enc_head 3 (length b)) b rest) (
        read_item-enc_head l 3 (length b) (b ++ rest) (omega arith) short
        ∙ body_text (read_item l) _ (b ++ rest) b (at rest) (payload-prefix (length b) b rest refl)
        ∙ ap (λ t. ok (text t, at rest)) (utf8_text-utf8_bytes s scalars))

  pub item_number :
      (n : ℕ) → n < 2 ^ 32 → read_item (suc l) (at (enc_head 0 n ++ rest)) ≡ ok (num n, at rest)
  item_number n h =
      let narrow : ltb n (2 ^ 32) ≡ true = ground arith in
      read_item-enc_head l 0 n rest (omega arith) (omega (arith, h)) ∙ rw (body_number, narrow) refl

  pub item_bigint :
      (n : ℕ)
      → 2 ^ 32 ≤ n
      → n < 2 ^ 64
      → read_item (suc l) (at ((27 ∷ be_bytes 8 n) ++ rest)) ≡ ok (big n, at rest)
  item_bigint n h k =
      let wide : ltb n (2 ^ 32) ≡ false = ground arith in
      ap (λ b. read_item (suc l) (at (b ++ rest))) (sym (enc_head_wide n wide))
      ∙ read_item-enc_head l 0 n rest (omega arith) k
      ∙ rw (body_number, wide) refl
