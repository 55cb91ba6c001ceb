-- ===== src/Protocol/RoundTrip/Fits.antt =====
-- The values that a frame can carry in canonical order.
use enclave_gateway.Base.{
  ◌≤◌, ◌<◌, ◌≡◌, ℕ, zero, suc, ◌^◌, false, List, length, Option, none, some, All,
}
use enclave_gateway.Protocol.Utf8.{utf8_bytes, codes}
use enclave_gateway.Protocol.Utf8.Characters.{IsScalar}
use enclave_gateway.Protocol.Value.{
  Value, Values, Fields, null, bool, num, big, bytes, text, arr, obj, nil, cons, end, field, usual,
  same, items_length, fields_length,
}
use enclave_gateway.Protocol.Encode.{enc_text}
use enclave_gateway.Protocol.Decode.{out_of_order}

abbrev pub IsText : List ℕ → Type 0
IsText s = All IsScalar s × (length (utf8_bytes s) < 2 ^ 64)

-- A value that fits into so many levels, with the keys of each object in the order of the wire
-- and none of them `__proto__`.
unfoldable mutual
  unfolding items_length fields_length enc_text

  pub Fits : ℕ → Value → Type 0
  Fits zero v = ⊥
  Fits (suc l) null = Unit
  Fits (suc l) (bool b) = Unit
  Fits (suc l) (num n) = n < 2 ^ 32
  Fits (suc l) (big n) = (2 ^ 32 ≤ n) × (n < 2 ^ 64)
  Fits (suc l) (bytes b) = length b < 2 ^ 64
  Fits (suc l) (text s) = IsText s
  Fits (suc l) (arr vs) = (items_length vs < 2 ^ 32) × FitItems l vs
  Fits (suc l) (obj usual fs) = (fields_length fs < 2 ^ 64) × FitFields l none fs
  Fits (suc l) _ = ⊥

  pub FitItems : ℕ → Values → Type 0
  FitItems l nil = Unit
  FitItems l (cons v vs) = Fits l v × FitItems l vs

  pub FitFields : ℕ → Option (List ℕ) → Fields → Type 0
  FitFields l prev end = Unit
  FitFields l prev (field k v fs) =
      (out_of_order prev (enc_text k) ≡ false)
      × (same k (codes "__proto__") ≡ false)
      × IsText k
      × Fits l v
      × FitFields l (some (enc_text k)) fs
