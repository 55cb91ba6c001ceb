-- ===== src/Protocol/RoundTrip/Items.antt =====
-- Arrays, read back item by item.
use enclave_gateway.Base.{◌<◌, arith, ◌≡◌, refl, ℕ, suc, ◌^◌, List, ◌++◌, ok, ◌∙◌}
use enclave_gateway.Protocol.Value.{Value, Values, arr, cons, items_length}
use enclave_gateway.Protocol.Encode.{encode_items, encode, enc_head}
use mathlib.Core.List.{append_assoc}
use enclave_gateway.Protocol.Decode.{at, read_item, read_items}
use enclave_gateway.Protocol.Heads.{rounds-count_of, read_item-enc_head}
use enclave_gateway.Protocol.RoundTrip.Bodies.{body_items}

-- The bytes of a value, and the reader's answer on them before any others.
abbrev pub ReadBack : ℕ → Value → Type 0
ReadBack l v =
    (b : List ℕ) × (encode v ≡ ok b)
    × ((rest : List ℕ) → read_item l (at (b ++ rest)) ≡ ok (v, at rest))

abbrev pub ReadBackItems : ℕ → Values → Type 0
ReadBackItems l vs =
    (b : List ℕ) × (encode_items vs ≡ ok b)
    × ((rest : List ℕ)
        → read_items (read_item l) (items_length vs) (at (b ++ rest)) ≡ ok (vs, at rest))

pub items_cons :
    (l : ℕ) (v : Value) (vs : Values)
    → ReadBack l v
    → ReadBackItems l vs
    → ReadBackItems l (cons v vs)
unfolding encode read_items items_length
items_cons l v vs (b, e, f) (bs, es, fs) =
    (b ++ bs, rw (e, es) refl, λ rest. rw (append_assoc b bs rest, f (bs ++ rest), fs rest) refl)

pub value_items :
    (l : ℕ) (vs : Values)
    → items_length vs < 2 ^ 32
    → ReadBackItems l vs
    → ReadBack (suc l) (arr vs)
unfolding encode
value_items l vs short (b, e, f) =
    let head = enc_head 4 (items_length vs) in
    (
      head ++ b,
      rw e refl,
      λ rest. rw (append_assoc head b rest) (
          read_item-enc_head l 4 (items_length vs) (b ++ rest) (omega arith) (omega (arith, short))
          ∙ body_items (read_item l) _ (b ++ rest) _ vs (at rest) (rounds-count_of _) short
              (f rest)),
    )
