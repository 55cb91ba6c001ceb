-- ===== src/Protocol/RoundTrip/Objects.antt =====
-- Objects, read back entry by entry, where the keys stand in the order of the wire.
use enclave_gateway.Base.{
  subst, Bool-cases, inr, inl, take-prefix, length-append, [], ◌∷◌, ◌<◌, arith, ◌≡◌, refl, ℕ, suc,
  ◌^◌, true, false, List, ◌++◌, length, Option, none, some, ok, ◌∙◌, ap, ◌-◌,
}
use enclave_gateway.Protocol.Utf8.{codes}
use enclave_gateway.Protocol.Value.{
  same-eq, Proto, Value, Fields, text, obj, end, field, usual, same, fields_length,
}
use enclave_gateway.Protocol.Encode.{
  Entry, encode_fields, sort_entries, key_lt, insert_entry, concat_entries, encode, enc_head,
  enc_text, bytes_lt,
}
use mathlib.Core.List.{append_assoc}
use enclave_gateway.Protocol.Decode.{
  assign, between, add_last, Decoded, Cursor, at, read_item, read_fields, out_of_order,
}
use enclave_gateway.Protocol.Heads.{rounds-count_of, read_item-enc_head}
use enclave_gateway.Protocol.RoundTrip.Fits.{IsText, Fits, FitFields}
use enclave_gateway.Protocol.RoundTrip.Bodies.{body_fields, item_text}
use enclave_gateway.Protocol.RoundTrip.Items.{ReadBack}

bytes_lt_asym : (a b : List ℕ) → bytes_lt a b ≡ true → bytes_lt b a ≡ false
unfolding bytes_lt
bytes_lt_asym [] [] h = refl
bytes_lt_asym [] (y ∷ ys) h = refl
bytes_lt_asym (x ∷ xs) [] h = ground arith
bytes_lt_asym (x ∷ xs) (y ∷ ys) h = ground (arith, bytes_lt_asym xs ys)

key_lt_asym : (a b : List ℕ) → key_lt a b ≡ true → key_lt b a ≡ false
unfolding key_lt
key_lt_asym a b h = ground (arith, bytes_lt_asym a b)

bytes_lt_trans : (a b c : List ℕ) → bytes_lt a b ≡ true → bytes_lt b c ≡ true → bytes_lt a c ≡ true
unfolding bytes_lt
bytes_lt_trans [] (y ∷ ys) (z ∷ zs) g h = refl
bytes_lt_trans (x ∷ xs) (y ∷ ys) (z ∷ zs) g h = ground (arith, bytes_lt_trans xs ys zs)
bytes_lt_trans [] [] c g h = ground arith
bytes_lt_trans (x ∷ xs) [] c g h = ground arith
bytes_lt_trans [] (y ∷ ys) [] g h = ground arith
bytes_lt_trans (x ∷ xs) (y ∷ ys) [] g h = ground arith

key_lt_trans : (a b c : List ℕ) → key_lt a b ≡ true → key_lt b c ≡ true → key_lt a c ≡ true
unfolding key_lt
key_lt_trans a b c g h = ground (arith, bytes_lt_trans a b c)

insert_entry-first :
    (l : ℕ) (e : Entry) (fs : Fields)
    → FitFields l (some (e.0)) fs
    → insert_entry e (encode_fields fs) ≡ e ∷ encode_fields fs
unfolding insert_entry Fits encode
insert_entry-first l e end h = refl
insert_entry-first l e (field k v fs) (h, _, _, _, _) =
    rw (key_lt_asym (e.0) (enc_text k) (ground arith)) refl

-- Keys in order are not moved by the sort.
pub sort_entries-ordered :
    (l : ℕ) (prev : Option (List ℕ)) (fs : Fields)
    → FitFields l prev fs
    → sort_entries (encode_fields fs) ≡ encode_fields fs
unfolding sort_entries Fits encode
sort_entries-ordered l prev end h = refl
sort_entries-ordered l prev (field k v fs) (_, _, _, _, h) =
    ap (insert_entry (enc_text k, encode v)) (sort_entries-ordered l (some (enc_text k)) fs h)
    ∙ insert_entry-first l (enc_text k, encode v) fs h

unfoldable pub join : Fields → Fields → Fields
join end fs = fs
join (field k v rest) fs = field k v (join rest fs)

-- Every key so far stands before the next one on the wire.
unfoldable pub Before : Fields → List ℕ → Type 0
Before end next = Unit
Before (field j w fs) next = (key_lt (enc_text j) next ≡ true) × Before fs next

other_key : (j k : List ℕ) → key_lt (enc_text j) (enc_text k) ≡ true → same j k ≡ false
other_key j k h = elim (Bool-cases (same j k)) [
  | inr e ↦ e
  | inl e ↦
      let irreflexive : key_lt (enc_text k) (enc_text k) ≡ true =
        subst (λ i. key_lt (enc_text i) (enc_text k) ≡ true) (same-eq j k e) h in
      let other = key_lt_asym (enc_text k) (enc_text k) irreflexive in cc
]

join-add_last :
    (k : List ℕ) (v : Value) (acc fs : Fields)
    → Before acc (enc_text k)
    → join (add_last k v acc) fs ≡ join acc (field k v fs)
unfolding join add_last Before
join-add_last k v end fs h = refl
join-add_last k v (field j w acc) fs (h, hs) =
    rw (other_key j k h) (ap (field j w) (join-add_last k v acc fs hs))

add_last-Before :
    (k : List ℕ) (v : Value) (acc : Fields) (next : List ℕ)
    → Before acc (enc_text k)
    → key_lt (enc_text k) next ≡ true
    → Before (add_last k v acc) next
unfolding add_last Before
add_last-Before k v end next h g = (g, tt)
add_last-Before k v (field j w acc) next (h, hs) g =
    rw (other_key j k h)
      (key_lt_trans (enc_text j) (enc_text k) next h g, add_last-Before k v acc next hs g)

pub join-end : (acc : Fields) → join acc end ≡ acc
unfolding join
join-end end = refl
join-end (field k v acc) = ap (field k v) (join-end acc)

pub between-prefix : (b rest : List ℕ) → between (at (b ++ rest)) (at rest) ≡ b
unfolding between
between-prefix b rest =
    let e : length b ≡ length (b ++ rest) - length rest = omega (arith, length-append b rest) in
    take-prefix (length (b ++ rest) - length rest) b rest e

module _ (item : Cursor → Decoded Value) where
  pub read_fields-step :
      (n : ℕ) (prev : Option (List ℕ)) (p q : Proto) (acc made : Fields) (c c1 c2 : Cursor)
      (k kb : List ℕ) (v : Value)
      → item c ≡ ok (text k, c1)
      → between c c1 ≡ kb
      → out_of_order prev kb ≡ false
      → item c1 ≡ ok (v, c2)
      → assign k v p acc ≡ (q, made)
      → read_fields item (suc n) prev p acc c ≡ read_fields item n (some kb) q made c2
  unfolding read_fields
  read_fields-step n prev p q acc made c c1 c2 k kb v e spelled f g assigned =
      rw (e, spelled, f, g, assigned) refl

assign-own :
    (k : List ℕ) (v : Value) (p : Proto) (acc : Fields)
    → same k (codes "__proto__") ≡ false
    → assign k v p acc ≡ (p, add_last k v acc)
unfolding assign
assign-own k v p acc h = rw h refl

abbrev pub ReadBackFields : ℕ → Option (List ℕ) → Fields → Type 0
ReadBackFields l prev fs =
    (b : List ℕ) × (concat_entries (encode_fields fs) ≡ ok b)
    × ((rest : List ℕ) (acc : Fields)
        → ((next : List ℕ) → out_of_order prev next ≡ false → Before acc next)
        → read_fields (read_item l) (fields_length fs) prev usual acc (at (b ++ rest))
          ≡ ok (obj usual (join acc fs), at rest))

pub fields_cons :
    (l : ℕ) (prev : Option (List ℕ)) (k : List ℕ) (v : Value) (fs : Fields)
    → out_of_order prev (enc_text k) ≡ false
    → same k (codes "__proto__") ≡ false
    → IsText k
    → ReadBack (suc l) v
    → ReadBackFields (suc l) (some (enc_text k)) fs
    → ReadBackFields (suc l) prev (field k v fs)
unfolding encode concat_entries fields_length
fields_cons l prev k v fs ordered plain spelled (b, e, f) (bs, es, fs_read) = (
  enc_text k ++ (b ++ bs),
  rw (e, es) refl,
  λ rest acc before.
      let before_key = before (enc_text k) ordered in
      let after_key = b ++ (bs ++ rest) in
      let split : (enc_text k ++ (b ++ bs)) ++ rest ≡ enc_text k ++ after_key =
        append_assoc (enc_text k) (b ++ bs) rest
        ∙ ap (λ t. enc_text k ++ t) (append_assoc b bs rest) in
      rw (split, ← (join-add_last k v acc fs before_key))
        (read_fields-step (read_item (suc l)) (fields_length fs) prev usual usual acc
            (add_last k v acc) _ (at after_key) (at (bs ++ rest)) k (enc_text k) v
            (item_text l after_key k spelled) (between-prefix (enc_text k) after_key) ordered
            (f (bs ++ rest)) (assign-own k v usual acc plain)
          ∙ fs_read rest (add_last k v acc)
              (λ next later. add_last-Before k v acc next before_key (ground arith))),
)

pub value_fields :
    (l : ℕ) (fs : Fields)
    → fields_length fs < 2 ^ 64
    → FitFields l none fs
    → ReadBackFields l none fs
    → ReadBack (suc l) (obj usual fs)
unfolding encode join Before
value_fields l fs short fit (b, e, f) =
    let head = enc_head 5 (fields_length fs) in
    (
      head ++ b,
      rw (sort_entries-ordered l none fs fit, e) refl,
      λ rest. rw (append_assoc head b rest) (
          read_item-enc_head l 5 (fields_length fs) (b ++ rest) (omega arith) short
          ∙ body_fields (read_item l) _ (b ++ rest) _ (obj usual fs) (at rest) (rounds-count_of _)
              (f rest end (λ next first. tt))),
    )
