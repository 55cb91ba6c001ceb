-- ===== src/Envelope/Aad/Fields.antt =====
-- A field of the additional data, told from another by its bytes.
use enclave_gateway.Base.{
  Option, Bool, ltb, some, none, append-none, ok, arith, true, [], refl, ◌<◌, ℕ, ◌^◌, List, ◌++◌,
  length, All, ap, sym, ◌∙◌, ◌≡◌, take, drop, take-prefix,
}
use enclave_gateway.Envelope.Aad.{lp_string, u32, null_field}
use enclave_gateway.Protocol.Heads.{drop-prefix, length-be_bytes, be_number-be_bytes}
use mathlib.Core.List.{append_assoc}
use enclave_gateway.Protocol.Utf8.{utf8_bytes, utf8_text}
use enclave_gateway.Protocol.Utf8.Characters.{IsScalar, utf8_text-utf8_bytes}
use enclave_gateway.Protocol.Encode.{be_bytes}
use enclave_gateway.Protocol.Decode.{be_number}

-- Two lists that begin with as many bytes each.
split_equal :
    (k : ℕ) (a b x y : List ℕ) → length a ≡ k → length b ≡ k → a ++ x ≡ b ++ y → (a ≡ b) × (x ≡ y)
split_equal k a b x y la lb e = (
  sym (take-prefix k a x la) ∙ ap (take k) e ∙ take-prefix k b y lb,
  sym (drop-prefix k a x la) ∙ ap (drop k) e ∙ drop-prefix k b y lb,
)

utf8_bytes-injective :
    (s t : List ℕ) → All IsScalar s → All IsScalar t → utf8_bytes s ≡ utf8_bytes t → s ≡ t
utf8_bytes-injective s t hs ht e =
    sym (utf8_text-utf8_bytes s hs) ∙ ap utf8_text e ∙ utf8_text-utf8_bytes t ht

be_bytes-injective : (m n : ℕ) → m < 256 ^ 4 → n < 256 ^ 4 → be_bytes 4 m ≡ be_bytes 4 n → m ≡ n
be_bytes-injective m n hm hn e =
    sym (be_number-be_bytes 4 m hm) ∙ ap (be_number 0) e ∙ be_number-be_bytes 4 n hn

-- The text of a field, where there is one, is made of Unicode scalar values.
abbrev pub IsField : Option (List ℕ) → Type 0
IsField none = Unit
IsField (some s) = All IsScalar s

-- The number that stands before a field, and the bytes after it.
abbrev count : Option (List ℕ) → ℕ
count none = null_field
count (some s) = length (utf8_bytes s)

abbrev body : Option (List ℕ) → List ℕ
body none = []
body (some s) = utf8_bytes s

abbrev is_counted : Option (List ℕ) → Bool
is_counted none = true
is_counted (some s) = ltb (length (utf8_bytes s)) null_field

lp_string-eq-ok :
    (a : Option (List ℕ)) (p : List ℕ)
    → lp_string a ≡ ok p
    → (is_counted a ≡ true) × (p ≡ be_bytes 4 (count a) ++ body a)
unfolding lp_string
lp_string-eq-ok none p e =
    let same_bytes : be_bytes 4 null_field ≡ p = ground arith in
    (refl, sym same_bytes ∙ sym (append-none (be_bytes 4 null_field)))
lp_string-eq-ok (some s) p e = ground arith

-- The fields begin with their lengths, so both lists have the same field first.
same_length :
    (m n : ℕ) (a b : List ℕ)
    → m < 256 ^ 4
    → n < 256 ^ 4
    → be_bytes 4 m ++ a ≡ be_bytes 4 n ++ b
    → (m ≡ n) × (a ≡ b)
same_length m n a b hm hn e =
    let (heads, rests) =
      split_equal 4 (be_bytes 4 m) (be_bytes 4 n) a b (length-be_bytes 4 m) (length-be_bytes 4 n)
        e in
    (be_bytes-injective m n hm hn heads, rests)

is_counted-lt : (a : Option (List ℕ)) → is_counted a ≡ true → count a < 256 ^ 4
is_counted-lt none h = omega arith
is_counted-lt (some s) h = ground arith

-- Equal counts before equal bytes come from equal fields.
field-injective :
    (a b : Option (List ℕ)) (x y : List ℕ)
    → IsField a
    → IsField b
    → is_counted a ≡ true
    → is_counted b ≡ true
    → count a ≡ count b
    → body a ++ x ≡ body b ++ y
    → (a ≡ b) × (x ≡ y)
field-injective none none x y ha hb ca cb e f = (refl, f)
field-injective none (some t) x y ha hb ca cb e f = absurd (ground arith)
field-injective (some s) none x y ha hb ca cb e f = absurd (ground arith)
field-injective (some s) (some t) x y ha hb ca cb e f =
    let (same_bytes, rests) =
      split_equal (length (utf8_bytes t)) (utf8_bytes s) (utf8_bytes t) x y e refl f in
    (ap some (utf8_bytes-injective s t ha hb same_bytes), rests)

pub lp_string-injective :
    (a b : Option (List ℕ)) (p q x y : List ℕ)
    → IsField a
    → IsField b
    → lp_string a ≡ ok p
    → lp_string b ≡ ok q
    → p ++ x ≡ q ++ y
    → (a ≡ b) × (x ≡ y)
lp_string-injective a b p q x y ha hb ea eb e =
    let (ca, pe) = lp_string-eq-ok a p ea in
    let (cb, qe) = lp_string-eq-ok b q eb in
    let whole : be_bytes 4 (count a) ++ (body a ++ x) ≡ be_bytes 4 (count b) ++ (body b ++ y) =
      sym (append_assoc (be_bytes 4 (count a)) (body a) x)
      ∙ ap (λ t. t ++ x) (sym pe)
      ∙ e
      ∙ ap (λ t. t ++ y) qe
      ∙ append_assoc (be_bytes 4 (count b)) (body b) y in
    let (counts, rests) =
      same_length (count a) (count b) _ _ (is_counted-lt a ca) (is_counted-lt b cb) whole in
    field-injective a b x y ha hb ca cb counts rests

pub u32-injective :
    (a b : Option ℕ) (p q x y : List ℕ)
    → u32 a ≡ ok p
    → u32 b ≡ ok q
    → p ++ x ≡ q ++ y
    → (a ≡ b) × (x ≡ y)
unfolding u32
u32-injective none b p q x y ea eb e = cc
u32-injective (some m) none p q x y ea eb e = cc
u32-injective (some m) (some n) p q x y ea eb e =
    let (hm, pe) : (m < 256 ^ 4) × (be_bytes 4 m ≡ p) = ground arith in
    let (hn, qe) : (n < 256 ^ 4) × (be_bytes 4 n ≡ q) = ground arith in
    let (counts, rests) = same_length m n x y hm hn (rw (pe, qe) e) in (ap some counts, rests)
