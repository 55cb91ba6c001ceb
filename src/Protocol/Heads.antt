-- ===== src/Protocol/Heads.antt =====
-- The heads that `encHead` writes and `decode` reads.
use enclave_gateway.Base.{
  ◌≤◌, raise, take-whole, leb, none, sym, Bool-cases, if◌then◌else◌, inr, inl, true, ◌<◌, arith,
  ◌≡◌, false, ok, refl, ℕ, zero, suc, ◌+◌, ◌*◌, ◌/◌, ◌%◌, ◌^◌, List, [], ◌∷◌, ◌++◌, ltb, length,
  drop, length-append, take-prefix,
}
use enclave_gateway.Protocol.Encode.{non_canonical, enc_head, be_bytes}
use enclave_gateway.Protocol.Decode.{
  Head, Cursor, simple, read_item, read_body, rounds, payload, head_of, read_head, number, bigint,
  at, Count, be_number, read_uint,
}

pub length-be_bytes : (k n : ℕ) → length (be_bytes k n) ≡ k
unfolding be_bytes
length-be_bytes zero n = refl
length-be_bytes (suc k) n =
    omega (arith, length-append (be_bytes k (n / 256)) (n % 256 ∷ []), length-be_bytes k (n / 256))

be_number-append :
    (acc b : ℕ) (bs : List ℕ) → be_number acc (bs ++ (b ∷ [])) ≡ be_number acc bs * 256 + b
unfolding be_number
be_number-append acc b [] = refl
be_number-append acc b (c ∷ bs) = be_number-append (acc * 256 + c) b bs

-- A number that the bytes can hold is read back from them.
pub be_number-be_bytes : (k n : ℕ) → n < 256 ^ k → be_number 0 (be_bytes k n) ≡ n
unfolding be_bytes be_number
be_number-be_bytes zero n h = omega (arith, h)
be_number-be_bytes (suc k) n h =
    let smaller : n / 256 < 256 ^ k = grind arith in
    omega (
      arith,
      be_number-append 0 (n % 256) (be_bytes k (n / 256)),
      be_number-be_bytes k (n / 256) smaller,
    )

pub drop-prefix : (n : ℕ) (xs ys : List ℕ) → length xs ≡ n → drop n (xs ++ ys) ≡ ys
drop-prefix zero [] ys h = refl
drop-prefix zero (x ∷ xs) ys h = ground arith
drop-prefix (suc n) [] ys h = ground arith
drop-prefix (suc n) (x ∷ xs) ys h = drop-prefix n xs ys (omega (arith, h))

read_uint-be_bytes :
    (k least : ℕ) (as_count : ℕ → Count) (major n : ℕ) (rest : List ℕ)
    → n < 256 ^ k
    → ltb n least ≡ false
    → read_uint k least as_count major (be_bytes k n ++ rest)
      ≡ ok (record { major = major; count = as_count n; after = at rest })
unfolding read_uint
read_uint-be_bytes k least as_count major n rest h canonical =
    let long : ltb (length (be_bytes k n ++ rest)) k ≡ false =
      ground (arith, length-append (be_bytes k n) rest, length-be_bytes k n) in
    rw
      (
        long,
        take-prefix k (be_bytes k n) rest (length-be_bytes k n),
        drop-prefix k (be_bytes k n) rest (length-be_bytes k n),
        be_number-be_bytes k n h,
        canonical,
      )
      refl

-- A number that needs fewer bytes is refused.
pub read_uint-small :
    (k least : ℕ) (as_count : ℕ → Count) (major n : ℕ)
    → n < 256 ^ k
    → ltb n least ≡ true
    → read_uint k least as_count major (be_bytes k n) ≡ raise non_canonical
unfolding read_uint
read_uint-small k least as_count major n h small =
    let long : ltb (length (be_bytes k n)) k ≡ false = ground (arith, length-be_bytes k n) in
    let all_bytes : length (be_bytes k n) ≤ k = omega (arith, length-be_bytes k n) in
    rw (long, take-whole k (be_bytes k n) all_bytes, be_number-be_bytes k n h, small) refl

-- A count is a JavaScript number below 2^32, and a bigint from there.
abbrev pub count_of : ℕ → Count
count_of n = if ltb n 0x100000000 then number n else bigint n

head_of_info :
    (major info : ℕ)
    → info < 32
    → ((major * 32 + info) / 32 ≡ major) × ((major * 32 + info) % 32 ≡ info)
head_of_info major info h = omega arith

pub read_head-enc_head :
    (major n : ℕ) (rest : List ℕ)
    → n < 2 ^ 64
    → read_head (at (enc_head major n ++ rest))
      ≡ ok (record { major = major; count = count_of n; after = at rest })
unfolding read_head enc_head head_of
read_head-enc_head major n rest h = elim (Bool-cases (ltb n 24)) [
  | inl small ↦
      let (m, i) = head_of_info major n (ground arith) in
      let narrow : ltb n 0x100000000 ≡ true = ground arith in rw (small, m, i, small, narrow) refl
  | inr a ↦ elim (Bool-cases (ltb n 0x100)) [
    | inl b ↦
        let (m, i) = head_of_info major 24 (omega arith) in
        let narrow : ltb n 0x100000000 ≡ true = ground arith in
        let whole : n % 256 ≡ n = ground arith in rw (a, b, m, i, narrow) (rw (whole, a) refl)
    | inr b ↦ elim (Bool-cases (ltb n 0x10000)) [
      | inl c ↦
          let (m, i) = head_of_info major 25 (omega arith) in
          let narrow : ltb n 0x100000000 ≡ true = ground arith in
          rw (a, b, c, m, i, narrow)
            (read_uint-be_bytes 2 0x100 number major n rest (ground arith) b)
      | inr c ↦ elim (Bool-cases (ltb n 0x100000000)) [
        | inl d ↦
            let (m, i) = head_of_info major 26 (omega arith) in
            rw (a, b, c, d, m, i)
              (read_uint-be_bytes 4 0x10000 number major n rest (ground arith) c)
        | inr d ↦
            let (m, i) = head_of_info major 27 (omega arith) in
            rw (a, b, c, d, m, i)
              (read_uint-be_bytes 8 0x100000000 bigint major n rest (omega arith) d)
      ]
    ]
  ]
]

simple-first : (b : ℕ) (bs : List ℕ) → b < 0xf4 → simple (at (b ∷ bs)) ≡ none
unfolding simple
simple-first b bs h = ground arith

simple-enc_head :
    (major n : ℕ) (rest : List ℕ) → major < 6 → simple (at (enc_head major n ++ rest)) ≡ none
unfolding enc_head
simple-enc_head major n rest h = elim (Bool-cases (ltb n 24)) [
  | inl a ↦ rw a (simple-first _ _ (ground arith))
  | inr a ↦ elim (Bool-cases (ltb n 0x100)) [
    | inl b ↦ rw (a, b) (simple-first _ _ (omega arith))
    | inr b ↦ elim (Bool-cases (ltb n 0x10000)) [
      | inl c ↦ rw (a, b, c) (simple-first _ _ (omega arith))
      | inr c ↦ elim (Bool-cases (ltb n 0x100000000)) [
        | inl d ↦ rw (a, b, c, d) (simple-first _ _ (omega arith))
        | inr d ↦ rw (a, b, c, d) (simple-first _ _ (omega arith))
      ]
    ]
  ]
]

read_item_lem :
    (levels : ℕ) (c : Cursor) (h : Head)
    → simple c ≡ none
    → read_head c ≡ ok h
    → read_item (suc levels) c ≡ read_body (read_item levels) h
unfolding read_item
read_item_lem levels c h e f = rw (read_item, e, f) refl

-- An item that begins with a head is what the body makes of it.
pub read_item-enc_head :
    (levels major n : ℕ) (rest : List ℕ)
    → major < 6
    → n < 2 ^ 64
    → read_item (suc levels) (at (enc_head major n ++ rest))
      ≡ read_body (read_item levels) (record { major = major; count = count_of n; after = at rest })
read_item-enc_head levels major n rest h k =
    read_item_lem levels _ _ (simple-enc_head major n rest h) (read_head-enc_head major n rest k)

pub rounds-count_of : (n : ℕ) → rounds (count_of n) ≡ n
rounds-count_of n = ground arith

-- The bytes that a head announces are taken whole.
pub payload-prefix :
    (n : ℕ) (b rest : List ℕ) → n ≡ length b → payload (count_of n) (at (b ++ rest)) ≡ (b, at rest)
unfolding payload
payload-prefix n b rest e =
    let long : leb n (length (b ++ rest)) ≡ true = ground (arith, length-append b rest) in
    elim (Bool-cases (ltb n 0x100000000)) [
      | inl h ↦ rw (h, long, take-prefix n b rest (sym e), drop-prefix n b rest (sym e)) refl
      | inr h ↦ rw (h, long, take-prefix n b rest (sym e), drop-prefix n b rest (sym e)) refl
    ]
