-- ===== src/Protocol/Utf8/Characters.antt =====
-- Decoding inverts encoding on texts of Unicode scalar values, character by character.
use enclave_gateway.Protocol.Utf8.{
  is_surrogate, char_bytes, utf8_bytes, Partial, idle, emit, wait, first_byte, next_byte, text_from,
  utf8_text,
}
use enclave_gateway.Base.{
  All, Bool-cases, ◌∙◌, inr, inl, suc, arith, ◌≡◌, false, true, refl, ℕ, ◌+◌, ◌*◌, ◌/◌, ◌%◌, ◌==◌,
  ltb, leb, ◌&&◌, List, [], ◌∷◌, ◌++◌,
}

abbrev pub IsScalar : ℕ → Type 0
IsScalar c = (is_surrogate c ≡ false) × (ltb c 0x110000 ≡ true)

module _ (bs : List ℕ) where
  -- A byte that waits for more, and a byte that ends a character.
  text_from-wait :
      (s : Partial) (b n lo hi p : ℕ)
      → next_byte s b ≡ wait n lo hi p
      → text_from s (b ∷ bs) ≡ text_from (wait n lo hi p).next bs
  unfolding text_from
  text_from-wait s b n lo hi p e = rw e refl

  text_from-emit :
      (s : Partial) (b c : ℕ)
      → next_byte s b ≡ emit c
      → text_from s (b ∷ bs) ≡ c ∷ text_from idle bs
  unfolding text_from
  text_from-emit s b c e = rw e refl

  text_from-last :
      (lo hi p x : ℕ)
      → (leb lo (0x80 + x) && leb (0x80 + x) hi) ≡ true
      → text_from (wait 1 lo hi p).next ((0x80 + x) ∷ bs) ≡ (p * 64 + x) ∷ text_from idle bs
  unfolding next_byte
  text_from-last lo hi p x h = text_from-emit _ _ _ (ground arith)

  text_from-more :
      (n lo hi p x : ℕ)
      → (leb lo (0x80 + x) && leb (0x80 + x) hi) ≡ true
      → text_from (wait (suc (suc n)) lo hi p).next ((0x80 + x) ∷ bs)
        ≡ text_from (wait (suc n) 0x80 0xbf (p * 64 + x)).next bs
  unfolding next_byte
  text_from-more n lo hi p x h = text_from-wait _ _ _ _ _ _ (ground arith)

-- The range that a first byte leaves the second, which the second byte of a character is in.
lead_three :
    (c : ℕ)
    → ltb c 0x800 ≡ false
    → is_surrogate c ≡ false
    → ltb c 0x10000 ≡ true
    → (lo : ℕ) × (hi : ℕ) × (first_byte (0xe0 + c / 4096) ≡ wait 2 lo hi (c / 4096))
      × ((leb lo (0x80 + c / 64 % 64) && leb (0x80 + c / 64 % 64) hi) ≡ true)
unfolding first_byte
lead_three c h s k = elim (Bool-cases (c / 4096 == 0)) [
  | inl z ↦ (0xa0, 0xbf, ground arith, ground arith)
  | inr z ↦ elim (Bool-cases (c / 4096 == 13)) [
    | inl d ↦ (0x80, 0x9f, ground arith, ground arith)
    | inr d ↦ (0x80, 0xbf, ground arith, ground arith)
  ]
]

lead_four :
    (c : ℕ)
    → ltb c 0x10000 ≡ false
    → ltb c 0x110000 ≡ true
    → (lo : ℕ) × (hi : ℕ) × (first_byte (0xf0 + c / 262144) ≡ wait 3 lo hi (c / 262144))
      × ((leb lo (0x80 + c / 4096 % 64) && leb (0x80 + c / 4096 % 64) hi) ≡ true)
unfolding first_byte
lead_four c h k = elim (Bool-cases (c / 262144 == 0)) [
  | inl z ↦ (0x90, 0xbf, ground arith, ground arith)
  | inr z ↦ elim (Bool-cases (c / 262144 == 4)) [
    | inl d ↦ (0x80, 0x8f, ground arith, ground arith)
    | inr d ↦ (0x80, 0xbf, ground arith, ground arith)
  ]
]

next_byte-idle : (b : ℕ) → next_byte idle b ≡ first_byte b
unfolding next_byte
next_byte-idle b = refl

module _ (c : ℕ) (bs : List ℕ) where
  text_from-one : ltb c 0x80 ≡ true → text_from idle (char_bytes c ++ bs) ≡ c ∷ text_from idle bs
  unfolding char_bytes first_byte
  text_from-one h = rw h (text_from-emit bs idle c c (next_byte-idle c ∙ rw h refl))

  text_from-two :
      ltb c 0x80 ≡ false
      → ltb c 0x800 ≡ true
      → text_from idle (char_bytes c ++ bs) ≡ c ∷ text_from idle bs
  unfolding char_bytes first_byte
  text_from-two h k =
      let lead : first_byte (0xc0 + c / 64) ≡ wait 1 0x80 0xbf (c / 64) = ground arith in
      let whole : c / 64 * 64 + c % 64 ≡ c = omega arith in
      rw (h, k)
        (text_from-wait _ idle _ 1 0x80 0xbf (c / 64) (next_byte-idle _ ∙ lead)
          ∙ text_from-last bs 0x80 0xbf (c / 64) (c % 64) (ground arith)
          ∙ rw whole refl)

  text_from-three :
      ltb c 0x80 ≡ false
      → ltb c 0x800 ≡ false
      → is_surrogate c ≡ false
      → ltb c 0x10000 ≡ true
      → text_from idle (char_bytes c ++ bs) ≡ c ∷ text_from idle bs
  unfolding char_bytes
  text_from-three h k s l =
      let (lo, hi, lead, within) = lead_three c k s l in
      let whole : (c / 4096 * 64 + c / 64 % 64) * 64 + c % 64 ≡ c = omega arith in
      rw (h, k, s, l)
        (text_from-wait _ idle _ 2 lo hi (c / 4096) (next_byte-idle _ ∙ lead)
          ∙ text_from-more _ 0 lo hi (c / 4096) (c / 64 % 64) within
          ∙ text_from-last bs 0x80 0xbf _ (c % 64) (ground arith)
          ∙ rw whole refl)

  text_from-four :
      ltb c 0x80 ≡ false
      → ltb c 0x800 ≡ false
      → is_surrogate c ≡ false
      → ltb c 0x10000 ≡ false
      → ltb c 0x110000 ≡ true
      → text_from idle (char_bytes c ++ bs) ≡ c ∷ text_from idle bs
  unfolding char_bytes
  text_from-four h k s l m =
      let (lo, hi, lead, within) = lead_four c l m in
      let whole : ((c / 262144 * 64 + c / 4096 % 64) * 64 + c / 64 % 64) * 64 + c % 64 ≡ c =
        omega arith in
      rw (h, k, s, l)
        (text_from-wait _ idle _ 3 lo hi (c / 262144) (next_byte-idle _ ∙ lead)
          ∙ text_from-more _ 1 lo hi (c / 262144) (c / 4096 % 64) within
          ∙ text_from-more _ 0 0x80 0xbf _ (c / 64 % 64) (ground arith)
          ∙ text_from-last bs 0x80 0xbf _ (c % 64) (ground arith)
          ∙ rw whole refl)

  text_from-char_bytes : IsScalar c → text_from idle (char_bytes c ++ bs) ≡ c ∷ text_from idle bs
  text_from-char_bytes (s, m) = elim (Bool-cases (ltb c 0x80)) [
    | inl h ↦ text_from-one h
    | inr h ↦ elim (Bool-cases (ltb c 0x800)) [
      | inl k ↦ text_from-two h k
      | inr k ↦ elim (Bool-cases (ltb c 0x10000)) [
        | inl l ↦ text_from-three h k s l
        | inr l ↦ text_from-four h k s l m
      ]
    ]
  ]

pub utf8_text-utf8_bytes : (s : List ℕ) → All IsScalar s → utf8_text (utf8_bytes s) ≡ s
unfolding utf8_text utf8_bytes text_from
utf8_text-utf8_bytes [] h = refl
utf8_text-utf8_bytes (c ∷ s) h =
    cc (text_from-char_bytes c (utf8_bytes s) h.0, utf8_text-utf8_bytes s h.1)
