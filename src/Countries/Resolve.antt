-- ===== src/Countries/Resolve.antt =====
-- locality-match.mjs, `countryNameToIso2`: the names of the two tables resolve to their own codes.
use mathlib.Core.List.{Memᴰ}
use Prim.Native.Char.{Char, code}
use enclave_gateway.Base.{
  false, ◌↔◌, ap, subst, sym, ◌∙◌, none, some, refl, arith, inl, inr, Option, Option-cases,
  Bool-cases, eqs_iff, ◌||◌, ◌&&◌, ◌++◌, ◌≡◌, Bool, true, not, ◌∷◌, [], List, String, eqs, map, all,
  if◌then◌else◌, ltb, ◌==◌, ℕ, ◌-◌, zero, suc, String-discrete,
}
use enclave_gateway.Countries.Table.{base_rows, alias_rows}
use enclave_gateway.Countries.Names.{normalize_country_name, last_row, country_name_to_iso2}

-- The character of a text at an index, or the one given.
unfoldable letter_at : String → ℕ → Char → Char
letter_at String.[] n c = c
letter_at (String.◌∷◌ d s) zero c = d
letter_at (String.◌∷◌ d s) (suc n) c = letter_at s n c

-- The letters with marks that the tables have, without them.
abbrev unmarked : Char → Char
unmarked c =
    if code c == 227
    then "a"
    else if code c == 233
    then "e"
    else if code c == 237
    then "i"
    else if code c == 244
    then "o"
    else if code c == 252
    then "u"
    else c

abbrev plain : Char → Char
plain c =
    if ltb (code c) 65
    then c
    else if ltb (code c) 91
    then letter_at "abcdefghijklmnopqrstuvwxyz" (code c - 65) c
    else if ltb (code c) 128
    then c
    else unmarked c

-- A name of the tables in lower case, without the marks on its letters.
unfoldable pub plain_text : String → String
unfolding letter_at
plain_text String.[] = ""
plain_text (String.◌∷◌ c s) = String.◌∷◌ (plain c) (plain_text s)

abbrev all_rows : List (String × String)
all_rows = base_rows ++ alias_rows

-- The rows with the normal forms of their names.
unfoldable normal_rows : List (String × String) → List (String × String)
normal_rows rows = map (λ r. (normalize_country_name plain_text r.0, r.1)) rows

-- A row agrees with another one, of another normal form or the same code.
abbrev agrees : String × String → String × String → Bool
agrees r s = not (eqs r.0 s.0) || eqs r.1 s.1

unfoldable consistent : List (String × String) → Bool
consistent [] = true
consistent (r ∷ rs) = not (eqs r.0 "") && all (agrees r) rs && consistent rs

tables_consistent : consistent (normal_rows all_rows) ≡ true
unfolding consistent normal_rows normalize_country_name plain_text String-discrete
tables_consistent = refl

all-mem {ℓ} :
    {A : Type ℓ} (p : A → Bool) (xs : List A) {x : A} → all p xs ≡ true → Memᴰ x xs → p x ≡ true
all-mem p [] h m = elim m [ ]
all-mem p (y ∷ ys) h (Memᴰ.head e) = subst (λ z. p z ≡ true) (sym e) (ground (arith, h))
all-mem p (y ∷ ys) h (Memᴰ.tail m) = all-mem p ys (ground (arith, h)) m

unfoldable last_code : List (String × String) → String → Option String
last_code [] n = none
last_code (r ∷ rs) n = elim (last_code rs n) [
  | some c ↦ some c
  | none ↦ if eqs r.0 n then some r.1 else none
]

last_code-mem :
    (rows : List (String × String)) (n c : String) → last_code rows n ≡ some c → Memᴰ (n, c) rows
unfolding last_code
last_code-mem [] n c e = cc
last_code-mem (r ∷ rs) n c e = elim (Option-cases (last_code rs n)) [
  | inr (d, q) ↦ Memᴰ.tail (last_code-mem rs n c (q ∙ (rw q at e)))
  | inl q ↦ elim (Bool-cases (eqs r.0 n)) [
    | inl t ↦
        let same : r.1 ≡ c = ground (arith, e, q, t) in
        Memᴰ.head (ap (λ x. (x, c)) (sym ((eqs_iff r.0 n).0 t)) ∙ ap (λ x. (r.0, x)) (sym same))
    | inr t ↦ ground (arith, e, q, t)
  ]
]

-- In consistent rows each row is found by its normal form.
consistent-last :
    (rows : List (String × String)) (n c : String)
    → consistent rows ≡ true
    → Memᴰ (n, c) rows
    → (last_code rows n ≡ some c) × (eqs n "" ≡ false)
unfolding consistent last_code
consistent-last [] n c h m = elim m [ ]
consistent-last (r ∷ rs) n c h (Memᴰ.tail m) =
    let (found, full) = consistent-last rs n c (ground (arith, h)) m in (rw found refl, full)
consistent-last (r ∷ rs) n c h (Memᴰ.head e) =
    let name : n ≡ r.0 = ap (λ x. x.0) e in
    let value : c ≡ r.1 = ap (λ x. x.1) e in
    let full : eqs r.0 "" ≡ false = ground (arith, h) in
    let others : all (agrees r) rs ≡ true = ground (arith, h) in
    (
      elim (Option-cases (last_code rs n)) [
        | inr (d, q) ↦
            let agree = all-mem (agrees r) rs others (last_code-mem rs n d q) in
            let there : eqs r.0 n ≡ true = (eqs_iff r.0 n).1 (sym name) in
            let same : r.1 ≡ d = (eqs_iff r.1 d).0 (ground (arith, agree, there)) in
            rw q (ap some (sym (value ∙ same)))
        | inl q ↦
            let there : eqs r.0 n ≡ true = (eqs_iff r.0 n).1 (sym name) in
            rw (q, there) (ap some (sym value))
      ],
      subst (λ x. eqs x "" ≡ false) (sym name) full,
    )

mem-normal :
    (rows : List (String × String)) (row iso2 : String)
    → Memᴰ (row, iso2) rows
    → Memᴰ (normalize_country_name plain_text row, iso2) (normal_rows rows)
unfolding normal_rows
mem-normal [] row iso2 m = elim m [ ]
mem-normal (r ∷ rs) row iso2 (Memᴰ.head e) =
    Memᴰ.head (ap (λ x. (normalize_country_name plain_text x.0, x.1)) e)
mem-normal (r ∷ rs) row iso2 (Memᴰ.tail m) = Memᴰ.tail (mem-normal rs row iso2 m)

normal-mem :
    (rows : List (String × String)) (n c : String)
    → Memᴰ (n, c) (normal_rows rows)
    → (row : String) × Memᴰ (row, c) rows × (n ≡ normalize_country_name plain_text row)
unfolding normal_rows
normal-mem [] n c m = elim m [ ]
normal-mem (r ∷ rs) n c (Memᴰ.head e) = (r.0, Memᴰ.head (ap (λ x. (r.0, x.1)) e), ap (λ x. x.0) e)
normal-mem (r ∷ rs) n c (Memᴰ.tail m) =
    let (row, at, q) = normal-mem rs n c m in (row, Memᴰ.tail at, q)

module _ (fold : String → String) where
  normalize-fold :
      (s : String)
      → fold s ≡ plain_text s
      → normalize_country_name fold s ≡ normalize_country_name plain_text s
  unfolding normalize_country_name
  normalize-fold s e = rw e refl

  last_row-normal :
      (rows : List (String × String)) (n : String)
      → ((row iso2 : String) → Memᴰ (row, iso2) rows → fold row ≡ plain_text row)
      → last_row fold rows n ≡ last_code (normal_rows rows) n
  unfolding last_row last_code normal_rows
  last_row-normal [] n folds = refl
  last_row-normal (r ∷ rs) n folds =
      let ih = last_row-normal rs n (λ row iso2 m. folds row iso2 (Memᴰ.tail m)) in
      let same = normalize-fold r.0 (folds r.0 r.1 (Memᴰ.head refl)) in
      rw ih (ap (λ t. last_code ((t, r.1) ∷ normal_rows rs) n) same)

  -- Where the names of the tables are folded to their letters in lower case, without their marks: a
  -- name that is not empty resolves to a code exactly if a row of the tables has that code and a name
  -- of the same normal form. So every name of the tables resolves to its own code.
  pub country_name_to_iso2_iff :
      ((row iso2 : String) → Memᴰ (row, iso2) (base_rows ++ alias_rows) → fold row ≡ plain_text row)
      → (name iso2 : String) → eqs name "" ≡ false
      → (country_name_to_iso2 fold name ≡ some iso2) ↔ (
          (row : String) × Memᴰ (row, iso2) (base_rows ++ alias_rows)
          × (normalize_country_name fold name ≡ normalize_country_name plain_text row))
  unfolding country_name_to_iso2
  country_name_to_iso2_iff folds name iso2 full =
      let n = normalize_country_name fold name in
      let table = last_row-normal (base_rows ++ alias_rows) n folds in
      (
        λ e. elim (Bool-cases (eqs n "")) [
          | inl t ↦ let stuck : none ≡ some iso2 = rw (full, t) at e in cc
          | inr t ↦
              let found : last_row fold (base_rows ++ alias_rows) n ≡ some iso2 =
                rw (full, t) at e in
              normal-mem (base_rows ++ alias_rows) n iso2
                (last_code-mem (normal_rows (base_rows ++ alias_rows)) n iso2 (sym table ∙ found))
        ],
        λ (row, m, q).
            let (found, some_text) =
              consistent-last (normal_rows (base_rows ++ alias_rows)) _ iso2 tables_consistent
                (mem-normal (base_rows ++ alias_rows) row iso2 m) in
            let named : eqs n "" ≡ false = subst (λ x. eqs x "" ≡ false) (sym q) some_text in
            rw (full, named)
              (table ∙ ap (last_code (normal_rows (base_rows ++ alias_rows))) q ∙ found),
      )
