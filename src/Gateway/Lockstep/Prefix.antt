-- ===== src/Gateway/Lockstep/Prefix.antt =====
-- gateway.mjs, `reconcilePolicy`: `deriveAuthority` on the rows up to a version of a chain that it
-- has verified.
use enclave_gateway.Base.{
  length, ◌≤◌, some, ℕ, ◌+◌, ◌<◌, List, [], ◌∷◌, none, leb, ◌≡◌, refl, sym, ap, subst, ◌∙◌, inl,
  inr, arith, Bool-cases,
}
use enclave_gateway.Policy.Row.{Row}
use enclave_gateway.Policy.Chain.{sort_rows, insert_row}
use enclave_gateway.Gateway.Intake.{by_version, up_to}

-- Rows whose versions run from a number without a gap.
abbrev pub Numbered : ℕ → List Row → Type 0
Numbered v [] = Unit
Numbered v (r ∷ rs) = (r.version ≡ v) × Numbered (v + 1) rs

pub Numbered-past : (v w : ℕ) (rows : List Row) → Numbered v rows → w < v → up_to w rows ≡ []
Numbered-past v w [] n lt = refl
Numbered-past v w (r ∷ rs) (at, n) lt =
    let ih = Numbered-past (v + 1) w rs n (omega (arith, lt)) in ground (arith, at, lt, ih)

pub Numbered-missing :
    (v w : ℕ) (rows : List Row) → Numbered v rows → w < v → by_version w rows ≡ none
unfolding by_version
Numbered-missing v w [] n lt = refl
Numbered-missing v w (r ∷ rs) (at, n) lt =
    let ih = Numbered-missing (v + 1) w rs n (omega (arith, lt)) in ground (arith, at, lt, ih)

insert_row-least :
    (v : ℕ) (r : Row) (rows : List Row)
    → r.version ≡ v
    → Numbered (v + 1) rows
    → insert_row r rows ≡ r ∷ rows
unfolding insert_row
insert_row-least v r [] at n = refl
insert_row-least v r (s ∷ ss) at (next, n) = ground (arith, at, next)

-- Rows in the order of their versions are sorted already.
pub sort_rows-Numbered : (v : ℕ) (rows : List Row) → Numbered v rows → sort_rows rows ≡ rows
unfolding sort_rows
sort_rows-Numbered v [] n = refl
sort_rows-Numbered v (r ∷ rs) (at, n) =
    ap (insert_row r) (sort_rows-Numbered (v + 1) rs n) ∙ insert_row-least v r rs at n

pub up_to-Numbered : (v w : ℕ) (rows : List Row) → Numbered v rows → Numbered v (up_to w rows)
up_to-Numbered v w [] n = tt
up_to-Numbered v w (r ∷ rs) (at, n) = elim (Bool-cases (leb r.version w)) [
  | inl e ↦ rw e (at, up_to-Numbered (v + 1) w rs n)
  | inr e ↦
      rw e (subst (Numbered v) (sym (Numbered-past (v + 1) w rs n (ground (arith, e, at)))) tt)
]

pub by_version-later :
    (w : ℕ) (r s : Row) (rows : List Row)
    → by_version w rows ≡ some s
    → by_version w (r ∷ rows) ≡ some s
unfolding by_version
by_version-later w r s rows e = rw e refl

pub up_to-first :
    (w : ℕ) (r : Row) (rows : List Row) → r.version ≤ w → up_to w (r ∷ rows) ≡ r ∷ up_to w rows
up_to-first w r rows le = ground (arith, le)

pub up_to-length :
    (v w : ℕ) (rows : List Row) → Numbered v rows → v + length rows ≤ w + 1 → up_to w rows ≡ rows
up_to-length v w [] n le = refl
up_to-length v w (r ∷ rs) (at, n) le =
    up_to-first w r rs (omega (arith, at, le))
    ∙ ap (λ l. r ∷ l) (up_to-length (v + 1) w rs n (omega (arith, le)))
