-- ===== src/Gateway/InUse.antt =====
-- The connections of an account that are in use, and the order of closing and releasing.
use enclave_gateway.Base.{
  ℕ, ◌<◌, false, List, [], ◌∷◌, String, Option, none, some, eqs, eqs_refl, eqs_iff, ap, ◌∙◌, not,
  ◌==◌, filter, if◌then◌else◌, lookup, lookup-insert, lookup-remove, All, ◌≡◌, refl, sym, subst,
  inl, inr, arith, Bool-cases,
}
use enclave_gateway.Gateway.Accounts.{
  Event, opened, closed, abandoned, released, Account, Server, Opening, unconnected, unidentified,
  mismatched, connected, emit, store, drop, open_and_connect, fence,
}

abbrev pub without : ℕ → List ℕ → List ℕ
without n ns = filter (λ m. not (m == n)) ns

-- The connections of an account that were opened and neither closed nor abandoned since.
abbrev pub in_use : String → List Event → List ℕ
in_use s [] = []
in_use s (opened t n ∷ l) = if eqs t s then n ∷ in_use s l else in_use s l
in_use s (closed t n ∷ l) = if eqs t s then without n (in_use s l) else in_use s l
in_use s (abandoned t n ∷ l) = if eqs t s then without n (in_use s l) else in_use s l
in_use s (released t gen ∷ l) = in_use s l

-- A release comes where no connection of the account is in use.
abbrev pub Ordered : List Event → Type 0
Ordered [] = Unit
Ordered (released t gen ∷ l) = (in_use t l ≡ []) × Ordered l
Ordered (_ ∷ l) = Ordered l

-- What an account may have in use, and how often its renewals and its rebuilding have failed.
abbrev pub Fits : List ℕ → Option Account → Type 0
Fits ns none = ns ≡ []
Fits ns (some a) = All (λ n. n ≡ a.tx) ns × (a.renew_fail < 3) × (a.reconnect_attempts < 5)

pub record Tidy (v : Server) : Type 0 where
  pub fits : (s : String) → Fits (in_use s v.log) (lookup s v.accts)
  pub ordered : Ordered v.log

-- A connection that is closed is not in use.
pub without_tx : (ns : List ℕ) (tx : ℕ) → All (λ n. n ≡ tx) ns → without tx ns ≡ []
without_tx [] tx h = refl
without_tx (n ∷ ns) tx (e, h) = ground (arith, e, without_tx ns tx h)

-- What holds of the accounts but one, and what is needed of that one.
pub record Else (s : String) (v : Server) : Type 0 where
  pub others : (t : String) → eqs s t ≡ false → Fits (in_use t v.log) (lookup t v.accts)
  pub ordered : Ordered v.log

pub Tidy-Else : (s : String) (v : Server) → Tidy v → Else s v
Tidy-Else s v h = record { others = λ t _. h.fits t; ordered = h.ordered }

pub Else-Tidy :
    (s : String) (v : Server) → Else s v → Fits (in_use s v.log) (lookup s v.accts) → Tidy v
Else-Tidy s v h own = record {
  fits = λ t. elim (Bool-cases (eqs s t)) [
    | inl e ↦ subst (λ x. Fits (in_use x v.log) (lookup x v.accts)) ((eqs_iff s t).0 e) own
    | inr e ↦ h.others t e
  ];
  ordered = h.ordered;
}

pub store-Tidy :
    (s : String) (a : Account) (v : Server)
    → Else s v
    → Fits (in_use s v.log) (some a)
    → Tidy (store s a v)
store-Tidy s a v h own =
    Else-Tidy s (store s a v)
      (record {
        others = λ t e. rw (lookup-insert s t a v.accts, e) (h.others t e);
        ordered = h.ordered;
      })
      (rw (lookup-insert s s a v.accts, eqs_refl s) own)

pub drop-Tidy : (s : String) (v : Server) → Else s v → in_use s v.log ≡ [] → Tidy (drop s v)
drop-Tidy s v h own =
    Else-Tidy s (drop s v)
      (record {
        others = λ t e. rw (lookup-remove s t v.accts, e) (h.others t e);
        ordered = h.ordered;
      })
      (rw (lookup-remove s s v.accts, eqs_refl s) own)

-- The events of an account, as the others see them and as it sees them.
pub opened-Else : (s : String) (n : ℕ) (v : Server) → Else s v → Else s (emit (opened s n) v)
opened-Else s n v h = record { others = λ t e. rw e (h.others t e); ordered = h.ordered }

pub closed-Else : (s : String) (n : ℕ) (v : Server) → Else s v → Else s (emit (closed s n) v)
closed-Else s n v h = record { others = λ t e. rw e (h.others t e); ordered = h.ordered }

pub abandoned-Else : (s : String) (n : ℕ) (v : Server) → Else s v → Else s (emit (abandoned s n) v)
abandoned-Else s n v h = record { others = λ t e. rw e (h.others t e); ordered = h.ordered }

pub released-Else :
    (s : String) (gen : ℕ) (v : Server)
    → Else s v
    → in_use s v.log ≡ []
    → Else s (emit (released s gen) v)
released-Else s gen v h own = record { others = h.others; ordered = (own, h.ordered) }

pub in_use-opened :
    (s : String) (n : ℕ) (v : Server) → in_use s (emit (opened s n) v).log ≡ n ∷ in_use s v.log
in_use-opened s n v = rw (eqs_refl s) refl

pub in_use-closed :
    (s : String) (tx : ℕ) (v : Server)
    → All (λ n. n ≡ tx) (in_use s v.log)
    → in_use s (emit (closed s tx) v).log ≡ []
in_use-closed s tx v h = rw (eqs_refl s) (without_tx (in_use s v.log) tx h)

pub in_use-abandoned :
    (s : String) (tx : ℕ) (v : Server)
    → All (λ n. n ≡ tx) (in_use s v.log)
    → in_use s (emit (abandoned s tx) v).log ≡ []
in_use-abandoned s tx v h = rw (eqs_refl s) (without_tx (in_use s v.log) tx h)

pub fence-Tidy :
    (s : String) (a : Account) (v : Server)
    → Else s v
    → All (λ n. n ≡ a.tx) (in_use s v.log)
    → Tidy (fence s a v)
fence-Tidy s a v h own =
    drop-Tidy s (emit (closed s a.tx) v) (closed-Else s a.tx v h) (in_use-closed s a.tx v own)

pub one_in_use :
    (s : String) (n : ℕ) (v : Server)
    → in_use s v.log ≡ []
    → in_use s (emit (opened s n) v).log ≡ n ∷ []
one_in_use s n v own = in_use-opened s n v ∙ ap (λ l. n ∷ l) own

-- How an opening leaves an account with no connection in use.
abbrev pub OpenFits : String → Server → Server × Option ℕ → Type 0
OpenFits s v (w, none) = Else s w × (w.accts ≡ v.accts) × (in_use s w.log ≡ [])
OpenFits s v (w, some n) = Else s w × (w.accts ≡ v.accts) × (in_use s w.log ≡ n ∷ [])

pub open_and_connect-OpenFits :
    (s : String) (o : Opening) (v : Server)
    → Else s v
    → in_use s v.log ≡ []
    → OpenFits s v (open_and_connect s o v)
open_and_connect-OpenFits s unconnected v h own = (h, refl, own)
open_and_connect-OpenFits s (unidentified n) v h own = (
  abandoned-Else s n _ (opened-Else s n v h),
  refl,
  in_use-abandoned s n (emit (opened s n) v)
      (subst (All (λ m. m ≡ n)) (sym (one_in_use s n v own)) (refl, tt)),
)
open_and_connect-OpenFits s (mismatched n) v h own = (
  closed-Else s n _ (opened-Else s n v h),
  refl,
  in_use-closed s n (emit (opened s n) v)
      (subst (All (λ m. m ≡ n)) (sym (one_in_use s n v own)) (refl, tt)),
)
open_and_connect-OpenFits s (connected n) v h own =
    (opened-Else s n v h, refl, one_in_use s n v own)
