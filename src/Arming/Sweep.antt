-- ===== src/Arming/Sweep.antt =====
-- arm.mjs, `sweepPendingArms`: the arming of each link that has a genesis, over what the effects answer for it.
use mathlib.Core.List.{Memᴰ}
use enclave_gateway.Arming.Warranted.{Warranted, Fits, complete_arm-Warranted}
use enclave_gateway.Base.{
  suc, All-append, All-mono, subst, sym, inl, inr, Bool, inr, inl, ℕ, List, [], ◌∷◌, ◌++◌, String,
  Option, none, some, Result, ok, raise, ◌+◌, length, ◌≡◌, refl, arith, All,
}
use enclave_gateway.Policy.Json.{Value}
use enclave_gateway.Policy.Row.{Row, Signature}
use enclave_gateway.Envelope.Seal.{Sealed, Decrypted, Payload}
use enclave_gateway.Arming.Genesis.{PendingRow, Answers, Armament, ArmError, Call, genesis_of}
use enclave_gateway.Arming.Complete.{complete_arm}

-- A link with what its look at the genesis and its arming are answered.
pub record Linked (C : Type 0) : Type 0 where
  pub row : PendingRow C
  pub look : Result String (List Row)
  pub answers : Answers

-- What a sweep has called, and its counts; `error` is the one of the query of the links.
pub record Swept (C : Type 0) : Type 0 where
  pub calls : List (Call C)
  pub completed : ℕ
  pub failed : ℕ
  pub skipped : ℕ
  pub failures : List (String × ArmError)
  pub error : Option String

abbrev pub nothing_swept : {C : Type 0} → Option String → Swept C
nothing_swept error = record {
  calls = [];
  completed = 0;
  failed = 0;
  skipped = 0;
  failures = [];
  error = error;
}

-- The look at the genesis, where an error counts as none.
abbrev pub seen_genesis : Result String (List Row) → Option Row
seen_genesis (ok rows) = genesis_of rows
seen_genesis (raise e) = none

-- The counts with those of the links that come after.
abbrev pub counted :
    {C : Type 0} → String → List (Call C) → Result ArmError (Armament C) → Swept C → Swept C
counted link calls (ok arm) rest = record rest {
  calls = calls ++ rest.calls;
  completed = rest.completed + 1;
}
counted link calls (raise e) rest = record rest {
  calls = calls ++ rest.calls;
  failed = rest.failed + 1;
  failures = (link, e) ∷ rest.failures;
}

-- Each of so many links is counted once, and each failure is listed.
abbrev pub Tallied : {C : Type 0} → ℕ → Swept C → Type 0
Tallied n s = (s.completed + s.failed + s.skipped ≡ n) × (length s.failures ≡ s.failed)

counted-Tallied :
    {C : Type 0} (link : String) (calls : List (Call C)) (r : Result ArmError (Armament C))
    (rest : Swept C) (n : ℕ)
    → Tallied n rest
    → Tallied (suc n) (counted link calls r rest)
counted-Tallied link calls (ok arm) rest n (t, f) = (omega (arith, t), f)
counted-Tallied link calls (raise e) rest n (t, f) = (omega (arith, t), ground (arith, f))

counted-calls :
    {C : Type 0} (link : String) (calls : List (Call C)) (r : Result ArmError (Armament C))
    (rest : Swept C)
    → (counted link calls r rest).calls ≡ calls ++ rest.calls
counted-calls link calls (ok arm) rest = refl
counted-calls link calls (raise e) rest = refl

module _ (date : Value → Option ℕ) (sha256 : String → String)
    (counts : String → String → Signature → Value → Value → Bool) (lower : String → String)
    {C : Type 0} (gcm_seal : List ℕ → List ℕ → List ℕ → Payload → C)
    (gcm_open : List ℕ → List ℕ → List ℕ → C → Decrypted) (digest : List ℕ → List ℕ)
    (texts : Sealed C → List ℕ × List ℕ × List ℕ) (now : ℕ) where
  abbrev pub sweep_link : Linked C → Option Row → Swept C → Swept C
  sweep_link l none rest = record rest { skipped = rest.skipped + 1 }
  sweep_link l (some genesis) rest =
      let done =
        complete_arm date sha256 counts lower gcm_seal gcm_open digest texts now l.row l.answers in
      counted l.row.id done.calls done.result rest

  unfoldable pub sweep_links : List (Linked C) → Swept C
  sweep_links [] = nothing_swept none
  sweep_links (l ∷ ls) = sweep_link l (seen_genesis l.look) (sweep_links ls)

  unfoldable pub sweep_pending_arms : Result String (List (Linked C)) → Swept C
  sweep_pending_arms (raise e) = nothing_swept (some e)
  sweep_pending_arms (ok links) = sweep_links links

  -- Each link is counted once, and each failure is listed.
  -- A call with the link that it is made for and the armament that stands behind it.
  pub record Backed (links : List (Linked C)) (call : Call C) : Type 0 where
    pub link : Linked C
    pub listed : Memᴰ link links
    pub arm : Armament C
    pub warranted :
        Warranted date sha256 counts lower gcm_seal gcm_open digest texts now link.row link.answers
          arm
    pub fits :
        Fits date sha256 counts lower gcm_seal gcm_open digest texts now link.row link.answers arm
          call

  Backed-tail :
      (l : Linked C) (ls : List (Linked C)) (call : Call C) → Backed ls call → Backed (l ∷ ls) call
  Backed-tail l ls call b = record {
    link = b.link;
    listed = Memᴰ.tail b.listed;
    arm = b.arm;
    warranted = b.warranted;
    fits = b.fits;
  }

  complete_arm-Backed :
      (l : Linked C) (ls : List (Linked C))
      → All
          (Backed (l ∷ ls))
          (complete_arm date sha256 counts lower gcm_seal gcm_open digest texts now l.row
            l.answers).calls
  complete_arm-Backed l ls =
      elim (complete_arm-Warranted date sha256 counts lower gcm_seal gcm_open digest texts now l.row
        l.answers) [
          | inl none_made ↦ rw none_made tt
          | inr (arm, w, fit) ↦
              All-mono _ _
                (λ call f. record {
                  link = l;
                  listed = Memᴰ.head refl;
                  arm = arm;
                  warranted = w;
                  fits = f;
                })
                _ fit
        ]

  sweep_link-Tallied :
      (l : Linked C) (o : Option Row) (rest : Swept C) (n : ℕ)
      → Tallied n rest
      → Tallied (suc n) (sweep_link l o rest)
  sweep_link-Tallied l none rest n (t, f) = (omega (arith, t), f)
  sweep_link-Tallied l (some genesis) rest n h = counted-Tallied l.row.id _ _ rest n h

  sweep_link-Backed :
      (l : Linked C) (ls : List (Linked C)) (o : Option Row) (rest : Swept C)
      → All (Backed (l ∷ ls)) rest.calls
      → All (Backed (l ∷ ls)) (sweep_link l o rest).calls
  sweep_link-Backed l ls none rest h = h
  sweep_link-Backed l ls (some genesis) rest h =
      let done =
        complete_arm date sha256 counts lower gcm_seal gcm_open digest texts now l.row l.answers in
      subst (All (Backed (l ∷ ls))) (sym (counted-calls l.row.id done.calls done.result rest))
        (All-append (Backed (l ∷ ls)) done.calls rest.calls (complete_arm-Backed l ls) h)

  -- A sweep counts each link once, lists each failure, and makes each of its calls for one of the
  -- links, with an armament of that link behind it.
  pub sweep_links-Backed :
      (links : List (Linked C))
      → Tallied (length links) (sweep_links links) × All (Backed links) (sweep_links links).calls
  unfolding sweep_links
  sweep_links-Backed [] = ((refl, refl), tt)
  sweep_links-Backed (l ∷ ls) =
      let (tallied, backed) = sweep_links-Backed ls in
      (
        sweep_link-Tallied l (seen_genesis l.look) (sweep_links ls) (length ls) tallied,
        sweep_link-Backed l ls (seen_genesis l.look) (sweep_links ls)
            (All-mono (Backed ls) (Backed (l ∷ ls)) (Backed-tail l ls) _ backed),
      )
