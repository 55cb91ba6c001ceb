-- ===== src/Gateway/Accounts/Tests.antt =====
-- A run of the accounts, and the theorem at it.
use enclave_gateway.Base.{
  ℕ, List, [], ◌∷◌, String, some, ok, raise, Result, ◌≡◌, refl, lookup, insert, remove,
  String-discrete,
}
use enclave_gateway.Policy.Samples.{derived}
use enclave_gateway.StateAuthority.Store.{armed}
use enclave_gateway.Gateway.Accounts.{
  opened, closed, abandoned, released, Opening, unidentified, connected, Adoption, adopt,
  adopt_armed_link, adopt_armed_link, self_fence, renew, recover_account, watch, release_lease,
}
use enclave_gateway.Gateway.Accounts.Rounds.{
  for_each, renew_all_leases, account_watchdog, release_all_leases, healthy_count, no_accounts,
  Operation, adopting, renewing, watching, releasing, perform_all,
}
use enclave_gateway.Gateway.InUse.{Tidy, in_use}
use enclave_gateway.Gateway.Writers.{perform_all-Tidy}

abbrev adoption : Opening → Adoption
adoption o = record { phase = ok armed; lease = ok (3, 60000); opening = o; derived = some derived }

abbrev unreachable : String → Result String ℕ
unreachable s = raise "timeout"

abbrev reconnects : String → Opening
reconnects s = connected 9

-- An account whose owner Telegram does not tell is not adopted; another one is rebuilt when its
-- connection is stale, survives two failed renewals, and is released at the end.
abbrev life : List Operation
life =
    adopting "A" 0 (adoption (unidentified 1))
    ∷ adopting "B" 0 (adoption (connected 2))
    ∷ watching 80000 80000 reconnects
    ∷ renewing unreachable
    ∷ renewing unreachable
    ∷ []

lived :
    ((perform_all life no_accounts).log
      ≡ opened "B" 9
        ∷ closed "B" 2
        ∷ opened "B" 2
        ∷ released "A" 3
        ∷ abandoned "A" 1
        ∷ opened "A" 1
        ∷ [])
    × (healthy_count 80000 80000 (perform_all life no_accounts) ≡ 1)
    × ((perform_all (renewing unreachable ∷ []) (perform_all life no_accounts)).accts ≡ [])
    × ((perform_all (releasing ∷ []) (perform_all life no_accounts)).accts ≡ [])
unfolding adopt adopt_armed_link lookup insert remove self_fence renew recover_account watch
    release_lease for_each renew_all_leases account_watchdog release_all_leases healthy_count
    String-discrete
lived = (refl, refl, refl, refl)

-- `adopt` alone does not ask whether the account is served: its connection stays open.
adopt_again_test :
    in_use "B" (adopt "B" 0 (adoption (connected 7)) (perform_all life no_accounts)).log
    ≡ 7 ∷ 9 ∷ []
unfolding adopt adopt_armed_link lookup insert remove self_fence renew recover_account watch
    release_lease for_each renew_all_leases account_watchdog String-discrete
adopt_again_test = refl

perform_all-Tidy_example : Tidy (perform_all life no_accounts)
perform_all-Tidy_example = perform_all-Tidy life
