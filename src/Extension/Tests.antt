-- ===== src/Extension/Tests.antt =====
-- The theorem on the transaction extension at a concrete account.
use chain_testing.Prelude.{ℕ, ◌≡◌, refl, ◌-◌, Bool, true, if◌then◌else◌, some}
use chain_testing.Dispatch.{signed, done}
use chain_testing.Reversible.Types.{intercept, Reversibles}
use chain_testing.Reversible.Calls.{set_reversibility}
use chain_testing.Reversible.Ledger.{stop}
use chain_testing.Reversible.Example.{World, substrate, config, held, genesis, after}
use chain_testing.Reversible.Writes.{schedule_writes}
use chain_testing.Extension.Validate.{transfer_keep_alive, transfer_all, invalid_custom, validate}
use chain_testing.Extension.Policy.{IsChecked, set_reversibility-validate}

-- All that is free, or all but one.
abbrev reducible_balance : ℕ → Bool → World → ℕ
reducible_balance who keep_alive w = if keep_alive then w.free who - 1 else w.free who

-- Account 1 lets its transfers be intercepted.
abbrev set_up : Reversibles World
unfolding set_reversibility
set_up =
    after (set_reversibility substrate config (signed 1) (some 5) intercept (some 7) genesis)
      genesis

sets :
    set_reversibility substrate config (signed 1) (some 5) intercept (some 7) genesis ≡ done set_up
unfolding set_reversibility
sets = refl

set_reversibility-validate_example :
    IsChecked substrate config held reducible_balance 100 1 intercept
      (transfer_all 2 true)
      set_up
      (validate substrate config reducible_balance 100 (signed 1) (transfer_all 2 true) set_up)
set_reversibility-validate_example =
    set_reversibility-validate substrate config held reducible_balance 100 1 (some 5) intercept
      (some 7) (transfer_all 2 true) genesis sets stop

-- A transfer of more than the account has: the hold fails, after the counter was raised.
fails_late :
    let (verdict, left) =
      validate substrate config reducible_balance 100
        (signed 1)
        (transfer_keep_alive 2 100000)
        set_up in
    (verdict ≡ invalid_custom 1) × (left.account_pending_index 1 ≡ 1)
unfolding validate schedule_writes set_reversibility set_up
fails_late = (refl, refl)
