-- ===== src/Extension/Validate.antt =====
-- `ReversibleTransactionExtension::validate` of runtime/src/transaction_extensions.rs.
-- The result comes with the storage that the check leaves, which the scheduling of an intercepted
-- transfer changes, also if it fails in the end: nothing is rolled back here.
use chain_testing.Prelude.{ℕ, Option, none, some, Bool, true, false}
use chain_testing.Dispatch.{Origin, signed, unsigned, root_origin, done, refused, panicked}
use chain_testing.Reversible.Types.{
  DelayPolicy, explicit, intercept, ReversibleAccountData, ReversibleConfig, Substrate, Reversibles,
}
use chain_testing.Reversible.Writes.{Attempt, schedule_writes}

-- The calls of the balances pallet that the extension looks for, and all others.
pub data RuntimeTransaction : Type 0 where
  transfer_keep_alive transfer_allow_death : ℕ → ℕ → RuntimeTransaction
  transfer_all : ℕ → Bool → RuntimeTransaction
  other_call : ℕ → RuntimeTransaction

-- `ValidTransaction`, `InvalidTransaction` and `UnknownTransaction`; a panic is its own result.
pub data Validity : Type 0 where
  valid bad_signer : Validity
  invalid_custom unknown_custom : ℕ → Validity
  validation_panicked : Validity

abbrev pub is_transfer : RuntimeTransaction → Bool
is_transfer (transfer_keep_alive dest value) = true
is_transfer (transfer_allow_death dest value) = true
is_transfer (transfer_all dest keep_alive) = true
is_transfer (other_call n) = false

module _ {World : Type 0} (substrate : Substrate World) (c : ReversibleConfig)
    (reducible_balance : ℕ → Bool → World → ℕ) where
  -- The destination and the amount of a transfer of `who`.
  abbrev pub transfer_of : ℕ → RuntimeTransaction → World → Option (ℕ × ℕ)
  transfer_of who (transfer_keep_alive dest value) world = some (dest, value)
  transfer_of who (transfer_allow_death dest value) world = some (dest, value)
  transfer_of who (transfer_all dest keep_alive) world =
      some (dest, reducible_balance who keep_alive world)
  transfer_of who (other_call n) world = none

  -- The transfer is scheduled, and the transaction is refused all the same.
  abbrev pub scheduled : Attempt World → Validity × Reversibles World
  scheduled (done _, t) = (unknown_custom 255, t)
  scheduled (refused e, t) = (invalid_custom 1, t)
  scheduled (panicked, t) = (validation_panicked, t)

  abbrev pub intercepted :
      ℕ → Origin → Option (ℕ × ℕ) → Reversibles World → Validity × Reversibles World
  intercepted now origin none s = (valid, s)
  intercepted now origin (some (dest, amount)) s =
      scheduled (schedule_writes substrate c now origin dest amount s)

  abbrev pub denied : Bool → Reversibles World → Validity × Reversibles World
  denied true s = (invalid_custom 0, s)
  denied false s = (valid, s)

  abbrev pub by_policy :
      ℕ → ℕ → DelayPolicy → RuntimeTransaction → Reversibles World → Validity × Reversibles World
  by_policy now who explicit call s = denied (is_transfer call) s
  by_policy now who intercept call s = intercepted now (signed who) (transfer_of who call s.world) s

  abbrev pub by_account :
      ℕ
      → ℕ
      → Option ReversibleAccountData
      → RuntimeTransaction
      → Reversibles World
      → Validity × Reversibles World
  by_account now who none call s = (valid, s)
  by_account now who (some account_data) call s = by_policy now who account_data.policy call s

  unfoldable pub validate :
      ℕ → Origin → RuntimeTransaction → Reversibles World → Validity × Reversibles World
  validate now (signed who) call s = by_account now who (s.reversible_accounts who) call s
  validate now unsigned call s = (bad_signer, s)
  validate now root_origin call s = (bad_signer, s)
