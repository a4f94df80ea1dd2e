-- ===== src/Governance/Deposit.antt =====
-- `PreimageDeposit` of runtime/src/governance.rs. The balances are kept in `Bank`; `none` is an error
-- of the currency.
use chain_testing.Prelude.{ℕ, ◌/◌, Option, some}
use chain_testing.Prelude.Panic.{◌>>=◌}
use chain_testing.Prelude.Uint.{u128_max, sat_add, sat_mul}
use chain_testing.Governance.Tracks.{unit}

abbrev pub micro_unit : ℕ
micro_unit = 1_000_000

-- `reserve` fails if the account has too little; `unreserve` gives back what is reserved of it.
pub record Reserves (Bank : Type 0) : Type 0 where
  pub reserve : ℕ → ℕ → Bank → Option Bank
  pub unreserve : ℕ → ℕ → Bank → Bank

-- A base, and a rate for each byte and each preimage.
unfoldable pub deposit_amount : ℕ → ℕ → ℕ
deposit_amount size count =
    sat_add u128_max (unit / 10) (sat_mul u128_max (micro_unit / 10) (sat_add u128_max size count))

module _ {Bank : Type 0} (reserves : Reserves Bank) where
  -- The amount of a deposit of an account for a footprint, and the balances after it.
  unfoldable pub new_deposit : ℕ → ℕ → ℕ → Bank → Option (ℕ × Bank)
  new_deposit who size count bank =
      reserves.reserve who (deposit_amount size count) bank >>= λ bank.
      some (deposit_amount size count, bank)

  unfoldable pub update_deposit : ℕ → ℕ → ℕ → ℕ → Bank → Option (ℕ × Bank)
  update_deposit amount who size count bank =
      reserves.reserve who (deposit_amount size count) (reserves.unreserve who amount bank)
      >>= λ bank. some (deposit_amount size count, bank)

  unfoldable pub drop_deposit : ℕ → ℕ → Bank → Bank
  drop_deposit amount who bank = reserves.unreserve who amount bank
