-- ===== src/Faucet/Mint.antt =====
-- The state, the call and the check of unsigned calls of pallets/faucet/src/lib.rs.
use chain_testing.Prelude.{ℕ, Option, none, some, List, ◌∷◌, Bool, true, ltb, if◌then◌else◌}
use chain_testing.Dispatch.{Origin, DispatchResult, done, or_refuse}

pub data FaucetEvent : Type 0 where
  tokens_minted : ℕ → ℕ → FaucetEvent

pub data FaucetError : Type 0 where
  mint_failed : FaucetError

pub record Faucet (Bank : Type 0) : Type 0 where
  pub bank : Bank
  pub events : List FaucetEvent

-- The configuration, the resolution of an address, and the currency: `pay_new` is `issue` followed
-- by `resolve_creating`.
pub record Funds (Bank : Type 0) : Type 0 where
  pub max_token_amount : ℕ
  pub default_mint_amount : ℕ
  pub lookup : ℕ → Option ℕ
  pub free_balance : ℕ → Bank → ℕ
  pub pay_new : ℕ → ℕ → Bank → Bank

-- The calls that the pool may see: `mint_new_tokens`, and any other one.
pub data FaucetCall : Type 0 where
  mint_call : ℕ → ℕ → FaucetCall
  other_call : FaucetCall

pub record ValidTransaction : Type 0 where
  pub priority : ℕ
  pub longevity : ℕ
  pub propagate : Bool
  pub provides : ℕ × ℕ × ℕ

module _ {Bank : Type 0} (funds : Funds Bank) where
  -- The origin and the seed are not looked at.
  unfoldable pub mint_new_tokens :
      Origin → ℕ → ℕ → Faucet Bank → DispatchResult FaucetError (Faucet Bank)
  mint_new_tokens origin dest seed s = or_refuse (funds.lookup dest) λ dest.
      let balance = funds.free_balance dest s.bank in
      if ltb balance funds.max_token_amount
      then done (record {
        bank = funds.pay_new dest funds.default_mint_amount s.bank;
        events = tokens_minted dest funds.default_mint_amount ∷ s.events;
      })
      else done s

-- `validate_unsigned` at a block; `none` is an invalid call.
unfoldable pub validate_mint : ℕ → FaucetCall → Option ValidTransaction
validate_mint block_number (mint_call dest seed) = some (record {
  priority = 100;
  longevity = 64;
  propagate = true;
  provides = (dest, seed, block_number);
})
validate_mint block_number other_call = none
