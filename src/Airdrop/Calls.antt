-- ===== src/Airdrop/Calls.antt =====
-- The storage and the calls of pallets/merkle-airdrop/src/lib.rs. A call that ends in an error
-- leaves no change: FRAME rolls it back. Currency and vesting are Substrate's: a parameter.
use chain_testing.Prelude.{
  ℕ, ◌/◌, Option, none, some, List, ◌∷◌, Bool, not, leb, ◌==◌, if◌then◌else◌, update, Map,
}
use chain_testing.Prelude.Uint.{u32_max, sat_add, sat_sub}
use chain_testing.Dispatch.{
  Origin, DispatchResult, done, ensure, or_fail, or_refuse, ensure_signed, ensure_none,
}
use chain_testing.Airdrop.Merkle.{Blake2, verify_merkle_proof}

pub data AirdropError : Type 0 where
  airdrop_not_found insufficient_airdrop_balance already_claimed : AirdropError
  invalid_proof not_airdrop_creator : AirdropError

pub record AirdropMetadata : Type 0 where
  pub merkle_root : ℕ
  pub creator : ℕ
  pub balance : ℕ
  pub vesting_period : Option ℕ
  pub vesting_delay : Option ℕ

pub data AirdropEvent : Type 0 where
  airdrop_created : ℕ → AirdropMetadata → AirdropEvent
  airdrop_funded : ℕ → ℕ → AirdropEvent
  airdrop_claimed : ℕ → ℕ → ℕ → AirdropEvent
  airdrop_deleted : ℕ → AirdropEvent

-- The accounts are kept in `Bank`; `none` is an error of the currency.
pub record Currency (Bank : Type 0) : Type 0 where
  pub transfer : ℕ → ℕ → ℕ → Bank → Option Bank
  pub vested_transfer : ℕ → ℕ → ℕ → ℕ → ℕ → Bank → Option Bank

-- The pallet's account, the conversion of block numbers, and the largest balance and block number.
pub record AirdropConfig : Type 0 where
  pub account_id : ℕ
  pub block_number_to_balance : ℕ → ℕ
  pub balance_max : ℕ
  pub block_max : ℕ

pub record Airdrops (Bank : Type 0) : Type 0 where
  pub airdrop_info : Map AirdropMetadata
  pub claimed : ℕ → ℕ → Bool
  pub next_airdrop_id : ℕ
  pub bank : Bank
  pub events : List AirdropEvent

abbrev pub AirdropResult : Type 0 → Type 0
AirdropResult A = DispatchResult AirdropError A

abbrev pub unwrap_or_default : Option ℕ → ℕ
unwrap_or_default none = 0
unwrap_or_default (some n) = n

-- `AirdropInfo::mutate` with a new balance.
abbrev pub set_balance : AirdropMetadata → ℕ → AirdropMetadata
set_balance metadata balance = record metadata { balance = balance }

module _ {Bank : Type 0} (blake2 : Blake2) (currency : Currency Bank) (c : AirdropConfig) where
  unfoldable pub create_airdrop :
      Origin → ℕ → Option ℕ → Option ℕ → Airdrops Bank → AirdropResult (Airdrops Bank)
  create_airdrop origin merkle_root vesting_period vesting_delay s = ensure_signed origin λ who.
      let metadata : AirdropMetadata = record {
        merkle_root = merkle_root;
        creator = who;
        balance = 0;
        vesting_period = vesting_period;
        vesting_delay = vesting_delay;
      } in
      done (record s {
        airdrop_info = update s.airdrop_info s.next_airdrop_id (some metadata);
        next_airdrop_id = sat_add u32_max s.next_airdrop_id 1;
        events = airdrop_created s.next_airdrop_id metadata ∷ s.events;
      })

  unfoldable pub fund_airdrop : Origin → ℕ → ℕ → Airdrops Bank → AirdropResult (Airdrops Bank)
  fund_airdrop origin id amount s = ensure_signed origin λ who.
      or_fail (s.airdrop_info id) airdrop_not_found λ metadata.
        or_refuse (currency.transfer who c.account_id amount s.bank) λ bank. done (record s {
          airdrop_info =
              update s.airdrop_info id
                (some (set_balance metadata (sat_add c.balance_max metadata.balance amount)));
          bank = bank;
          events = airdrop_funded id amount ∷ s.events;
        })

  -- The amount that vests in a block: `checked_div` fails on a period of zero.
  unfoldable pub per_block_of : Option ℕ → ℕ → Option ℕ
  per_block_of none amount = some amount
  per_block_of (some period) amount =
      if c.block_number_to_balance period == 0
      then none
      else some (amount / c.block_number_to_balance period)

  -- The end of a claim, after its checks.
  unfoldable pub pay_out :
      ℕ → ℕ → ℕ → ℕ → AirdropMetadata → Airdrops Bank → AirdropResult (Airdrops Bank)
  unfolding per_block_of
  pay_out now id recipient amount metadata s =
      or_fail (per_block_of metadata.vesting_period amount) insufficient_airdrop_balance
        λ per_block.
          or_refuse
            (currency.vested_transfer c.account_id recipient amount per_block
              (sat_add c.block_max now (unwrap_or_default metadata.vesting_delay)) s.bank)
            λ bank. done (record s {
              airdrop_info =
                  update s.airdrop_info id
                    (some (set_balance metadata (sat_sub metadata.balance amount)));
              claimed = update s.claimed id (update (s.claimed id) recipient Bool.true);
              bank = bank;
              events = airdrop_claimed id recipient amount ∷ s.events;
            })

  unfoldable pub claim :
      ℕ → Origin → ℕ → ℕ → ℕ → List ℕ → Airdrops Bank → AirdropResult (Airdrops Bank)
  unfolding pay_out
  claim now origin id recipient amount merkle_proof s = ensure_none origin (
      ensure (not (s.claimed id recipient)) already_claimed (
        or_fail (s.airdrop_info id) airdrop_not_found λ metadata.
          ensure (verify_merkle_proof blake2 recipient amount metadata.merkle_root merkle_proof)
            invalid_proof
            (ensure (leb amount metadata.balance) insufficient_airdrop_balance
              (pay_out now id recipient amount metadata s))))

  unfoldable pub delete_airdrop : Origin → ℕ → Airdrops Bank → AirdropResult (Airdrops Bank)
  delete_airdrop origin id s = ensure_signed origin λ who.
      or_fail (s.airdrop_info id) airdrop_not_found λ metadata.
        ensure (metadata.creator == who) not_airdrop_creator (
          or_refuse (currency.transfer c.account_id metadata.creator metadata.balance s.bank)
            λ bank. done (record s {
              airdrop_info = update s.airdrop_info id none;
              bank = bank;
              events = airdrop_deleted id ∷ s.events;
            }))

  -- The checks of an unsigned claim before it enters the pool, and what it provides.
  unfoldable pub validate_unsigned : ℕ → ℕ → ℕ → List ℕ → Airdrops Bank → AirdropResult (ℕ × ℕ × ℕ)
  validate_unsigned id recipient amount merkle_proof s =
      or_fail (s.airdrop_info id) airdrop_not_found λ metadata.
        ensure (not (s.claimed id recipient)) already_claimed (
          ensure (verify_merkle_proof blake2 recipient amount metadata.merkle_root merkle_proof)
            invalid_proof (done (id, recipient, amount)))
