-- ===== src/Rewards/Payout.antt =====
-- The storage, the hook and the collection of fees of pallets/mining-rewards/src/lib.rs. The
-- currency and the decoder of accounts are Substrate's: parameters.
use chain_testing.Prelude.{ℕ, Option, none, some, List, [], ◌∷◌, ◌==◌, if◌then◌else◌}
use chain_testing.Prelude.Uint.{sat_add}

-- The entries of a block's digest: a pre-runtime entry has the id of its engine and its data.
pub data DigestItem : Type 0 where
  pre_runtime : ℕ → ℕ → DigestItem
  other_item : DigestItem

pub data RewardEvent : Type 0 where
  miner_rewarded : ℕ → ℕ → ℕ → RewardEvent
  fees_collected : ℕ → ℕ → RewardEvent

pub record Rewards (Bank : Type 0) : Type 0 where
  pub collected_fees : ℕ
  pub bank : Bank
  pub events : List RewardEvent

-- `issue` followed by `resolve_creating`, and the drop of a credit that was taken from an account.
pub record Treasury (Bank : Type 0) : Type 0 where
  pub pay_new : ℕ → ℕ → Bank → Bank
  pub drop_credit : ℕ → Bank → Bank
  pub decode_account : ℕ → Option ℕ
  pub block_reward : ℕ
  pub balance_max : ℕ
  pub pow_engine_id : ℕ

module _ {Bank : Type 0} (treasury : Treasury Bank) where
  -- The first entry of the proof-of-work engine that decodes.
  unfoldable pub extract_miner_from_digest : List DigestItem → Option ℕ
  extract_miner_from_digest [] = none
  extract_miner_from_digest (other_item ∷ logs) = extract_miner_from_digest logs
  extract_miner_from_digest (pre_runtime engine_id account ∷ logs) =
      let rest = extract_miner_from_digest logs in
      if engine_id == treasury.pow_engine_id
      then elim (treasury.decode_account account) [ none ↦ rest | some miner ↦ some miner ]
      else rest

  -- The payment of the reward and of the collected fees to a miner.
  unfoldable pub reward_miner : ℕ → ℕ → Rewards Bank → Rewards Bank
  reward_miner number miner s =
      let total_reward = sat_add treasury.balance_max treasury.block_reward s.collected_fees in
      record {
        collected_fees = 0;
        bank = treasury.pay_new miner total_reward s.bank;
        events = miner_rewarded number miner total_reward ∷ s.events;
      }

  unfoldable pub finalize_rewards : ℕ → List DigestItem → Rewards Bank → Rewards Bank
  unfolding extract_miner_from_digest reward_miner
  finalize_rewards number logs s = elim (extract_miner_from_digest logs) [
    | none ↦ s
    | some miner ↦ reward_miner number miner s
  ]

  unfoldable pub collect_transaction_fees : ℕ → Rewards Bank → Rewards Bank
  collect_transaction_fees fees s =
      let total = sat_add treasury.balance_max s.collected_fees fees in
      record s { collected_fees = total; events = fees_collected fees total ∷ s.events }

  -- A credit of fees is counted and dropped.
  unfoldable pub on_nonzero_unbalanced : ℕ → Rewards Bank → Rewards Bank
  unfolding collect_transaction_fees
  on_nonzero_unbalanced amount s =
      let t = collect_transaction_fees amount s in
      record t { bank = treasury.drop_credit amount t.bank }
