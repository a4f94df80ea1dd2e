-- ===== src/Rewards/Tests.antt =====
-- The theorem on the payment of the miners, at a run with one block and a fee.
use chain_testing.Prelude.{
  ℕ, ◌+◌, ◌-◌, ◌*◌, ◌≡◌, refl, List, [], ◌∷◌, some, leb, leb-true, if◌then◌else◌, arith,
}
use chain_testing.Rewards.Payout.{
  DigestItem, pre_runtime, other_item, Rewards, Treasury, extract_miner_from_digest,
  finalize_rewards, on_nonzero_unbalanced,
}
use chain_testing.Rewards.Supply.{IsTreasury, supply, begin, fees, mined_block, Paid-supply}

-- A currency that only keeps the issuance, and pays nothing below 3.
abbrev treasury : Treasury ℕ
treasury = record {
  pay_new = λ miner amount b. if leb 3 amount then b + amount else b;
  drop_credit = λ amount b. b - amount;
  decode_account = λ account. some account;
  block_reward = 10;
  balance_max = 1000;
  pow_engine_id = 7;
}

abbrev issuance : ℕ → ℕ
issuance b = b

treasury-IsTreasury : IsTreasury treasury issuance 3
treasury-IsTreasury = record {
  issued = λ miner amount b enough fits. rw (leb-true 3 amount enough) refl;
  dropped = λ amount b le. omega arith;
}

abbrev before : Rewards ℕ
before = record { collected_fees = 0; bank = 100; events = [] }

abbrev digest : List DigestItem
digest = other_item ∷ pre_runtime 7 42 ∷ []

miner_42 : extract_miner_from_digest treasury digest ≡ some 42
unfolding extract_miner_from_digest
miner_42 = refl

abbrev after_fees : Rewards ℕ
after_fees = on_nonzero_unbalanced treasury 5 before

Paid-supply_example :
    supply treasury issuance (finalize_rewards treasury 1 digest after_fees)
    ≡ supply treasury issuance before + 1 * 10
Paid-supply_example =
    Paid-supply treasury issuance 3 treasury-IsTreasury
      (mined_block (fees begin 5 (omega arith)) 1 42 digest miner_42) (omega arith) (omega arith)
