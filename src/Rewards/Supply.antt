-- ===== src/Rewards/Supply.antt =====
-- The money that is issued and the fees that are collected, over a run
-- (pallets/mining-rewards/src/lib.rs).
use chain_testing.Prelude.{ℕ, suc, ◌+◌, ◌*◌, ◌≤◌, ◌≡◌, ◌∙◌, ap, List, none, some, arith}
use chain_testing.Prelude.Uint.{sat_add}
use chain_testing.Rewards.Payout.{
  DigestItem, Rewards, Treasury, extract_miner_from_digest, reward_miner, finalize_rewards,
  collect_transaction_fees, on_nonzero_unbalanced,
}

-- What the pallet relies on in the currency: newly issued money that fits, and of which there is
-- enough for a new account, adds to the issuance (less than the existential deposit is not paid to
-- an account that does not exist, and the issuance is taken back); and a dropped credit, which is
-- part of the issuance, is taken from it.
pub record IsTreasury {Bank : Type 0} (treasury : Treasury Bank) (issuance : Bank → ℕ)
    (existential_deposit : ℕ) : Type 0 where
  pub issued :
      (miner amount : ℕ) (b : Bank)
      → existential_deposit ≤ amount
      → issuance b + amount ≤ treasury.balance_max
      → issuance (treasury.pay_new miner amount b) ≡ issuance b + amount
  pub dropped :
      (amount : ℕ) (b : Bank)
      → amount ≤ issuance b
      → issuance (treasury.drop_credit amount b) + amount ≡ issuance b

times_suc : (n r : ℕ) → suc n * r ≡ n * r + r
times_suc n r = grind arith

module _ {Bank : Type 0} (treasury : Treasury Bank) (issuance : Bank → ℕ) where
  -- The money that is issued or owed to the next miner.
  abbrev pub supply : Rewards Bank → ℕ
  supply s = issuance s.bank + s.collected_fees

  -- A run with so many rewarded blocks: fees are taken from what is issued, and the digest of a
  -- block names a miner or none.
  pub data Paid (s : Rewards Bank) : ℕ → Rewards Bank → Type 0 where
    begin : Paid s 0 s
    fees :
        {n : ℕ} {t : Rewards Bank}
        → Paid s n t
        → (amount : ℕ) → amount ≤ issuance t.bank
        → Paid s n (on_nonzero_unbalanced treasury amount t)
    idle_block :
        {n : ℕ} {t : Rewards Bank}
        → Paid s n t
        → (number : ℕ) (logs : List DigestItem) → extract_miner_from_digest treasury logs ≡ none
        → Paid s n (finalize_rewards treasury number logs t)
    mined_block :
        {n : ℕ} {t : Rewards Bank}
        → Paid s n t
        → (number miner : ℕ) (logs : List DigestItem)
        → extract_miner_from_digest treasury logs ≡ some miner
        → Paid s (suc n) (finalize_rewards treasury number logs t)

  module _ (existential_deposit : ℕ) (laws : IsTreasury treasury issuance existential_deposit) where
    fees_supply :
        (amount : ℕ) (t : Rewards Bank)
        → supply t ≤ treasury.balance_max
        → amount ≤ issuance t.bank
        → supply (on_nonzero_unbalanced treasury amount t) ≡ supply t
    unfolding on_nonzero_unbalanced collect_transaction_fees
    fees_supply amount t fits le = let less = laws.dropped amount t.bank le in omega arith

    miner_supply :
        (number miner : ℕ) (t : Rewards Bank)
        → existential_deposit ≤ treasury.block_reward
        → supply t + treasury.block_reward ≤ treasury.balance_max
        → supply (reward_miner treasury number miner t) ≡ supply t + treasury.block_reward
    unfolding reward_miner
    miner_supply number miner t enough fits =
        let total = sat_add treasury.balance_max treasury.block_reward t.collected_fees in
        let whole : total ≡ treasury.block_reward + t.collected_fees = omega arith in
        let more = laws.issued miner total t.bank (omega arith) (omega arith) in omega arith

    mined_lem :
        (number miner : ℕ) (logs : List DigestItem) (t : Rewards Bank)
        → extract_miner_from_digest treasury logs ≡ some miner
        → finalize_rewards treasury number logs t ≡ reward_miner treasury number miner t
    unfolding finalize_rewards
    mined_lem number miner logs t e = rw (e, finalize_rewards)

    idle_lem :
        (number : ℕ) (logs : List DigestItem) (t : Rewards Bank)
        → extract_miner_from_digest treasury logs ≡ none
        → finalize_rewards treasury number logs t ≡ t
    unfolding finalize_rewards
    idle_lem number logs t e = rw (e, finalize_rewards)

    -- For a currency as `IsTreasury` says, and a block reward of at least the existential deposit:
    -- as long as the rewards fit in a balance, after any fees and blocks the money that is issued,
    -- or collected for the next miner, is what it was before and one reward for each block with a
    -- miner.
    pub Paid-supply :
        {s t : Rewards Bank} {n : ℕ}
        → Paid s n t
        → existential_deposit ≤ treasury.block_reward
        → supply s + n * treasury.block_reward ≤ treasury.balance_max
        → supply t ≡ supply s + n * treasury.block_reward
    Paid-supply {s} begin enough fits = omega arith
    Paid-supply {s} (fees {n} {t} before amount le) enough fits =
        let same = Paid-supply before enough fits in fees_supply amount t (omega arith) le ∙ same
    Paid-supply {s} (idle_block {n} {t} before number logs e) enough fits =
        ap supply (idle_lem number logs t e) ∙ Paid-supply before enough fits
    Paid-supply {s} (mined_block {n} {t} before number miner logs e) enough fits =
        let split = times_suc n treasury.block_reward in
        let same = Paid-supply before enough (omega arith) in
        let more = miner_supply number miner t enough (omega arith) in
        ap supply (mined_lem number miner logs t e) ∙ more ∙ omega arith
