-- ===== src/Governance/Tests.antt =====
-- The theorems on the governance at concrete origins and deposits.
use chain_testing.Prelude.{
  ℕ, ◌+◌, ◌-◌, ◌≡◌, refl, sym, ap, share, update, update-add, update-sub, some, some_eq, ◌∙◌,
}
use chain_testing.Governance.Deposit.{
  Reserves, deposit_amount, new_deposit, update_deposit, drop_deposit,
}
use chain_testing.Governance.Returned.{IsReserves, made, changed, Kept-drop_deposit}

-- What is reserved of all accounts, which have enough.
abbrev reserves : Reserves (ℕ → ℕ)
reserves = record {
  reserve = λ who amount bank. some (update bank who (bank who + amount));
  unreserve = λ who amount bank. update bank who (bank who - amount);
}

abbrev reserved : (ℕ → ℕ) → ℕ → ℕ
reserved bank who = bank who

reserves-IsReserves : IsReserves reserves reserved
reserves-IsReserves = record {
  added = λ owner amount who b b' e.
      ap (λ (d : ℕ → ℕ). d who) (sym (some_eq e)) ∙ update-add b owner amount who;
  freed = λ owner amount who b. update-sub b owner amount who;
}

abbrev start : ℕ → ℕ
start who = 3

abbrev first : ℕ → ℕ
first = update start 4 (start 4 + deposit_amount 100 1)

abbrev second : ℕ → ℕ
second =
    update (update first 4 (first 4 - deposit_amount 100 1)) 4
      (update first 4 (first 4 - deposit_amount 100 1) 4 + deposit_amount 200 1)

makes : new_deposit reserves 4 100 1 start ≡ some (deposit_amount 100 1, first)
unfolding new_deposit
makes = refl

changes :
    update_deposit reserves (deposit_amount 100 1) 4 200 1 first
    ≡ some (deposit_amount 200 1, second)
unfolding update_deposit
changes = refl

Kept-drop_deposit_example :
    (reserved second 4 ≡ reserved start 4 + share 4 4 (deposit_amount 200 1))
    × (reserved (drop_deposit reserves (deposit_amount 200 1) 4 second) 4 ≡ reserved start 4)
Kept-drop_deposit_example =
    Kept-drop_deposit reserves reserved reserves-IsReserves 4 4
      (changed (made 100 1 makes) 200 1 changes)
