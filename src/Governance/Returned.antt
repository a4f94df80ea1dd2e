-- ===== src/Governance/Returned.antt =====
-- A deposit is returned in full (`PreimageDeposit` of runtime/src/governance.rs).
use chain_testing.Prelude.{ℕ, ◌+◌, ◌-◌, ◌≡◌, ◌∙◌, sym, ap, share, some, some_eq, arith}
use chain_testing.Prelude.Panic.{>>=-eq-some}
use chain_testing.Governance.Deposit.{
  Reserves, deposit_amount, new_deposit, update_deposit, drop_deposit,
}

-- What the deposits rely on in the currency.
pub record IsReserves {Bank : Type 0} (reserves : Reserves Bank) (reserved : Bank → ℕ → ℕ)
    : Type 0 where
  pub added :
      (owner amount who : ℕ) (b b' : Bank)
      → reserves.reserve owner amount b ≡ some b'
      → reserved b' who ≡ reserved b who + share owner who amount
  pub freed :
      (owner amount who : ℕ) (b : Bank)
      → reserved (reserves.unreserve owner amount b) who ≡ reserved b who - share owner who amount

module _ {Bank : Type 0} (reserves : Reserves Bank) (reserved : Bank → ℕ → ℕ)
    (laws : IsReserves reserves reserved) where
  -- A deposit of an account that was made and then changed any number of times: its amount and the
  -- balances.
  pub data Kept (owner : ℕ) (start : Bank) : ℕ → Bank → Type 0 where
    made :
        {amount : ℕ} {b : Bank}
        → (size count : ℕ) → new_deposit reserves owner size count start ≡ some (amount, b)
        → Kept owner start amount b
    changed :
        {amount amount' : ℕ} {b b' : Bank}
        → Kept owner start amount b
        → (size count : ℕ) → update_deposit reserves amount owner size count b ≡ some (amount', b')
        → Kept owner start amount' b'

  -- What is reserved while the deposit is kept.
  Kept-reserved :
      (owner who : ℕ) {start b : Bank} {amount : ℕ}
      → Kept owner start amount b
      → reserved b who ≡ reserved start who + share owner who amount
  unfolding new_deposit update_deposit
  Kept-reserved owner who {start} {b} {amount} (made size count e) =
      let (bank, taken, end) =
        >>=-eq-some (reserves.reserve owner (deposit_amount size count) start) _ e in
      let own : deposit_amount size count ≡ amount = ap (λ (p : ℕ × Bank). p.0) (some_eq end) in
      let same : bank ≡ b = ap (λ (p : ℕ × Bank). p.1) (some_eq end) in
      let more = laws.added owner (deposit_amount size count) who start bank taken in
      ap (λ (d : Bank). reserved d who) (sym same)
      ∙ more
      ∙ ap (λ n. reserved start who + share owner who n) own
  Kept-reserved owner who {start} {b = b'} {amount = amount'}
        (changed {amount} {b} before size count e) =
      let old = Kept-reserved owner who before in
      let free = laws.freed owner amount who b in
      let (bank, taken, end) =
        >>=-eq-some
          (reserves.reserve owner (deposit_amount size count) (reserves.unreserve owner amount b)) _
          e in
      let own : deposit_amount size count ≡ amount' = ap (λ (p : ℕ × Bank). p.0) (some_eq end) in
      let same : bank ≡ b' = ap (λ (p : ℕ × Bank). p.1) (some_eq end) in
      let more =
        laws.added owner (deposit_amount size count) who (reserves.unreserve owner amount b) bank
          taken in
      let back : reserved (reserves.unreserve owner amount b) who ≡ reserved start who =
        omega arith in
      ap (λ (d : Bank). reserved d who) (sym same)
      ∙ more
      ∙ ap (λ n. n + share owner who (deposit_amount size count)) back
      ∙ ap (λ n. reserved start who + share owner who n) own

  -- For a currency as `IsReserves` says: while a deposit is kept, which was made and then changed
  -- any number of times, exactly its amount is reserved of its owner on top of what was before, and
  -- when it is dropped every account has reserved what it had before the deposit.
  pub Kept-drop_deposit :
      (owner who : ℕ) {start b : Bank} {amount : ℕ}
      → Kept owner start amount b
      → (reserved b who ≡ reserved start who + share owner who amount)
        × (reserved (drop_deposit reserves amount owner b) who ≡ reserved start who)
  unfolding drop_deposit
  Kept-drop_deposit owner who {start} {b} {amount} kept =
      let old = Kept-reserved owner who kept in
      let free = laws.freed owner amount who b in (old, omega arith)
