-- ===== src/Airdrop/Solvent.antt =====
-- The balances of the airdrops and the pallet's account (pallets/merkle-airdrop/src/lib.rs).
use mathlib.Core.Path.{subst}
use chain_testing.Prelude.{
  ℕ, ◌==◌, suc, ◌+◌, ◌≤◌, ◌<◌, ◌≡◌, ◌≢◌, ◌⊎◌, inl, inr, none, sym, ap, Option, some, update, Map,
  arith,
}
use chain_testing.Prelude.Totals.{total_of_mono, total_of-update}
use chain_testing.Dispatch.{done_eq, ensure_inv, or_fail_inv, or_refuse_inv, ensure_signed_inv}
use chain_testing.Airdrop.Merkle.{Blake2}
use chain_testing.Airdrop.Calls.{
  AirdropMetadata, Currency, AirdropConfig, Airdrops, create_airdrop, fund_airdrop, delete_airdrop,
}
use chain_testing.Airdrop.Claims.{
  promised, total, Step, by_create, by_fund, by_claim, by_delete, Runs, stop, next, claim-IsPaid,
}

-- What the pallet relies on in the currency: a transfer adds its amount to another account, and
-- takes no more than its amount, since it keeps the sender alive. A vested transfer may end the
-- sender: then a rest below the existential deposit is lost with the amount.
pub record IsCurrency {Bank : Type 0} (currency : Currency Bank) (balance : Bank → ℕ → ℕ)
    (existential_deposit : ℕ) : Type 0 where
  pub received :
      (from to amount : ℕ) (b b' : Bank)
      → currency.transfer from to amount b ≡ some b'
      → from ≢ to
      → balance b' to ≡ balance b to + amount
  pub spent :
      (from to amount : ℕ) (b b' : Bank)
      → currency.transfer from to amount b ≡ some b'
      → balance b from ≤ balance b' from + amount
  pub vested :
      (from to amount per_block start : ℕ) (b b' : Bank)
      → currency.vested_transfer from to amount per_block start b ≡ some b'
      → (balance b from ≤ balance b' from + amount)
        ⊎ (balance b from < amount + existential_deposit)

module _ {Bank : Type 0} (blake2 : Blake2) (currency : Currency Bank) (c : AirdropConfig)
    (balance : Bank → ℕ → ℕ) (existential_deposit : ℕ)
    (laws : IsCurrency currency balance existential_deposit) where
  -- The sum of the balances of the airdrops, up to any number of them, is in the pallet's account,
  -- over and above the existential deposit.
  abbrev pub IsCovered : Map AirdropMetadata → Bank → Type 0
  IsCovered info bank = (n : ℕ) → total n info + existential_deposit ≤ balance bank c.account_id

  abbrev pub IsSolvent : Airdrops Bank → Type 0
  IsSolvent s = IsCovered s.airdrop_info s.bank

  promised-total : (info : Map AirdropMetadata) (i : ℕ) → promised (info i) ≤ total (suc i) info
  promised-total info i =
      let rest : total (suc i) (update info i none) + promised (info i)
          ≡ total (suc i) info + promised none =
        total_of-update _ (suc i) i info none (omega arith) in
      omega arith

  -- A change of one airdrop, with a change of the account that keeps up.
  covers :
      (info : Map AirdropMetadata) (b b' : Bank) (i : ℕ) (v : Option AirdropMetadata)
      → IsCovered info b
      → promised v + balance b c.account_id ≤ promised (info i) + balance b' c.account_id
      → IsCovered (update info i v) b'
  covers info b b' i v solvent change n =
      let m = n + suc i in
      let up : total n (update info i v) ≤ total m (update info i v) =
        total_of_mono _ n m _ (omega arith) in
      let moved : total m (update info i v) + promised (info i) ≡ total m info + promised v =
        total_of-update _ m i info v (omega arith) in
      let old = solvent m in omega arith

  Step-IsSolvent : {s s' : Airdrops Bank} → Step blake2 currency c s s' → IsSolvent s → IsSolvent s'
  unfolding create_airdrop fund_airdrop delete_airdrop
  Step-IsSolvent {s} {s'} (by_create origin root period delay e) solvent =
      let (who, _, e1) = ensure_signed_inv origin _ e in
      subst IsSolvent (done_eq e1)
        (covers s.airdrop_info s.bank s.bank s.next_airdrop_id _ solvent (omega arith))
  Step-IsSolvent {s} {s'} (by_fund who id amount apart e) solvent =
      let (metadata, known, e2) = or_fail_inv (s.airdrop_info id) _ _ e in
      let (bank, sent, e3) =
        or_refuse_inv (currency.transfer who c.account_id amount s.bank) _ e2 in
      let more = laws.received who c.account_id amount s.bank bank sent apart in
      let old : promised (s.airdrop_info id) ≡ metadata.balance = ap promised known in
      subst IsSolvent (done_eq e3) (covers s.airdrop_info s.bank bank id _ solvent (omega arith))
  Step-IsSolvent {s} {s'} (by_claim now origin id recipient amount proof e) solvent =
      let paid = claim-IsPaid blake2 currency c now origin id recipient amount proof s e in
      let old : promised (s.airdrop_info id) ≡ paid.metadata.balance = ap promised paid.known in
      let covered = paid.covered in
      let part = promised-total s.airdrop_info id in
      let room = solvent (suc id) in
      let less : balance s.bank c.account_id ≤ balance s'.bank c.account_id + amount =
        elim (laws.vested _ _ _ _ _ s.bank s'.bank paid.paid) [
          | inl kept ↦ kept
          | inr reaped ↦ absurd (omega arith)
        ] in
      subst (λ info. IsCovered info s'.bank) (sym paid.info)
        (covers s.airdrop_info s.bank s'.bank id _ solvent (omega arith))
  Step-IsSolvent {s} {s'} (by_delete origin id e) solvent =
      let (who, _, e1) = ensure_signed_inv origin _ e in
      let (metadata, known, e2) = or_fail_inv (s.airdrop_info id) _ _ e1 in
      let (_, e3) = ensure_inv (metadata.creator == who) _ _ e2 in
      let (bank, sent, e4) =
        or_refuse_inv (currency.transfer c.account_id metadata.creator metadata.balance s.bank) _
          e3 in
      let less = laws.spent _ _ _ s.bank bank sent in
      let old : promised (s.airdrop_info id) ≡ metadata.balance = ap promised known in
      subst IsSolvent (done_eq e4) (covers s.airdrop_info s.bank bank id _ solvent (omega arith))

  -- For a currency as `IsCurrency` says: successful calls, in any number and order, but no funding
  -- by the pallet's own account, keep the sum of the balances of the airdrops within what the
  -- pallet's account has over and above the existential deposit, if it is so before them.
  pub Runs-IsSolvent :
      {s s' : Airdrops Bank} → Runs blake2 currency c s s' → IsSolvent s → IsSolvent s'
  Runs-IsSolvent stop solvent = solvent
  Runs-IsSolvent (next before step) solvent = Step-IsSolvent step (Runs-IsSolvent before solvent)
