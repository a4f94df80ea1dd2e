-- ===== src/Airdrop/Once.antt =====
-- A second claim of an account (`claim` of pallets/merkle-airdrop/src/lib.rs).
use chain_testing.Prelude.{ℕ, ◌==◌, Bool, ◌≡◌, ◌∙◌, sym, ap, List, true}
use chain_testing.Dispatch.{
  done, refused, pallet_error, done_eq, ensure_inv, or_fail_inv, or_refuse_inv, ensure_signed_inv,
  Origin, unsigned,
}
use chain_testing.Airdrop.Merkle.{Blake2}
use chain_testing.Airdrop.Calls.{
  already_claimed, Currency, AirdropConfig, Airdrops, create_airdrop, fund_airdrop, claim,
  delete_airdrop,
}
use chain_testing.Airdrop.Claims.{
  mark_keeps, mark_sets, Step, by_create, by_fund, by_claim, by_delete, Runs, stop, next,
  claim-IsPaid,
}

module _ {Bank : Type 0} (blake2 : Blake2) (currency : Currency Bank) (c : AirdropConfig) where
  Step-claimed :
      (i r : ℕ) {s s' : Airdrops Bank}
      → Step blake2 currency c s s'
      → s.claimed i r ≡ true
      → s'.claimed i r ≡ true
  unfolding create_airdrop fund_airdrop delete_airdrop
  Step-claimed i r {s} {s'} (by_create origin root period delay e) h =
      let (who, _, e1) = ensure_signed_inv origin _ e in
      sym (ap (λ (t : Airdrops Bank). t.claimed i r) (done_eq e1)) ∙ h
  Step-claimed i r {s} {s'} (by_fund who id amount _ e) h =
      let (metadata, _, e2) = or_fail_inv (s.airdrop_info id) _ _ e in
      let (bank, _, e3) = or_refuse_inv (currency.transfer who c.account_id amount s.bank) _ e2 in
      sym (ap (λ (t : Airdrops Bank). t.claimed i r) (done_eq e3)) ∙ h
  Step-claimed i r {s} {s'} (by_claim now origin id recipient amount proof e) h =
      let paid = claim-IsPaid blake2 currency c now origin id recipient amount proof s e in
      ap (λ (m : ℕ → ℕ → Bool). m i r) paid.marked ∙ mark_keeps s.claimed id recipient i r h
  Step-claimed i r {s} {s'} (by_delete origin id e) h =
      let (who, _, e1) = ensure_signed_inv origin _ e in
      let (metadata, _, e2) = or_fail_inv (s.airdrop_info id) _ _ e1 in
      let (_, e3) = ensure_inv (metadata.creator == who) _ _ e2 in
      let (bank, _, e4) =
        or_refuse_inv (currency.transfer c.account_id metadata.creator metadata.balance s.bank) _
          e3 in
      sym (ap (λ (t : Airdrops Bank). t.claimed i r) (done_eq e4)) ∙ h

  Runs-claimed :
      (i r : ℕ) {s s' : Airdrops Bank}
      → Runs blake2 currency c s s'
      → s.claimed i r ≡ true
      → s'.claimed i r ≡ true
  Runs-claimed i r stop h = h
  Runs-claimed i r (next before step) h = Step-claimed i r step (Runs-claimed i r before h)

  claim_again :
      (now id recipient amount : ℕ) (proof : List ℕ) (s : Airdrops Bank)
      → s.claimed id recipient ≡ true
      → claim blake2 currency c now unsigned id recipient amount proof s
        ≡ refused (pallet_error already_claimed)
  unfolding claim
  claim_again now id recipient amount proof s h = rw h

  -- After a claim that succeeds, and any number of successful calls, deletions included, but no
  -- funding by the pallet's own account, every further unsigned claim of that account from that
  -- airdrop is refused as already claimed.
  pub claim-claim :
      (now now' id recipient amount amount' : ℕ) (origin : Origin) (proof proof' : List ℕ)
      (s : Airdrops Bank) {t u : Airdrops Bank}
      → claim blake2 currency c now origin id recipient amount proof s ≡ done t
      → Runs blake2 currency c t u
      → claim blake2 currency c now' unsigned id recipient amount' proof' u
        ≡ refused (pallet_error already_claimed)
  claim-claim now now' id recipient amount amount' origin proof proof' s {t} {u} e runs =
      let paid = claim-IsPaid blake2 currency c now origin id recipient amount proof s e in
      let marked =
        ap (λ (m : ℕ → ℕ → Bool). m id recipient) paid.marked ∙ mark_sets s.claimed id recipient in
      claim_again now' id recipient amount' proof' u (Runs-claimed id recipient runs marked)
