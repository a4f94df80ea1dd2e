-- ===== src/Airdrop/Claims.antt =====
-- Successful calls, what a claim does, and the sum of the balances
-- (pallets/merkle-airdrop/src/lib.rs).
use chain_testing.Prelude.{
  ℕ, ◌-◌, ◌≤◌, ◌≡◌, ◌≢◌, ◌∙◌, inl, inr, sym, ap, List, Option, some, Bool, Bool-cases, true, false,
  leb→le, ◌==◌, ==→eq, ==-self, update, Map,
}
use chain_testing.Prelude.Uint.{sat_add}
use chain_testing.Prelude.Totals.{weigh, total_of}
use chain_testing.Dispatch.{
  done, done_eq, ensure_inv, or_fail_inv, or_refuse_inv, ensure_none_inv, not_inv, Origin, signed,
}
use chain_testing.Airdrop.Merkle.{Blake2, verify_merkle_proof}
use chain_testing.Airdrop.Calls.{
  AirdropMetadata, Currency, AirdropConfig, Airdrops, unwrap_or_default, set_balance,
  create_airdrop, fund_airdrop, per_block_of, claim, delete_airdrop,
}

-- Marking one claim keeps the others.
pub mark_keeps :
    (m : ℕ → ℕ → Bool) (id who i r : ℕ)
    → m i r ≡ true
    → update m id (update (m id) who true) i r ≡ true
mark_keeps m id who i r h = elim (Bool-cases (i == id)) [
  | inr other ↦ rw other h
  | inl same ↦ elim (Bool-cases (r == who)) [
    | inl self ↦ rw (same, self)
    | inr apart ↦ rw (same, apart) (rw (==→eq _ _ same) at h)
  ]
]

pub mark_sets : (m : ℕ → ℕ → Bool) (id who : ℕ) → update m id (update (m id) who true) id who ≡ true
mark_sets m id who = rw (==-self id, ==-self who)

-- The balance that is promised under an id, and under all ids below n.
abbrev pub promised : Option AirdropMetadata → ℕ
promised = weigh λ metadata. metadata.balance

abbrev pub total : ℕ → Map AirdropMetadata → ℕ
total = total_of λ metadata. metadata.balance

module _ {Bank : Type 0} (blake2 : Blake2) (currency : Currency Bank) (c : AirdropConfig) where
  -- A call that succeeds. The pallet's account has no key, and does not fund an airdrop.
  pub data Step (s s' : Airdrops Bank) : Type 0 where
    by_create :
        (origin : Origin) (root : ℕ) (period delay : Option ℕ)
        → create_airdrop blake2 currency c origin root period delay s ≡ done s'
        → Step s s'
    by_fund :
        (who id amount : ℕ)
        → who ≢ c.account_id
        → fund_airdrop blake2 currency c (signed who) id amount s ≡ done s'
        → Step s s'
    by_claim :
        (now : ℕ) (origin : Origin) (id recipient amount : ℕ) (proof : List ℕ)
        → claim blake2 currency c now origin id recipient amount proof s ≡ done s'
        → Step s s'
    by_delete :
        (origin : Origin) (id : ℕ)
        → delete_airdrop blake2 currency c origin id s ≡ done s'
        → Step s s'

  -- Any number of successful calls.
  pub data Runs (s : Airdrops Bank) : Airdrops Bank → Type 0 where
    stop : Runs s s
    next : {t u : Airdrops Bank} → Runs s t → Step t u → Runs s u

  -- What a claim has done.
  pub record IsPaid (id recipient amount : ℕ) (proof : List ℕ) (s s' : Airdrops Bank) : Type 0 where
    pub metadata : AirdropMetadata
    pub per_block : ℕ
    pub from_block : ℕ
    pub unclaimed : s.claimed id recipient ≡ false
    pub known : s.airdrop_info id ≡ some metadata
    pub proved : verify_merkle_proof blake2 recipient amount metadata.merkle_root proof ≡ true
    pub covered : amount ≤ metadata.balance
    pub paid :
        currency.vested_transfer c.account_id recipient amount per_block from_block s.bank
        ≡ some s'.bank
    pub info :
        s'.airdrop_info
        ≡ update s.airdrop_info id (some (set_balance metadata (metadata.balance - amount)))
    pub marked : s'.claimed ≡ update s.claimed id (update (s.claimed id) recipient true)

  pub claim-IsPaid :
      (now : ℕ) (origin : Origin) (id recipient amount : ℕ) (proof : List ℕ) (s : Airdrops Bank)
      {s' : Airdrops Bank}
      → claim blake2 currency c now origin id recipient amount proof s ≡ done s'
      → IsPaid id recipient amount proof s s'
  unfolding claim
  claim-IsPaid now origin id recipient amount proof s {s'} e =
      let (_, e1) = ensure_none_inv origin _ e in
      let (fresh, e2) = ensure_inv _ _ _ e1 in
      let (metadata, known, e3) = or_fail_inv _ _ _ e2 in
      let (proved, e4) = ensure_inv _ _ _ e3 in
      let (covered, e5) = ensure_inv _ _ _ e4 in
      let (per_block, _, e6) =
        or_fail_inv (per_block_of blake2 currency c metadata.vesting_period amount) _ _ e5 in
      let (bank, paid, e7) = or_refuse_inv _ _ e6 in
      let end = done_eq e7 in
      record {
        metadata = metadata;
        per_block = per_block;
        from_block = sat_add c.block_max now (unwrap_or_default metadata.vesting_delay);
        unclaimed = not_inv _ fresh;
        known = known;
        proved = proved;
        covered = leb→le _ _ covered;
        paid = paid ∙ ap (λ (t : Airdrops Bank). some t.bank) end;
        info = sym (ap (λ (t : Airdrops Bank). t.airdrop_info) end);
        marked = sym (ap (λ (t : Airdrops Bank). t.claimed) end);
      }
