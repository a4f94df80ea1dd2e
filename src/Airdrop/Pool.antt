-- ===== src/Airdrop/Pool.antt =====
-- The check of unsigned claims before they enter the pool, and the claims themselves
-- (pallets/merkle-airdrop/src/lib.rs).
use chain_testing.Prelude.{
  ℕ, refl, ◌≡◌, ◌⊎◌, inl, inr, List, Option, none, some, Bool-cases, not, leb,
}
use chain_testing.Prelude.Uint.{sat_add}
use chain_testing.Dispatch.{
  done, refused, frame_error, pallet_error, or_fail, or_refuse, ensure_inv, or_fail_inv, Origin,
  unsigned,
}
use chain_testing.Airdrop.Merkle.{Blake2, verify_merkle_proof}
use chain_testing.Airdrop.Calls.{
  AirdropResult, insufficient_airdrop_balance, AirdropMetadata, Currency, AirdropConfig, Airdrops,
  unwrap_or_default, per_block_of, pay_out, claim, validate_unsigned,
}
use chain_testing.Airdrop.Claims.{claim-IsPaid}

module _ {Bank : Type 0} (blake2 : Blake2) (currency : Currency Bank) (c : AirdropConfig) where
  -- A result that is a success, or is refused for want of money.
  abbrev pub IsMoney : AirdropResult (Airdrops Bank) → Type 0
  IsMoney r =
      ((s' : Airdrops Bank) × (r ≡ done s'))
      ⊎ ((r ≡ refused (pallet_error insufficient_airdrop_balance)) ⊎ (r ≡ refused frame_error))

  last-IsMoney :
      {A : Type 0} (o : Option A) (f : A → Airdrops Bank) → IsMoney (or_refuse o λ a. done (f a))
  last-IsMoney none f = inr (inr refl)
  last-IsMoney (some a) f = inl (f a, refl)

  first-IsMoney :
      {A : Type 0} (o : Option A) (rest : A → AirdropResult (Airdrops Bank))
      → ((a : A) → IsMoney (rest a))
      → IsMoney (or_fail o insufficient_airdrop_balance rest)
  first-IsMoney none rest all = inr (inl refl)
  first-IsMoney (some a) rest all = all a

  pay_out-IsMoney :
      (now id recipient amount : ℕ) (metadata : AirdropMetadata) (s : Airdrops Bank)
      → IsMoney (pay_out blake2 currency c now id recipient amount metadata s)
  unfolding pay_out
  pay_out-IsMoney now id recipient amount metadata s =
      first-IsMoney (per_block_of blake2 currency c metadata.vesting_period amount) _ λ per_block.
        last-IsMoney
          (currency.vested_transfer c.account_id recipient amount per_block
            (sat_add c.block_max now (unwrap_or_default metadata.vesting_delay)) s.bank)
          _

  -- An unsigned claim that the pool accepts succeeds on the same storage, or is refused for want
  -- of money: as an insufficient balance of the airdrop, or by the currency.
  pub validate_unsigned-claim :
      (now id recipient amount : ℕ) (proof : List ℕ) (s : Airdrops Bank) {tag : ℕ × ℕ × ℕ}
      → validate_unsigned blake2 currency c id recipient amount proof s ≡ done tag
      → IsMoney (claim blake2 currency c now unsigned id recipient amount proof s)
  unfolding validate_unsigned claim
  validate_unsigned-claim now id recipient amount proof s e =
      let (metadata, known, e1) = or_fail_inv (s.airdrop_info id) _ _ e in
      let (fresh, e2) = ensure_inv (not (s.claimed id recipient)) _ _ e1 in
      let (proved, _) =
        ensure_inv (verify_merkle_proof blake2 recipient amount metadata.merkle_root proof) _ _
          e2 in
      elim (Bool-cases (leb amount metadata.balance)) [
        | inl covered ↦
            rw (fresh, known, proved, covered) (pay_out-IsMoney now id recipient amount metadata s)
        | inr short ↦ inr (inl (rw (fresh, known, proved, short)))
      ]

  -- The pool accepts every claim that would succeed on the same storage.
  pub claim-validate_unsigned :
      (now id recipient amount : ℕ) (origin : Origin) (proof : List ℕ) (s : Airdrops Bank)
      {s' : Airdrops Bank}
      → claim blake2 currency c now origin id recipient amount proof s ≡ done s'
      → validate_unsigned blake2 currency c id recipient amount proof s
        ≡ done (id, recipient, amount)
  unfolding validate_unsigned
  claim-validate_unsigned now id recipient amount origin proof s e =
      let paid = claim-IsPaid blake2 currency c now origin id recipient amount proof s e in
      rw (paid.known, paid.unclaimed, paid.proved)
