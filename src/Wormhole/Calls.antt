-- ===== src/Wormhole/Calls.antt =====
-- The storage and the call of pallets/wormhole/src/lib.rs. The circuit and its proofs are those of
-- the prover's library, and the accounts those of the balances pallet: parameters.
use chain_testing.Prelude.{
  ℕ, Option, some, List, [], ◌∷◌, Bool, true, false, not, ◌&&◌, ◌==◌, if◌then◌else◌, is_some,
}
use chain_testing.Dispatch.{
  Origin, DispatchResult, done, ensure, ensure_none, or_fail, or_refuse, try,
}
use chain_testing.Wormhole.Inputs.{
  WormholeError, proof_deserialization_failed, verification_failed, nullifier_already_used,
  from_fields,
}

-- `ProofWithPublicInputs::from_bytes` and its public inputs, and `VERIFIER_DATA.verify`.
pub record Circuit (Proof : Type 0) : Type 0 where
  pub from_bytes : List ℕ → Option Proof
  pub public_inputs : Proof → List ℕ
  pub verify : Proof → Bool

-- The decoding of an account, the conversion of an amount, and `deposit_creating`.
pub record Minting (Bank : Type 0) : Type 0 where
  pub decode : List ℕ → Option ℕ
  pub balance_of : ℕ → Option ℕ
  pub deposit_creating : ℕ → ℕ → Bank → Bank

pub data WormholeEvent : Type 0 where
  proof_verified : ℕ → WormholeEvent

pub record Wormholes (Bank : Type 0) : Type 0 where
  pub used_nullifiers : List ℕ → Option Bool
  pub bank : Bank
  pub events : List WormholeEvent

-- Equality of byte arrays, as keys of the storage map.
abbrev pub same_bytes : List ℕ → List ℕ → Bool
same_bytes [] [] = true
same_bytes [] (y ∷ ys) = false
same_bytes (x ∷ xs) [] = false
same_bytes (x ∷ xs) (y ∷ ys) = (x == y) && same_bytes xs ys

-- `UsedNullifiers::insert`.
abbrev pub insert : (List ℕ → Option Bool) → List ℕ → Bool → List ℕ → Option Bool
insert m key v other = if same_bytes other key then some v else m other

module _ {Proof Bank : Type 0} (circuit : Circuit Proof) (minting : Minting Bank) where
  unfoldable pub verify_wormhole_proof :
      Origin → List ℕ → Wormholes Bank → DispatchResult WormholeError (Wormholes Bank)
  verify_wormhole_proof origin proof_bytes s = ensure_none origin (
      or_fail (circuit.from_bytes proof_bytes) proof_deserialization_failed λ proof.
        try (from_fields minting.decode (circuit.public_inputs proof)) λ public_inputs.
          ensure (not (is_some (s.used_nullifiers public_inputs.nullifier))) nullifier_already_used
            (ensure (circuit.verify proof) verification_failed (
              let used_nullifiers = insert s.used_nullifiers public_inputs.nullifier true in
              or_refuse (minting.balance_of public_inputs.exit_amount) λ exit_balance.
                done (record {
                  used_nullifiers = used_nullifiers;
                  bank = minting.deposit_creating public_inputs.exit_account exit_balance s.bank;
                  events = proof_verified exit_balance ∷ s.events;
                }))))
