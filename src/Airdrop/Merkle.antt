-- ===== src/Airdrop/Merkle.antt =====
-- The Merkle proofs of pallets/merkle-airdrop/src/lib.rs. BLAKE2-256 is a parameter; a hash is the
-- number of its 32 bytes in big-endian order, so that numbers compare as the arrays do.
pub mod Tree
use chain_testing.Prelude.{ℕ, List, [], ◌∷◌, Bool, ltb, ◌==◌, if◌then◌else◌}

-- The hash of an encoded account and amount, and of two hashes one after the other.
pub record Blake2 : Type 0 where
  pub of_leaf : ℕ → ℕ → ℕ
  pub of_pair : ℕ → ℕ → ℕ

module _ (blake2 : Blake2) where
  abbrev pub calculate_leaf_hash_blake2 : ℕ → ℕ → ℕ
  calculate_leaf_hash_blake2 account amount = blake2.of_leaf account amount

  unfoldable pub calculate_parent_hash_blake2 : ℕ → ℕ → ℕ
  calculate_parent_hash_blake2 left right =
      if ltb left right then blake2.of_pair left right else blake2.of_pair right left

  -- The loop over the proof, from a hash so far.
  unfoldable pub climb : ℕ → List ℕ → ℕ
  unfolding calculate_parent_hash_blake2
  climb computed [] = computed
  climb computed (element ∷ proof) =
      climb
        (if ltb computed element
          then calculate_parent_hash_blake2 computed element
          else calculate_parent_hash_blake2 element computed)
        proof

  unfoldable pub verify_merkle_proof : ℕ → ℕ → ℕ → List ℕ → Bool
  unfolding climb
  verify_merkle_proof account amount merkle_root merkle_proof =
      climb (calculate_leaf_hash_blake2 account amount) merkle_proof == merkle_root
