-- ===== src/Qpow/Nonces.antt =====
-- The entry points for nonces (pallets/qpow/src/lib.rs). The check of a nonce is that of the math
-- crate, `is_valid_nonce header nonce threshold`, and is passed in.
use chain_testing.Prelude.{ℕ, ◌∷◌, some, Bool, false, ◌==◌, if◌then◌else◌}
use chain_testing.Qpow.Types.{Config, State, proof_submitted}
use chain_testing.Qpow.Threshold.{get_distance_threshold}

module _ (is_valid_nonce : ℕ → ℕ → ℕ → Bool) where
  unfoldable pub verify_for_import : Config → ℕ → ℕ → State → State × Bool
  verify_for_import c header nonce s =
      if is_valid_nonce header nonce (get_distance_threshold c s)
      then (record s { latest_nonce = some nonce }, Bool.true)
      else (s, false)

  unfoldable pub verify_historical_block : ℕ → ℕ → ℕ → State → Bool
  verify_historical_block header nonce number s =
      if s.block_distance_thresholds number == 0
      then false
      else is_valid_nonce header nonce (s.block_distance_thresholds number)

  unfoldable pub submit_nonce : Config → ℕ → ℕ → State → State × Bool
  submit_nonce c header nonce s =
      if is_valid_nonce header nonce (get_distance_threshold c s)
      then (
        record s { latest_nonce = some nonce; events = proof_submitted nonce ∷ s.events },
        Bool.true,
      )
      else (s, false)
