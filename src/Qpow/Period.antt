-- ===== src/Qpow/Period.antt =====
-- A period of the retargeting, block after block (`on_finalize` in pallets/qpow/src/lib.rs), and the
-- record of thresholds by which old blocks are verified.
use chain_testing.Prelude.{
  ℕ, ◌+◌, ◌/◌, ◌≤◌, ◌<◌, ◌≡◌, ◌∙◌, sym, Bool-cases, update_self, ◌⊎◌, inl, inr, refl, Option, some,
  List, [], ◌∷◌, length, arith, Bool,
}
use chain_testing.Prelude.Panic.{◌>>=◌}
use chain_testing.Prelude.Uint.{u32_max, u512_max}
use chain_testing.Qpow.Types.{Config, State, FixedU128, IsFixed}
use chain_testing.Qpow.Threshold.{get_max_distance, get_distance_threshold}
use chain_testing.Qpow.Hooks.{on_finalize}
use chain_testing.Qpow.Nonces.{verify_historical_block, verify_for_import}
use chain_testing.Qpow.Bounds.{IsConfig}
use chain_testing.Qpow.Block.{IsValid}
use chain_testing.Qpow.Finalize.{on_finalize-returns}

-- The ends of successive blocks, each at its time and number.
unfoldable pub finalize_all : FixedU128 → Config → List (ℕ × ℕ) → State → Option State
finalize_all from_rational c [] s = some s
finalize_all from_rational c ((now, number) ∷ blocks) s =
    on_finalize from_rational c now number s >>= λ t. finalize_all from_rational c blocks t

div-pos : {a b : ℕ} → 1 ≤ b → b ≤ a → 1 ≤ a / b
div-pos h k = grind arith

module _ (is_valid_nonce : ℕ → ℕ → ℕ → Bool) where
  -- An import changes the latest nonce at most.
  verify_for_import-keeps :
      (c : Config) (header nonce : ℕ) (s : State)
      → (n : Option ℕ) × ((verify_for_import is_valid_nonce c header nonce s).0
          ≡ record s { latest_nonce = n })
  unfolding verify_for_import
  verify_for_import-keeps c header nonce s =
      elim (Bool-cases (is_valid_nonce header nonce (get_distance_threshold c s))) [
        | inl e ↦ (some nonce, rw e)
        | inr e ↦ (s.latest_nonce, rw e)
      ]

  verify_for_import-verdict :
      (c : Config) (header nonce : ℕ) (s : State)
      → 1 ≤ s.current_distance_threshold
      → (verify_for_import is_valid_nonce c header nonce s).1
        ≡ is_valid_nonce header nonce s.current_distance_threshold
  unfolding verify_for_import get_distance_threshold
  verify_for_import-verdict c header nonce s h = ground arith

  verify_historical_block-recorded :
      (header nonce number d : ℕ) (s : State)
      → 1 ≤ d
      → s.block_distance_thresholds number ≡ d
      → verify_historical_block is_valid_nonce header nonce number s ≡ is_valid_nonce header nonce d
  unfolding verify_historical_block
  verify_historical_block-recorded header nonce number d s h e = rw e (ground arith)

module _ (from_rational : FixedU128) (fixed : IsFixed from_rational) where
  -- For a configuration as `IsConfig` says, with a period of 32 bits, and fixed-point numbers as
  -- `IsFixed` says: from a valid storage, as many blocks as make up `adjustment_period` with those
  -- of the period so far are counted, without a panic and with no change of the threshold.
  pub finalize_all-counts :
      (c : Config) (blocks : List (ℕ × ℕ)) (s : State)
      → IsConfig c
      → c.adjustment_period ≤ u32_max
      → IsValid c s
      → s.blocks_in_period + length blocks ≤ c.adjustment_period
      → (s' : State) × (finalize_all from_rational c blocks s ≡ some s')
        × IsValid c s'
        × (s'.blocks_in_period ≡ s.blocks_in_period + length blocks)
        × (s'.current_distance_threshold ≡ s.current_distance_threshold)
  unfolding finalize_all
  finalize_all-counts c [] s v fits i short = (s, refl, i, omega arith, refl)
  finalize_all-counts c ((now, number) ∷ blocks) s v fits i short =
      let (t, e, f) =
        on_finalize-returns from_rational fixed c now number s v i (inr (omega arith)) in
      let count : t.blocks_in_period ≡ s.blocks_in_period + 1 = ground (arith, f.counted) in
      let (s', e', i', n, k) =
        finalize_all-counts c blocks t v fits f.valid (omega (arith, count)) in
      (s', rw e e', i', omega (arith, n, count), k ∙ f.kept (omega arith))

  -- For a configuration as `IsConfig` says, fixed-point numbers as `IsFixed` says and a valid
  -- storage, the total work, if it is below its maximum, strictly grows at the end of a block,
  -- which does not panic unless it ends a period with a threshold below 2^10.
  pub on_finalize-work_grows :
      (c : Config) (now number : ℕ) (s : State)
      → IsConfig c
      → IsValid c s
      → (1024 ≤ s.current_distance_threshold) ⊎ (s.blocks_in_period < c.adjustment_period)
      → s.total_work < u512_max
      → (s' : State) × (on_finalize from_rational c now number s ≡ some s')
        × (s.total_work < s'.total_work)
  on_finalize-work_grows c now number s v i ok room =
      let (s', e, f) = on_finalize-returns from_rational fixed c now number s v i ok in
      let grows : 1 ≤ get_max_distance c / s.current_distance_threshold =
        div-pos i.threshold_low i.threshold_high in
      (s', e, omega (arith, f.work, grows))

  -- For a configuration as `IsConfig` says, fixed-point numbers as `IsFixed` says and a valid
  -- storage, after an import and the end of the block, which does not panic unless it ends a
  -- period with a threshold below 2^10, the block verifies as a historical one exactly for the
  -- nonces that were valid when it was imported.
  pub verify_historical_block-on_finalize :
      (is_valid_nonce : ℕ → ℕ → ℕ → Bool) (c : Config) (now number header nonce : ℕ) (s : State)
      → IsConfig c
      → IsValid c s
      → (1024 ≤ s.current_distance_threshold) ⊎ (s.blocks_in_period < c.adjustment_period)
      → (s' : State) × (on_finalize from_rational c now number
            (verify_for_import is_valid_nonce c header nonce s).0
          ≡ some s')
        × (verify_historical_block is_valid_nonce header nonce number s'
            ≡ (verify_for_import is_valid_nonce c header nonce s).1)
  verify_historical_block-on_finalize is_valid_nonce c now number header nonce s v i ok =
      let (n, u) = verify_for_import-keeps is_valid_nonce c header nonce s in
      let verdict = verify_for_import-verdict is_valid_nonce c header nonce s i.threshold_low in
      let s₁ : State = record s { latest_nonce = n } in
      let i₁ : IsValid c s₁ = record {
        threshold_low = i.threshold_low;
        threshold_high = i.threshold_high;
        index_in = i.index_in;
        size_in = i.size_in;
      } in
      let (s', e, f) = on_finalize-returns from_rational fixed c now number s₁ v i₁ ok in
      let stored =
        f.recorded number
        ∙ update_self s.block_distance_thresholds number s.current_distance_threshold in
      (
        s',
        rw u e,
        verify_historical_block-recorded is_valid_nonce header nonce number _ s' i.threshold_low
              stored
            ∙ sym verdict,
      )
