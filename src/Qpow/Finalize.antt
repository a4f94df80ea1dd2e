-- ===== src/Qpow/Finalize.antt =====
-- The total behaviour of `on_finalize` (pallets/qpow/src/lib.rs), and the length of a period.
use chain_testing.Prelude.{
  ℕ, ◌/◌, ◌≤◌, ◌<◌, ◌≡◌, ◌⊎◌, inl, inr, refl, some, arith, leb, ltb, if◌then◌else◌, Bool-cases,
  false, ltb→lt, update, List, ◌∷◌,
}
use chain_testing.Prelude.Uint.{u32_max, u64_max, u512_max, sat_add, sat_mul}
use chain_testing.Qpow.Types.{Config, State, FixedU128, IsFixed, Event, distance_threshold_adjusted}
use chain_testing.Qpow.Threshold.{get_max_distance, calculate_distance_threshold}
use chain_testing.Qpow.History.{get_block_time_sum, store_block_time}
use chain_testing.Qpow.Hooks.{on_finalize, end_period}
use chain_testing.Qpow.Bounds.{IsConfig, calculate-bounds}
use chain_testing.Qpow.Block.{
  IsValid, difficulty_lem, time_sum_fits, accounted, account_block-accounted, accounted-IsValid,
  retarget-some,
}

-- What the end of a block has done: the storage is in range, the work has grown by the difficulty,
-- the threshold is on record for the block, the clock is set, and the period is counted; inside a
-- period the threshold stays, and at its end it is adjusted by the times in the history.
pub record IsFinalized (from_rational : FixedU128) (c : Config) (now number : ℕ) (s s' : State)
    : Type 0 where
  pub valid : IsValid c s'
  pub work :
      s'.total_work
      ≡ sat_add u512_max s.total_work (get_max_distance c / s.current_distance_threshold)
  pub recorded :
      (n : ℕ)
      → s'.block_distance_thresholds n
        ≡ update s.block_distance_thresholds number s.current_distance_threshold n
  pub timed : s'.last_block_time ≡ now
  pub counted : s'.blocks_in_period ≡ (
      if leb c.adjustment_period s.blocks_in_period
      then 0
      else sat_add u32_max s.blocks_in_period 1)
  pub kept :
      s.blocks_in_period < c.adjustment_period
      → s'.current_distance_threshold ≡ s.current_distance_threshold
  pub adjusted :
      c.adjustment_period ≤ s.blocks_in_period
      → 0 < s'.history_size
      → calculate_distance_threshold from_rational c s.current_distance_threshold
          (get_block_time_sum c s')
          (sat_mul u64_max c.target_block_time s'.history_size)
        ≡ some s'.current_distance_threshold

-- The same for the first half of the hook, up to the test of the period.
record IsAccounted (c : Config) (now number work : ℕ) (s t : State) : Type 0 where
  valid : IsValid c t
  threshold : t.current_distance_threshold ≡ s.current_distance_threshold
  worked : t.total_work ≡ sat_add u512_max s.total_work work
  recorded :
      (n : ℕ)
      → t.block_distance_thresholds n
        ≡ update s.block_distance_thresholds number s.current_distance_threshold n
  timed : t.last_block_time ≡ now
  counted : t.blocks_in_period ≡ sat_add u32_max s.blocks_in_period 1

accounted-IsAccounted :
    (c : Config) (now number work : ℕ) (s : State)
    → IsConfig c
    → IsValid c s
    → IsAccounted c now number work s (accounted c now number work s)
unfolding accounted store_block_time
accounted-IsAccounted c now number work s v i = record {
  valid = accounted-IsValid c now number work s v i;
  threshold = ground arith;
  worked = ground arith;
  recorded = λ n. ground arith;
  timed = ground arith;
  counted = ground arith;
}

no_history : (size : ℕ) → ltb 0 size ≡ false → 0 < size → ⊥
no_history size e pos = ground arith

target_pos : {a : ℕ} (b : ℕ) → 0 < a → 0 < b → 0 < sat_mul u64_max a b
target_pos b h k = grind arith

-- The storage after the end of a period.
abbrev ended : ℕ → ℕ → List Event → State → State
ended now new evs t = record t {
  current_distance_threshold = new;
  events = evs;
  blocks_in_period = 0;
  last_block_time = now;
}

-- Inside a period only the clock may be set.
end_period-early :
    (from_rational : FixedU128) (c : Config) (now blocks current : ℕ) (t : State)
    → blocks < c.adjustment_period
    → t.last_block_time ≡ now
    → end_period from_rational c now blocks current t ≡ some t
unfolding end_period
end_period-early from_rational c now blocks current t early timed = ground arith

module _ (from_rational : FixedU128) (fixed : IsFixed from_rational) where
  end_period-due :
      (c : Config) (now blocks current : ℕ) (t : State)
      → IsConfig c
      → IsValid c t
      → 1024 ≤ current
      → c.adjustment_period ≤ blocks
      → (new : ℕ) × (evs : List Event) × (end_period from_rational c now blocks current t
          ≡ some (ended now new evs t))
        × (1 ≤ new)
        × (new ≤ get_max_distance c)
        × (0 < t.history_size
            → calculate_distance_threshold from_rational c current
                (get_block_time_sum c t)
                (sat_mul u64_max c.target_block_time t.history_size)
              ≡ some new)
  unfolding end_period
  end_period-due c now blocks current t v i big due = elim (Bool-cases (ltb 0 t.history_size)) [
    | inr e ↦ (
      t.current_distance_threshold,
      t.events,
      ground arith,
      i.threshold_low,
      i.threshold_high,
      λ pos. absurd (no_history t.history_size e pos),
    )
    | inl e ↦
        let target = sat_mul u64_max c.target_block_time t.history_size in
        let (new, p, low, high) =
          calculate-bounds from_rational fixed c current (get_block_time_sum c t) target v
            (time_sum_fits c t v) (target_pos t.history_size v.target_pos (ltb→lt _ _ e)) in
        (
          new,
          distance_threshold_adjusted current new (get_block_time_sum c t) ∷ t.events,
          ground (arith, retarget-some from_rational c current new t p big),
          low,
          high,
          λ _. p,
        )
  ]

  -- The end of a period does not change the history.
  ended_sum :
      (c : Config) (now new : ℕ) (evs : List Event) (t : State) (current : ℕ)
      → calculate_distance_threshold from_rational c current
          (get_block_time_sum c t)
          (sat_mul u64_max c.target_block_time t.history_size)
        ≡ some new
      → calculate_distance_threshold from_rational c current
          (get_block_time_sum c (ended now new evs t))
          (sat_mul u64_max c.target_block_time t.history_size)
        ≡ some new
  unfolding get_block_time_sum
  ended_sum c now new evs t current e = e

  -- The second half, on what the first half leaves.
  end_period-IsFinalized :
      (c : Config) (now number : ℕ) (s t : State)
      → IsConfig c
      → IsAccounted c now number (get_max_distance c / s.current_distance_threshold) s t
      → (1024 ≤ s.current_distance_threshold) ⊎ (s.blocks_in_period < c.adjustment_period)
      → (s' : State) × (end_period from_rational c now s.blocks_in_period
            s.current_distance_threshold t
          ≡ some s')
        × IsFinalized from_rational c now number s s'
  end_period-IsFinalized c now number s t v a ok =
      elim (Bool-cases (leb c.adjustment_period s.blocks_in_period)) [
        | inl due ↦
            let (new, evs, e, low, high, adjusted) =
              end_period-due c now s.blocks_in_period s.current_distance_threshold t v a.valid
                (ground arith) (ground arith) in
            (
              ended now new evs t,
              e,
              record {
                valid = record {
                  threshold_low = low;
                  threshold_high = high;
                  index_in = a.valid.index_in;
                  size_in = a.valid.size_in;
                };
                work = a.worked;
                recorded = a.recorded;
                timed = refl;
                counted = rw due;
                kept = λ early. ground arith;
                adjusted =
                    λ _ pos. ended_sum c now new evs t s.current_distance_threshold (adjusted pos);
              },
            )
        | inr early ↦ (
          t,
          end_period-early from_rational c now s.blocks_in_period s.current_distance_threshold t
              (ground arith) a.timed,
          record {
            valid = a.valid;
            work = a.worked;
            recorded = a.recorded;
            timed = a.timed;
            counted = rw early a.counted;
            kept = λ _. a.threshold;
            adjusted = λ due _. absurd (ground arith);
          },
        )
      ]

  -- For a configuration as `IsConfig` says and fixed-point numbers as `IsFixed` says, the end of a
  -- block on a valid storage does not panic, unless it ends a period with a threshold below 2^10,
  -- and does what `IsFinalized` says.
  pub on_finalize-returns :
      (c : Config) (now number : ℕ) (s : State)
      → IsConfig c
      → IsValid c s
      → (1024 ≤ s.current_distance_threshold) ⊎ (s.blocks_in_period < c.adjustment_period)
      → (s' : State) × (on_finalize from_rational c now number s ≡ some s')
        × IsFinalized from_rational c now number s s'
  unfolding on_finalize
  on_finalize-returns c now number s v i ok =
      let work = get_max_distance c / s.current_distance_threshold in
      let t = accounted c now number work s in
      let (s', e, f) =
        end_period-IsFinalized c now number s t v (accounted-IsAccounted c now number work s v i)
          ok in
      (s', rw (difficulty_lem c s v i, account_block-accounted c now number work s v) e, f)
