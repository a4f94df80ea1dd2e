-- ===== src/Qpow/Block.antt =====
-- What the end of a block does to the storage (`on_finalize` and `adjust_distance_threshold` in
-- pallets/qpow/src/lib.rs): when it panics, what it keeps, and when it retargets.
use chain_testing.Prelude.{
  refl, Bool-cases, ltb, update, ==_false, if◌then◌else◌, ◌≢◌, ◌∷◌, ℕ, ◌+◌, ◌/◌, ◌≤◌, ◌<◌, ◌≡◌, inl,
  inr, some, none, arith, Option-cases,
}
use chain_testing.Prelude.Uint.{u32_max, u64_max, u512_max, sat_add, sat_sub, sat_mul}
use chain_testing.Qpow.Types.{Config, State, FixedU128, distance_threshold_adjusted}
use chain_testing.Qpow.Threshold.{
  get_max_distance, get_distance_threshold, get_difficulty, calculate_distance_threshold,
  percentage_change,
}
use chain_testing.Qpow.History.{store_block_time, record_block_time, get_block_time_sum, sum_loop}
use chain_testing.Qpow.Hooks.{
  build, on_idle, on_finalize, account_block, retarget, end_period, empty_storage,
}
use chain_testing.Qpow.Bounds.{IsConfig, initial_distance_bounds}

-- The storage of a running chain: the threshold lies in its range, and the ring buffer's index and
-- size in theirs.
pub record IsValid (c : Config) (s : State) : Type 0 where
  pub threshold_low : 1 ≤ s.current_distance_threshold
  pub threshold_high : s.current_distance_threshold ≤ get_max_distance c
  pub index_in : s.history_index < c.block_time_history_size
  pub size_in : s.history_size ≤ c.block_time_history_size

pub build-IsValid : (c : Config) → IsConfig c → IsValid c (build c empty_storage)
unfolding build
build-IsValid c v = omega (arith, v.history_pos, initial_distance_bounds c v)

pub on_idle-IsValid :
    (c : Config) (now : ℕ) (s : State) → IsConfig c → IsValid c s → IsValid c (on_idle c now s)
unfolding on_idle
on_idle-IsValid c now s v i = ground (arith, initial_distance_bounds c v)

-- Within its range the threshold gives a difficulty of at least 1.
pub difficulty_lem :
    (c : Config) (s : State)
    → IsConfig c
    → IsValid c s
    → get_difficulty c s ≡ some (get_max_distance c / s.current_distance_threshold)
unfolding get_difficulty get_distance_threshold
difficulty_lem c s v i = ground arith

-- A change from a threshold of less than 2^10 divides by zero.
percentage_change-none : (a b : ℕ) → a < 1024 → percentage_change a b ≡ none
unfolding percentage_change
percentage_change-none a b h = ground arith

percentage_change-ne-none : (a b : ℕ) → 1024 ≤ a → percentage_change a b ≢ none
unfolding percentage_change
percentage_change-ne-none a b h = ground arith

sum_loop_fits : (history : ℕ → ℕ) (n i sum : ℕ) → sum ≤ u64_max → sum_loop history n i sum ≤ u64_max
unfolding sum_loop
sum_loop_fits history ℕ.zero i sum h = h
sum_loop_fits history (ℕ.suc n) i sum h = sum_loop_fits history n (i + 1) _ (omega arith)

pub time_sum_fits : (c : Config) (s : State) → IsConfig c → get_block_time_sum c s ≤ u64_max
unfolding get_block_time_sum
time_sum_fits c s v =
    ground (arith, v.target_fits, sum_loop_fits s.block_time_history s.history_size 0 0)

-- The storage after the first half of the hook, for a history that is not of size 0.
unfoldable pub accounted : Config → ℕ → ℕ → ℕ → State → State
accounted c now number work s =
    let counted : State = record s {
      block_distance_thresholds =
          update s.block_distance_thresholds number s.current_distance_threshold;
      total_work = sat_add u512_max s.total_work work;
      blocks_in_period = sat_add u32_max s.blocks_in_period 1;
    } in
    let timed : State =
      (if ltb 1 number
        then store_block_time c (sat_sub now s.last_block_time)
            (record counted { last_block_duration = sat_sub now s.last_block_time })
        else counted) in
    record timed { last_block_time = now }

pub account_block-accounted :
    (c : Config) (now number work : ℕ) (s : State)
    → IsConfig c
    → account_block c now number work s ≡ some (accounted c now number work s)
unfolding account_block accounted record_block_time
account_block-accounted c now number work s v = elim (Bool-cases (ltb 1 number)) [
  | inl late ↦
      rw (late, ==_false c.block_time_history_size 0 (λ e. let p = v.history_pos in omega arith))
        refl
  | inr first ↦ rw first refl
]

pub accounted-IsValid :
    (c : Config) (now number work : ℕ) (s : State)
    → IsConfig c
    → IsValid c s
    → IsValid c (accounted c now number work s)
unfolding accounted store_block_time
accounted-IsValid c now number work s v i = ground (arith, v.history_pos, v.history_fits)

-- After the second block the history is not empty.
accounted_history :
    (c : Config) (now number work : ℕ) (s : State)
    → IsConfig c
    → 1 < number
    → 0 < (accounted c now number work s).history_size
unfolding accounted store_block_time
accounted_history c now number work s v late = ground (arith, v.history_pos)

module _ (from_rational : FixedU128) where
  -- The storage after a retarget to `new`.
  abbrev pub retargeted : Config → ℕ → ℕ → State → State
  retargeted c current new s = record s {
    current_distance_threshold = new;
    events = distance_threshold_adjusted current new (get_block_time_sum c s) ∷ s.events;
  }

  pub retarget-some :
      (c : Config) (current new : ℕ) (s : State)
      → calculate_distance_threshold from_rational c current
          (get_block_time_sum c s)
          (sat_mul u64_max c.target_block_time s.history_size)
        ≡ some new
      → 1024 ≤ current
      → retarget from_rational c current s ≡ some (retargeted c current new s)
  unfolding retarget
  retarget-some c current new s e big = ground (arith, percentage_change-ne-none current new big)

  retarget-none :
      (c : Config) (current : ℕ) (s : State)
      → current < 1024
      → retarget from_rational c current s ≡ none
  unfolding retarget
  retarget-none c current s small =
      elim (Option-cases (
        calculate_distance_threshold from_rational c current (get_block_time_sum c s)
          (sat_mul u64_max c.target_block_time s.history_size))) [
            | inl e ↦ rw e
            | inr (new, e) ↦ rw (e, percentage_change-none current new small)
          ]

  pub end_period-none :
      (c : Config) (now work number : ℕ) (s : State)
      → IsConfig c
      → s.current_distance_threshold < 1024
      → c.adjustment_period ≤ s.blocks_in_period
      → 1 < number
      → end_period from_rational c now s.blocks_in_period s.current_distance_threshold
          (accounted c now number work s)
        ≡ none
  unfolding end_period
  end_period-none c now work number s v small due late = ground (
    arith,
    accounted_history c now number work s v late,
    retarget-none c s.current_distance_threshold (accounted c now number work s) small,
  )

  -- For a configuration as `IsConfig` says, with a threshold below 2^10, the end of a block after
  -- the first one that ends a period panics: the change in percent divides by the threshold
  -- shifted down by ten bits.
  pub on_finalize-panics :
      (c : Config) (now number : ℕ) (s : State)
      → IsConfig c
      → s.current_distance_threshold < 1024
      → c.adjustment_period ≤ s.blocks_in_period
      → 1 < number
      → on_finalize from_rational c now number s ≡ none
  unfolding on_finalize
  on_finalize-panics c now number s v small due late = elim (Option-cases (get_difficulty c s)) [
    | inl e ↦ rw e
    | inr (work, e) ↦
        rw (e, account_block-accounted c now number work s v)
          (end_period-none c now work number s v small due late)
  ]
