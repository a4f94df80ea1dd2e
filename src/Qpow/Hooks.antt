-- ===== src/Qpow/Hooks.antt =====
-- Genesis and the hooks that run at the end of a block (pallets/qpow/src/lib.rs). `now` is the
-- timestamp pallet's time, `number` the current block's number; `none` is a panic.
use chain_testing.Prelude.{ℕ, [], ◌∷◌, Option, none, some, ltb, leb, ◌==◌, if◌then◌else◌, update}
use chain_testing.Prelude.Panic.{◌>>=◌}
use chain_testing.Prelude.Uint.{u32_max, u64_max, u512_max, sat_add, sat_mul, sat_sub}
use chain_testing.Qpow.Types.{Config, State, distance_threshold_adjusted, FixedU128}
use chain_testing.Qpow.Threshold.{
  get_initial_distance_threshold, get_difficulty, calculate_distance_threshold, percentage_change,
}
use chain_testing.Qpow.History.{record_block_time, get_block_time_sum}

-- The storage before genesis: every item has its default.
abbrev pub empty_storage : State
empty_storage = record {
  block_distance_thresholds = λ _. 0;
  latest_nonce = none;
  last_block_time = 0;
  last_block_duration = 0;
  current_distance_threshold = 0;
  total_work = 0;
  blocks_in_period = 0;
  block_time_history = λ _. 0;
  history_index = 0;
  history_size = 0;
  events = [];
}

-- `BuildGenesisConfig::build`
unfoldable pub build : Config → State → State
build c s = record s {
  latest_nonce = some 0;
  current_distance_threshold = get_initial_distance_threshold c;
  block_distance_thresholds =
      update s.block_distance_thresholds 0 (get_initial_distance_threshold c);
  total_work = 1;
}

unfoldable pub on_idle : Config → ℕ → State → State
on_idle c now s =
    if s.last_block_time == 0
    then record s {
      last_block_time = now;
      current_distance_threshold = get_initial_distance_threshold c;
    }
    else s

-- The first half of `adjust_distance_threshold`, up to the test of the period.
unfoldable pub account_block : Config → ℕ → ℕ → ℕ → State → Option State
account_block c now number work s =
    let counted : State = record s {
      block_distance_thresholds =
          update s.block_distance_thresholds number s.current_distance_threshold;
      total_work = sat_add u512_max s.total_work work;
      blocks_in_period = sat_add u32_max s.blocks_in_period 1;
    } in
    let block_time = sat_sub now s.last_block_time in
    (if ltb 1 number
      then record_block_time c block_time (record counted { last_block_duration = block_time })
      else some counted)
    >>= λ timed. some (record timed { last_block_time = now })

-- The adjustment itself, in a period with a history.
unfoldable pub retarget : FixedU128 → Config → ℕ → State → Option State
retarget from_rational c current s =
    let observed = get_block_time_sum c s in
    let target = sat_mul u64_max c.target_block_time s.history_size in
    calculate_distance_threshold from_rational c current observed target >>= λ new.
    percentage_change current new >>= λ _. some (record s {
      current_distance_threshold = new;
      events = distance_threshold_adjusted current new observed ∷ s.events;
    })

unfoldable pub end_period : FixedU128 → Config → ℕ → ℕ → ℕ → State → Option State
unfolding retarget
end_period from_rational c now blocks current s =
    if leb c.adjustment_period blocks
    then ((if ltb 0 s.history_size then retarget from_rational c current s else some s) >>= λ t.
        some (record t { blocks_in_period = 0; last_block_time = now }))
    else (if blocks == 0 then some (record s { last_block_time = now }) else some s)

unfoldable pub adjust_distance_threshold : FixedU128 → Config → ℕ → ℕ → State → Option State
unfolding end_period account_block
adjust_distance_threshold from_rational c now number s = get_difficulty c s >>= λ work.
    account_block c now number work s >>= λ t.
    end_period from_rational c now s.blocks_in_period s.current_distance_threshold t

-- `on_finalize` logs, and adjusts.
unfoldable pub on_finalize : FixedU128 → Config → ℕ → ℕ → State → Option State
unfolding adjust_distance_threshold
on_finalize from_rational c now number s = adjust_distance_threshold from_rational c now number s
