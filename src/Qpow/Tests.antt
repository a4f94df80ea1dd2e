-- ===== src/Qpow/Tests.antt =====
-- The theorems on pallets/qpow/src/lib.rs at a concrete configuration and storage.
use native.Mathlib.Nat.{le_trans, div-le_self, mul-div_cancel, le-div_iff_mul-le, div-mul-le_self}
use chain_testing.Prelude.{
  true, false, ◌∙◌, ap, Bool-cases, ℕ, ◌+◌, ◌*◌, ◌/◌, ◌^◌, ◌≤◌, ◌<◌, ◌≡◌, inl, inr, sym, List, [],
  ◌∷◌, sum, none, some, some_eq, min, length, Bool, ◌==◌, if◌then◌else◌, arith,
}
use chain_testing.Prelude.Uint.{u64_max, u512_max}
use chain_testing.Qpow.Types.{Config, State, FixedU128, fixed_u128_scale, IsFixed}
use chain_testing.Qpow.Threshold.{get_max_distance, calculate_distance_threshold}
use chain_testing.Qpow.History.{get_block_time_sum}
use chain_testing.Qpow.Hooks.{empty_storage, build, on_finalize}
use chain_testing.Qpow.Nonces.{verify_for_import, verify_historical_block}
use chain_testing.Qpow.Bounds.{IsConfig, calculate-bounds, initial_distance_lem}
use chain_testing.Qpow.Block.{IsValid, build-IsValid, on_finalize-panics}
use chain_testing.Qpow.Finalize.{IsFinalized, on_finalize-returns}
use chain_testing.Qpow.Times.{last_n}
use chain_testing.Qpow.Window.{record_all, get_block_time_sum-record_all}
use chain_testing.Qpow.Period.{
  finalize_all, finalize_all-counts, verify_historical_block-on_finalize,
}

abbrev config : Config
config = record {
  initial_distance_threshold_exponent = 150;
  difficulty_adjust_percent_clamp = 10;
  target_block_time = 1000;
  adjustment_period = 10;
  block_time_history_size = 3;
  max_reorg_depth = 10;
}

config-IsConfig : IsConfig config
config-IsConfig = record {
  exponent_fits = omega arith;
  clamp_percent = omega arith;
  target_pos = omega arith;
  target_fits = omega arith;
  history_pos = omega arith;
  history_fits = omega arith;
}

-- The fraction, rounded down.
abbrev fraction : FixedU128
fraction a b = if b == 0 then none else some (a * fixed_u128_scale / b)

fraction_lem : (a b : ℕ) → 0 < b → fraction a b ≡ some (a * fixed_u128_scale / b)
fraction_lem a b h = ground arith

div_mono : {x y : ℕ} (b : ℕ) → 0 < b → x ≤ y → x / b ≤ y / b
div_mono {x} {y} b pos le = (le-div_iff_mul-le pos).1 (le_trans (div-mul-le_self x b) le)

pos_of : (b : ℕ) → (b == 0) ≡ false → 0 < b
pos_of b h = ground arith

none_ne : {q : ℕ} → none ≡ some q → ⊥
none_ne e = cc

no_fraction : (a b q : ℕ) → (b == 0) ≡ true → fraction a b ≡ some q → ⊥
no_fraction a b q z e = none_ne (rw z at e)

fraction-IsFixed : IsFixed fraction
fraction-IsFixed = record {
  total = λ a b le pos. (
    a * fixed_u128_scale / b,
    fraction_lem a b pos,
    le_trans (div-le_self (a * fixed_u128_scale) b) (omega arith),
  );
  exact = λ a b q pos le e.
      fraction_lem a b pos ∙ ap (λ x. some (x / b)) (sym e) ∙ ap some (mul-div_cancel q pos);
  monotone = λ a a' b q q' le e e'. elim (Bool-cases (b == 0)) [
    | inl z ↦ absurd (no_fraction a b q z e)
    | inr p ↦
        let x = some_eq (rw p at e) in
        let y = some_eq (rw p at e') in rw (← x, ← y) (div_mono b (pos_of b p) (omega arith))
  ];
}

abbrev start : State
start = build config empty_storage

start_threshold : start.current_distance_threshold ≡ 2 ^ 150
unfolding build
start_threshold = initial_distance_lem config config-IsConfig

start_fresh : start.blocks_in_period < config.adjustment_period
unfolding build
start_fresh = omega arith

start_work : start.total_work < u512_max
unfolding build
start_work = omega arith

abbrev two_blocks : List (ℕ × ℕ)
two_blocks = (1000, 1) ∷ (2000, 2) ∷ []

start_room : start.blocks_in_period + length two_blocks ≤ config.adjustment_period
unfolding build
start_room = omega arith

calculate-bounds_example :
    (r : ℕ) × (calculate_distance_threshold fraction config (2 ^ 150) 1050 1000 ≡ some r)
    × (1 ≤ r)
    × (r ≤ get_max_distance config)
calculate-bounds_example =
    calculate-bounds fraction fraction-IsFixed config (2 ^ 150) 1050 1000 config-IsConfig
      (omega arith) (omega arith)

start-IsValid : IsValid config start
start-IsValid = build-IsValid config config-IsConfig

-- The last block of a period whose threshold is low.
abbrev low : State
low = record empty_storage { current_distance_threshold = 1000; blocks_in_period = 10 }

on_finalize-panics_example : on_finalize fraction config 5000 2 low ≡ none
on_finalize-panics_example =
    on_finalize-panics fraction config 5000 2 low config-IsConfig (omega arith) (omega arith)
      (omega arith)

on_finalize-returns_example :
    (s' : State) × (on_finalize fraction config 5000 1 start ≡ some s')
    × IsFinalized fraction config 5000 1 start s'
on_finalize-returns_example =
    on_finalize-returns fraction fraction-IsFixed config 5000 1 start config-IsConfig start-IsValid
      (inr start_fresh)

get_block_time_sum-record_all_example :
    (s : State) × (record_all config (5 ∷ 6 ∷ 7 ∷ 8 ∷ []) empty_storage ≡ some s)
    × (get_block_time_sum config s ≡ min (sum (last_n 3 (5 ∷ 6 ∷ 7 ∷ 8 ∷ []))) u64_max)
get_block_time_sum-record_all_example =
    get_block_time_sum-record_all config 5 (6 ∷ 7 ∷ 8 ∷ []) (omega arith) (omega arith)

finalize_all-counts_example :
    (s' : State) × (finalize_all fraction config two_blocks start ≡ some s')
    × IsValid config s'
    × (s'.blocks_in_period ≡ start.blocks_in_period + length two_blocks)
    × (s'.current_distance_threshold ≡ start.current_distance_threshold)
finalize_all-counts_example =
    finalize_all-counts fraction fraction-IsFixed config two_blocks start config-IsConfig
      (omega arith) start-IsValid start_room

abbrev is_three : ℕ → ℕ → ℕ → Bool
is_three header nonce threshold = nonce == 3

verify_historical_block-on_finalize_example :
    (s' : State) × (on_finalize fraction config 5000 1
        (verify_for_import is_three config 9 3 start).0
      ≡ some s')
    × (verify_historical_block is_three 9 3 1 s' ≡ (verify_for_import is_three config 9 3 start).1)
verify_historical_block-on_finalize_example =
    verify_historical_block-on_finalize fraction fraction-IsFixed is_three config 5000 1 9 3 start
      config-IsConfig start-IsValid (inr start_fresh)
