-- ===== src/Qpow/Threshold.antt =====
-- The distance threshold and its retargeting (pallets/qpow/src/lib.rs).
use chain_testing.Prelude.{
  ℕ, ◌/◌, ◌-◌, min, max, Option, none, some, Bool, ltb, leb, ◌==◌, if◌then◌else◌,
}
use chain_testing.Prelude.Panic.{◌>>=◌}
use chain_testing.Prelude.Uint.{u128_max, u512_max, sat_add, sat_mul, sat_sub}
use chain_testing.Qpow.Types.{Config, State, FixedU128, fixed_u128_scale, shl, shr}

-- `U512::checked_div`
unfoldable pub checked_div : ℕ → ℕ → Option ℕ
checked_div a b = if b == 0 then none else some (a / b)

-- `get_initial_distance_threshold`
unfoldable pub get_initial_distance_threshold : Config → ℕ
get_initial_distance_threshold c = shl 1 c.initial_distance_threshold_exponent

abbrev pub get_min_distance : ℕ
get_min_distance = 1

unfoldable pub get_max_distance : Config → ℕ
get_max_distance c = shl (get_initial_distance_threshold c) 2

unfoldable pub get_distance_threshold : Config → State → ℕ
get_distance_threshold c s =
    if s.current_distance_threshold == 0
    then get_initial_distance_threshold c
    else s.current_distance_threshold

-- The quotient of two U512: division by zero panics.
unfoldable pub get_difficulty : Config → State → Option ℕ
unfolding checked_div
get_difficulty c s = checked_div (get_max_distance c) (get_distance_threshold c s)

-- The last `if` of `calculate_distance_threshold`.
unfoldable pub limit_distance : Config → ℕ → ℕ
limit_distance c adjusted =
    if ltb adjusted get_min_distance
    then get_min_distance
    else (if ltb (get_max_distance c) adjusted then get_max_distance c else adjusted)

-- `ratio` of `calculate_distance_threshold`, from the fixed-point values of its parts.
unfoldable pub clamp_ratio : ℕ → ℕ → ℕ → ℕ
clamp_ratio one clamp raw = max (min raw (sat_add u128_max one clamp)) (sat_sub one clamp)

-- The threshold scaled by `ratio`, divided first; on a failing division the old one, unlimited.
unfoldable pub scale_threshold : Config → ℕ → ℕ → ℕ → ℕ
unfolding checked_div
scale_threshold c current one ratio =
    if ratio == one then limit_distance c current else elim (checked_div current fixed_u128_scale) [
      | none ↦ current
      | some value ↦ limit_distance c (sat_mul u512_max value ratio)
    ]

unfoldable pub calculate_distance_threshold : FixedU128 → Config → ℕ → ℕ → ℕ → Option ℕ
unfolding clamp_ratio scale_threshold
calculate_distance_threshold from_rational c current observed target = do
  clamp ← from_rational c.difficulty_adjust_percent_clamp 100
  one ← from_rational 1 1
  raw ← from_rational observed target
  some (scale_threshold c current one (clamp_ratio one clamp raw))

-- The change in percent and whether it is up. A threshold below 2^10 is shifted to a zero divisor.
unfoldable pub percentage_change : ℕ → ℕ → Option (ℕ × Bool)
percentage_change big_a big_b =
    let a = shr big_a 10 in
    let b = shr big_b 10 in
    let abs_diff = if ltb b a then a - b else b - a in
    (if a == 0 then none else some (sat_mul u512_max abs_diff 100 / a, leb a b))
