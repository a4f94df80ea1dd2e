-- ===== src/Qpow/Motion.antt =====
-- How the threshold moves with the observed block times (`calculate_distance_threshold` in
-- pallets/qpow/src/lib.rs).
use native.Mathlib.Nat.{mul-le-mul_left, mul-le-mul_right}
use chain_testing.Prelude.{
  sym, ℕ, ◌+◌, ◌-◌, ◌*◌, ◌/◌, ◌^◌, ◌≤◌, ◌<◌, ◌≡◌, some_eq, ap, ◌∙◌, some, arith, min, max, ◌==◌,
  if◌then◌else◌,
}
use chain_testing.Prelude.Uint.{u64_max, u512_max, sat_mul}
use chain_testing.Qpow.Types.{Config, FixedU128, IsFixed, fixed_u128_scale}
use chain_testing.Qpow.Threshold.{
  get_max_distance, limit_distance, calculate_distance_threshold, clamp_ratio,
}
use chain_testing.Qpow.Bounds.{
  IsConfig, max_distance_bounds, limit_distance_mono, limit_distance_self, scale_threshold_lem,
  calculate_lem,
}

-- The threshold before it is limited.
abbrev scaled : ℕ → ℕ → ℕ
scaled current ratio =
    if ratio == fixed_u128_scale
    then current
    else sat_mul u512_max (current / fixed_u128_scale) ratio

-- A larger ratio gives no smaller threshold, once the threshold is at least 10^36: below that the
-- rounding of the division can outweigh the ratio.
scaled_mono :
    (current r r' : ℕ)
    → current ≤ u512_max
    → 10 ^ 36 ≤ current
    → r ≤ r'
    → scaled current r ≤ scaled current r'
scaled_mono current r r' fits big h =
    let q = current / fixed_u128_scale in
    ground (
      arith,
      mul-le-mul_left q h,
      λ (p : fixed_u128_scale + 1 ≤ r'). mul-le-mul_left q p,
      λ (p : r ≤ fixed_u128_scale). mul-le-mul_left q p,
    )

clamp_ratio_mono :
    (k r r' : ℕ) → r ≤ r' → clamp_ratio fixed_u128_scale k r ≤ clamp_ratio fixed_u128_scale k r'
unfolding clamp_ratio
clamp_ratio_mono k r r' h = omega arith

clamp_ratio_bounds :
    (p r : ℕ)
    → p ≤ 100
    → (clamp_ratio fixed_u128_scale (p * 10 ^ 16) r ≤ fixed_u128_scale + p * 10 ^ 16)
      × (fixed_u128_scale ≤ clamp_ratio fixed_u128_scale (p * 10 ^ 16) r + p * 10 ^ 16)
unfolding clamp_ratio
clamp_ratio_bounds p r h = omega arith

-- The product of the quotient and the ratio, for a ratio within p percent of 1.
product_bounds :
    (current ratio p d : ℕ)
    → p + d ≡ 100
    → ratio ≤ fixed_u128_scale + p * 10 ^ 16
    → fixed_u128_scale ≤ ratio + p * 10 ^ 16
    → (100 * (current / fixed_u128_scale * ratio) ≤ current * (100 + p))
      × (current * d ≤ 100 * (current / fixed_u128_scale * ratio + fixed_u128_scale))
product_bounds current ratio p d hp up down =
    let q = current / fixed_u128_scale in
    let below : q * fixed_u128_scale ≤ current = omega arith in
    let above : current ≤ q * fixed_u128_scale + fixed_u128_scale = omega arith in
    let split : q * (p + d) ≡ q * 100 = ap (λ (t : ℕ). q * t) hp in
    (
      omega (arith, mul-le-mul_left q up, mul-le-mul_right p below),
      omega (arith, mul-le-mul_left q down, mul-le-mul_right d above, split),
    )

scaled_bounds :
    (current ratio p d : ℕ)
    → p + d ≡ 100
    → current ≤ u512_max
    → ratio ≤ fixed_u128_scale + p * 10 ^ 16
    → fixed_u128_scale ≤ ratio + p * 10 ^ 16
    → (100 * scaled current ratio ≤ current * (100 + p))
      × (current * d ≤ 100 * (scaled current ratio + fixed_u128_scale))
scaled_bounds current ratio p d hp fits up down =
    let b = product_bounds current ratio p d hp up down in
    let split : current * (p + d) ≡ current * 100 = ap (λ (t : ℕ). current * t) hp in
    ground (arith, b.0, b.1, split)

limit_distance_between :
    (c : Config) (d : ℕ)
    → (limit_distance c d ≤ max d 1) × (min d (get_max_distance c) ≤ limit_distance c d)
unfolding limit_distance
limit_distance_between c d = ground arith

-- Limiting keeps the bounds of a step, from a threshold within the range.
step_of_scaled :
    (c : Config) (current s p : ℕ)
    → 1 ≤ current
    → current ≤ get_max_distance c
    → 100 * s ≤ current * (100 + p)
    → current * (100 - p) ≤ 100 * (s + fixed_u128_scale)
    → (100 * limit_distance c s ≤ current * (100 + p))
      × (current * (100 - p) ≤ 100 * (limit_distance c s + fixed_u128_scale))
step_of_scaled c current s p low high up down =
    let less : 100 - p ≤ 100 = omega arith in
    omega (arith, limit_distance_between c s, mul-le-mul_left current less)

clamp_ratio_one : (k : ℕ) → clamp_ratio fixed_u128_scale k fixed_u128_scale ≡ fixed_u128_scale
unfolding clamp_ratio
clamp_ratio_one k = omega arith

module _ (from_rational : FixedU128) (fixed : IsFixed from_rational) where
  -- The result of a computation is the scaled and limited threshold.
  calculate_inv :
      (c : Config) (current observed target : ℕ) {r : ℕ}
      → IsConfig c
      → observed ≤ u64_max
      → 0 < target
      → calculate_distance_threshold from_rational c current observed target ≡ some r
      → (raw : ℕ) × (from_rational observed target ≡ some raw)
        × (r
            ≡ limit_distance c (
                scaled current
                  (clamp_ratio fixed_u128_scale (c.difficulty_adjust_percent_clamp * 10 ^ 16) raw)))
  calculate_inv c current observed target {r} v fits pos e =
      let (raw, er, _) = fixed.total observed target fits pos in
      (
        raw,
        er,
        some_eq (sym e ∙ calculate_lem from_rational fixed c current observed target raw v er)
            ∙ scale_threshold_lem c current fixed_u128_scale _,
      )

  -- For a configuration as `IsConfig` says and fixed-point numbers as `IsFixed` says, a threshold
  -- within its range does not move if the observed time is the target time, which is not 0.
  pub calculate-on_target :
      (c : Config) (current target : ℕ)
      → IsConfig c
      → 0 < target
      → 1 ≤ current
      → current ≤ get_max_distance c
      → calculate_distance_threshold from_rational c current target target ≡ some current
  calculate-on_target c current target v pos low high =
      let e = fixed.exact target target fixed_u128_scale pos (omega arith) (omega arith) in
      calculate_lem from_rational fixed c current target target fixed_u128_scale v e
      ∙ ap some (
          rw clamp_ratio_one (
            scale_threshold_lem c current fixed_u128_scale fixed_u128_scale
            ∙ limit_distance_self c current low high))

  -- For a configuration as `IsConfig` says, fixed-point numbers as `IsFixed` says and a nonzero
  -- target: from a threshold of at least 10^36 within its range, a longer observed time of 64 bits
  -- never gives a smaller threshold, which is a harder block.
  pub calculate_mono :
      (c : Config) (current observed observed' target : ℕ) {r r' : ℕ}
      → IsConfig c
      → 10 ^ 36 ≤ current
      → current ≤ get_max_distance c
      → observed ≤ observed'
      → observed' ≤ u64_max
      → 0 < target
      → calculate_distance_threshold from_rational c current observed target ≡ some r
      → calculate_distance_threshold from_rational c current observed' target ≡ some r'
      → r ≤ r'
  calculate_mono c current observed observed' target {r} {r'} v big high le fits pos e e' =
      let (raw, a, p) = calculate_inv c current observed target v (omega arith) pos e in
      let (raw', a', p') = calculate_inv c current observed' target v fits pos e' in
      let k = c.difficulty_adjust_percent_clamp * 10 ^ 16 in
      let top = max_distance_bounds c v in
      rw (p, p')
        (limit_distance_mono c _ _ top.0 (
          scaled_mono current _ _ (omega arith) big (
            clamp_ratio_mono k raw raw'
              (fixed.monotone observed observed' target raw raw' le a a'))))

  -- For a configuration as `IsConfig` says, fixed-point numbers as `IsFixed` says, an observed
  -- time of 64 bits and a nonzero target: one adjustment of a threshold within its range, with a
  -- clamp of p percent, raises it by at most p percent, and lowers it by at most p percent and one
  -- unit of rounding, 10^18.
  pub calculate_step :
      (c : Config) (current observed target : ℕ) {r : ℕ}
      → IsConfig c
      → 1 ≤ current
      → current ≤ get_max_distance c
      → observed ≤ u64_max
      → 0 < target
      → calculate_distance_threshold from_rational c current observed target ≡ some r
      → (100 * r ≤ current * (100 + c.difficulty_adjust_percent_clamp))
        × (current * (100 - c.difficulty_adjust_percent_clamp) ≤ 100 * (r + fixed_u128_scale))
  calculate_step c current observed target {r} v low high fits pos e =
      let (raw, a, p) = calculate_inv c current observed target v fits pos e in
      let pct = c.difficulty_adjust_percent_clamp in
      let ratio = clamp_ratio_bounds pct raw v.clamp_percent in
      let b =
        scaled_bounds current _ pct (100 - pct) (omega (arith, v.clamp_percent))
          (omega (arith, max_distance_bounds c v)) ratio.0 ratio.1 in
      rw p (step_of_scaled c current _ pct low high b.0 b.1)
