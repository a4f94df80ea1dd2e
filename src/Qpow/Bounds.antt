-- ===== src/Qpow/Bounds.antt =====
-- The range of the retargeted threshold (`calculate_distance_threshold` in
-- pallets/qpow/src/lib.rs).
use native.Mathlib.Nat.{pow-le-pow_right, pow-suc, one-le-pow}
use native.Mathlib.Numerals.{towards_suc}
use chain_testing.Prelude.{ℕ, ◌+◌, ◌*◌, ◌/◌, ◌^◌, ◌≤◌, ◌<◌, ◌≡◌, some, arith, ◌==◌, if◌then◌else◌}
use chain_testing.Prelude.Uint.{u64_max, u512_max, sat_mul}
use chain_testing.Qpow.Types.{Config, FixedU128, IsFixed, fixed_u128_scale, shl}
use chain_testing.Qpow.Threshold.{
  get_initial_distance_threshold, get_max_distance, limit_distance, scale_threshold,
  calculate_distance_threshold, clamp_ratio,
}

-- The configuration that the theorems assume: the largest distance fits in 512 bits, the clamp is a
-- percentage, the target time and the history are not empty, and the history's size fits in a u32.
pub record IsConfig (c : Config) : Type 0 where
  pub exponent_fits : c.initial_distance_threshold_exponent + 3 ≤ 512
  pub clamp_percent : c.difficulty_adjust_percent_clamp ≤ 100
  pub target_pos : 0 < c.target_block_time
  pub target_fits : c.target_block_time ≤ u64_max
  pub history_pos : 0 < c.block_time_history_size
  pub history_fits : c.block_time_history_size < 2 ^ 32

-- The largest distance, four times 2 ^ e, lies in the 512 bits.
pow-fits : (e : ℕ) → e + 3 ≤ 512 → 2 ^ e * 8 ≤ 2 ^ 512
pow-fits e h =
    let p : 2 ^ (e + 3) ≤ 2 ^ 512 = pow-le-pow_right (omega arith) h in
    let q : 2 ^ (e + 3) ≡ 2 ^ e * 8 = simp (towards_suc, pow-suc) (omega arith) in omega arith

pub initial_distance_lem :
    (c : Config)
    → IsConfig c
    → get_initial_distance_threshold c ≡ 2 ^ c.initial_distance_threshold_exponent
unfolding get_initial_distance_threshold shl
initial_distance_lem c v =
    omega (arith, pow-fits c.initial_distance_threshold_exponent v.exponent_fits)

pub max_distance_lem :
    (c : Config) → IsConfig c → get_max_distance c ≡ 2 ^ c.initial_distance_threshold_exponent * 4
unfolding get_max_distance shl
max_distance_lem c v = omega (
  arith,
  pow-fits c.initial_distance_threshold_exponent v.exponent_fits,
  initial_distance_lem c v,
)

pub initial_distance_bounds :
    (c : Config)
    → IsConfig c
    → (1 ≤ get_initial_distance_threshold c)
      × (get_initial_distance_threshold c ≤ get_max_distance c)
initial_distance_bounds c v = omega (
  arith,
  initial_distance_lem c v,
  max_distance_lem c v,
  one-le-pow c.initial_distance_threshold_exponent 2 (omega arith),
)

pub max_distance_bounds :
    (c : Config) → IsConfig c → (0 < get_max_distance c) × (get_max_distance c < 2 ^ 512)
max_distance_bounds c v = omega (
  arith,
  pow-fits c.initial_distance_threshold_exponent v.exponent_fits,
  max_distance_lem c v,
  initial_distance_bounds c v,
)

pub limit_distance_bounds :
    (c : Config) (d : ℕ)
    → 0 < get_max_distance c
    → (1 ≤ limit_distance c d) × (limit_distance c d ≤ get_max_distance c)
unfolding limit_distance
limit_distance_bounds c d h = ground arith

pub limit_distance_mono :
    (c : Config) (d e : ℕ)
    → 0 < get_max_distance c
    → d ≤ e
    → limit_distance c d ≤ limit_distance c e
unfolding limit_distance
limit_distance_mono c d e h k = ground arith

pub limit_distance_self :
    (c : Config) (d : ℕ) → 1 ≤ d → d ≤ get_max_distance c → limit_distance c d ≡ d
unfolding limit_distance
limit_distance_self c d h k = ground arith

-- The division by the scale never fails, so every threshold is limited.
pub scale_threshold_lem :
    (c : Config) (current one ratio : ℕ)
    → scale_threshold c current one ratio
      ≡ limit_distance c
          (if ratio == one then current else sat_mul u512_max (current / fixed_u128_scale) ratio)
unfolding scale_threshold
scale_threshold_lem c current one ratio = ground arith

module _ (from_rational : FixedU128) (fixed : IsFixed from_rational) where
  pub one_lem : from_rational 1 1 ≡ some fixed_u128_scale
  one_lem = fixed.exact 1 1 fixed_u128_scale (omega arith) (omega arith) (omega arith)

  pub clamp_lem : (p : ℕ) → p ≤ 100 → from_rational p 100 ≡ some (p * 10 ^ 16)
  clamp_lem p h = fixed.exact p 100 (p * 10 ^ 16) (omega arith) (omega arith) (omega arith)

  -- The retargeted threshold through its ratio.
  pub calculate_lem :
      (c : Config) (current observed target raw : ℕ)
      → IsConfig c
      → from_rational observed target ≡ some raw
      → calculate_distance_threshold from_rational c current observed target
        ≡ some (
            scale_threshold c current fixed_u128_scale
              (clamp_ratio fixed_u128_scale (c.difficulty_adjust_percent_clamp * 10 ^ 16) raw))
  unfolding calculate_distance_threshold
  calculate_lem c current observed target raw v e =
      rw (clamp_lem c.difficulty_adjust_percent_clamp v.clamp_percent, one_lem, e)

  -- For a configuration as `IsConfig` says, fixed-point numbers as `IsFixed` says, an observed
  -- time of 64 bits and a nonzero target, the threshold is computed without a panic, and lies
  -- between the smallest distance, 1, and the largest, whatever the current threshold is.
  pub calculate-bounds :
      (c : Config) (current observed target : ℕ)
      → IsConfig c
      → observed ≤ u64_max
      → 0 < target
      → (r : ℕ) × (calculate_distance_threshold from_rational c current observed target ≡ some r)
        × (1 ≤ r)
        × (r ≤ get_max_distance c)
  calculate-bounds c current observed target v fits pos =
      let (raw, e, _) = fixed.total observed target fits pos in
      let b = λ (d : ℕ). limit_distance_bounds c d (max_distance_bounds c v).0 in
      (
        _,
        calculate_lem c current observed target raw v e,
        rw scale_threshold_lem (b _).0,
        rw scale_threshold_lem (b _).1,
      )
