-- ===== src/Qpow/Types.antt =====
-- Configuration, storage and events of pallets/qpow/src/lib.rs. A 64-byte nonce and a 32-byte hash
-- are the numbers that they spell in big-endian order; block numbers and times are numbers.
use chain_testing.Prelude.{ℕ, ◌*◌, ◌/◌, ◌%◌, ◌^◌, ◌≤◌, ◌<◌, ◌≡◌, List, Option}
use chain_testing.Prelude.Uint.{u64_max, u128_max}

-- The pallet's `Config` constants.
pub record Config : Type 0 where
  pub initial_distance_threshold_exponent : ℕ
  pub difficulty_adjust_percent_clamp : ℕ
  pub target_block_time : ℕ
  pub adjustment_period : ℕ
  pub block_time_history_size : ℕ
  pub max_reorg_depth : ℕ

pub data Event : Type 0 where
  proof_submitted : ℕ → Event
  distance_threshold_adjusted : ℕ → ℕ → ℕ → Event

pub record State : Type 0 where
  pub block_distance_thresholds : ℕ → ℕ
  pub latest_nonce : Option ℕ
  pub last_block_time : ℕ
  pub last_block_duration : ℕ
  pub current_distance_threshold : ℕ
  pub total_work : ℕ
  pub blocks_in_period : ℕ
  pub block_time_history : ℕ → ℕ
  pub history_index : ℕ
  pub history_size : ℕ
  pub events : List Event

-- `U512::shl` and `U512::shr`: what leaves the 512 bits is lost.
unfoldable pub shl : ℕ → ℕ → ℕ
shl x k = (x * 2 ^ k) % 2 ^ 512

abbrev pub shr : ℕ → ℕ → ℕ
shr x k = x / 2 ^ k

-- `FixedU128` of sp_arithmetic: the inner number of the fraction a / b, in units of 10^-18.
-- `none` is the panic on a zero denominator or on an overflow.
abbrev pub FixedU128 : Type 0
FixedU128 = ℕ → ℕ → Option ℕ

abbrev pub fixed_u128_scale : ℕ
fixed_u128_scale = 10 ^ 18

-- What the pallet relies on in `FixedU128::from_rational`: it does not panic at u64 operands with a
-- nonzero denominator, fractions that the type can hold are exact, and it is monotone.
pub record IsFixed (from_rational : FixedU128) : Type 0 where
  pub total :
      (a b : ℕ)
      → a ≤ u64_max
      → 0 < b
      → (q : ℕ) × (from_rational a b ≡ Option.some q) × (q ≤ u128_max)
  pub exact :
      (a b q : ℕ)
      → 0 < b
      → q ≤ u128_max
      → q * b ≡ a * fixed_u128_scale
      → from_rational a b ≡ Option.some q
  pub monotone :
      (a a' b q q' : ℕ)
      → a ≤ a'
      → from_rational a b ≡ Option.some q
      → from_rational a' b ≡ Option.some q'
      → q ≤ q'
