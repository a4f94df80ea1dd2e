-- ===== src/Prelude/Uint.antt =====
-- Unsigned machine integers as natural numbers with a bound, and their saturating operations.
use Prim.Native.Nat.{ℕ, ◌+◌, ◌-◌, ◌*◌, ◌^◌, min}

abbrev pub u32_max : ℕ
u32_max = 2 ^ 32 - 1

abbrev pub u64_max : ℕ
u64_max = 2 ^ 64 - 1

abbrev pub u128_max : ℕ
u128_max = 2 ^ 128 - 1

abbrev pub u512_max : ℕ
u512_max = 2 ^ 512 - 1

-- `saturating_add` and `saturating_mul` at the type whose largest value is `top`.
abbrev pub sat_add : ℕ → ℕ → ℕ → ℕ
sat_add top a b = min (a + b) top

abbrev pub sat_mul : ℕ → ℕ → ℕ → ℕ
sat_mul top a b = min (a * b) top

-- `saturating_sub` stops at 0, as `-` on ℕ does.
abbrev pub sat_sub : ℕ → ℕ → ℕ
sat_sub a b = a - b
