-- ===== src/QpowMath/Prime.antt =====
-- `is_prime` of qpow-math/src/lib.rs, the Miller-Rabin test. The hash that generates the bases is a
-- parameter: `base_hash n i` is the SHA3-512 of n and the counter i, read as a number. `none` is a
-- panic in `mod_pow`, or the end of the fuel.
pub mod Split
pub mod Strong
use chain_testing.Prelude.{
  ℕ, zero, suc, ◌+◌, ◌-◌, ◌*◌, ◌/◌, ◌%◌, ◌^◌, Option, none, some, Bool, true, false, List, [], ◌∷◌,
  leb, ◌==◌, if◌then◌else◌, ◌||◌,
}
use chain_testing.Prelude.Panic.{◌>>=◌}
use chain_testing.Prelude.Uint.{u32_max}
use chain_testing.QpowMath.Power.{mod_pow}

-- `while d % 2 == 0 { d /= 2; r += 1 }`
unfoldable pub split_loop : ℕ → ℕ → ℕ → Option (ℕ × ℕ)
split_loop zero d r = none
split_loop (suc fuel) d r =
    let rest = split_loop fuel (d / 2) (r + 1) in if d % 2 == 0 then rest else some (d, r)

-- The base number `i`, between 2 and n - 3.
unfoldable pub base_of : (ℕ → ℕ → ℕ) → ℕ → ℕ → ℕ
base_of base_hash n i = base_hash n i % (n - 4) + 2

-- `while base_count < 32 { ... }`, with the rounds left.
unfoldable pub bases_from : (ℕ → ℕ → ℕ) → ℕ → ℕ → ℕ → List ℕ
bases_from base_hash n zero i = []
bases_from base_hash n (suc left) i = base_of base_hash n i ∷ bases_from base_hash n left (i + 1)

-- `for _ in 0..r - 1`: true is `continue 'witness`, false is `return false`.
unfoldable pub square_loop : ℕ → ℕ → ℕ → Option Bool
square_loop n zero x = some false
square_loop n (suc left) x = mod_pow x 2 n >>= λ y.
    if y == n - 1 then some true else (if y == 1 then some false else square_loop n left y)

-- The body of the loop over the bases.
unfoldable pub passes : ℕ → ℕ → ℕ → ℕ → Option Bool
unfolding square_loop
passes n d r base =
    mod_pow base d n >>= λ x. if x == 1 || x == n - 1 then some true else square_loop n (r - 1) x

unfoldable pub witness_loop : ℕ → ℕ → ℕ → List ℕ → Option Bool
unfolding passes
witness_loop n d r [] = some true
witness_loop n d r (base ∷ bases) =
    passes n d r base >>= λ ok. if ok then witness_loop n d r bases else some false

-- A 512-bit number halves at most 512 times.
unfoldable pub is_prime : (ℕ → ℕ → ℕ) → ℕ → Option Bool
unfolding split_loop bases_from witness_loop base_of
is_prime base_hash n =
    if leb n 1
    then some false
    else (if n == 2 || n == 3
        then some true
        else (if n % 2 == 0
            then some false
            else (split_loop 513 (n - 1) 0 >>= λ dr.
                witness_loop n dr.0 dr.1 (bases_from base_hash n 32 0))))
