-- ===== src/QpowMath/Power.antt =====
-- `mod_pow` and `hash_to_group_bigint` of qpow-math/src/lib.rs. `none` is the panic on a zero
-- modulus. An exponent has 512 bits, so 513 rounds are enough.
pub mod Laws
use chain_testing.Prelude.{ℕ, zero, suc, ◌*◌, ◌/◌, ◌%◌, Option, none, some, ◌==◌, if◌then◌else◌}
use chain_testing.Prelude.Uint.{u512_max, sat_add}

-- The square-and-multiply loop, with fuel; `none` means that the fuel ran out.
unfoldable pub power_loop : ℕ → ℕ → ℕ → ℕ → ℕ → Option ℕ
power_loop zero base exp modulus result = none
power_loop (suc fuel) base exp modulus result =
    let rest =
      power_loop fuel (base * base % modulus) (exp / 2) modulus
        (if exp % 2 == 1 then result * base % modulus else result) in
    if exp == 0 then some result else rest

unfoldable pub mod_pow : ℕ → ℕ → ℕ → Option ℕ
unfolding power_loop
mod_pow base exponent modulus =
    if modulus == 0 then none else power_loop 513 base exponent modulus 1

unfoldable pub hash_to_group_bigint : ℕ → ℕ → ℕ → ℕ → Option ℕ
unfolding mod_pow
hash_to_group_bigint h m n solution = mod_pow m (sat_add u512_max h solution) n
