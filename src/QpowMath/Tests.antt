-- ===== src/QpowMath/Tests.antt =====
-- The theorems on qpow-math/src/lib.rs at concrete numbers.
use Prim.Native.Nat.{bit_xor}
use chain_testing.Prelude.{
  ℕ, ◌+◌, ◌-◌, ◌*◌, ◌%◌, ◌^◌, ◌∣◌, ◌≡◌, ◌↔◌, refl, true, false, All, some, leb, arith,
}
use chain_testing.Prelude.Uint.{u512_max, sat_add}
use chain_testing.QpowMath.Power.{mod_pow}
use chain_testing.QpowMath.Power.Laws.{mod_pow_lem}
use chain_testing.QpowMath.Coprime.{is_coprime, is_coprime_iff}
use chain_testing.QpowMath.Prime.{is_prime, bases_from}
use chain_testing.QpowMath.Prime.Strong.{IsStrong, is_prime_iff}
use chain_testing.QpowMath.Nonce.{Hashes, is_unfit, get_random_rsa, is_valid_nonce}
use chain_testing.QpowMath.Nonce.Sound.{IsFit, get_random_rsa-IsFit, is_valid_nonce_lem}

mod_pow_lem_example : mod_pow 3 5 7 ≡ some (3 ^ 5 % 7)
mod_pow_lem_example = mod_pow_lem 3 5 7 (omega arith) (omega arith)

is_coprime_iff_example : (is_coprime 9 4 ≡ true) ↔ ((d : ℕ) → d ∣ 9 → d ∣ 4 → d ≡ 1)
is_coprime_iff_example = is_coprime_iff 9 4

abbrev base_hash : ℕ → ℕ → ℕ
base_hash n k = n + k

is_prime_iff_example :
    (d r : ℕ) × (21 - 1 ≡ d * 2 ^ r)
    × (d % 2 ≡ 1)
    × ((is_prime base_hash 21 ≡ some true) ↔ All (IsStrong 21 d r) (bases_from base_hash 21 32 0))
is_prime_iff_example = is_prime_iff base_hash 21 (omega arith) (omega arith) (omega arith)

-- Hashes that the search answers with the modulus 25 after the candidate 24, which is even.
abbrev hashes : Hashes
hashes = record {
  sha256 = λ _. 4;
  sha3_header = λ h. 24;
  sha3_512 = λ x. x + 1;
  sha3_base = λ n k. n + k;
}

unfit_24 : is_unfit hashes 4 24 ≡ some true
unfolding is_unfit is_prime is_coprime
unfit_24 = refl

fit_25 : is_unfit hashes 4 25 ≡ some false
unfolding is_unfit is_prime is_coprime mod_pow
fit_25 = refl

found : get_random_rsa hashes 2 7 ≡ some (4, 25)
unfolding get_random_rsa is_prime is_coprime mod_pow
found = refl

get_random_rsa-IsFit_example : (4 ≡ hashes.sha256 7) × IsFit hashes 4 25
get_random_rsa-IsFit_example = get_random_rsa-IsFit hashes 2 7 found

is_valid_nonce_lem_example :
    is_valid_nonce hashes 2 7 3 100
    ≡ some (leb (bit_xor (4 ^ 7 % 25 + 1) (4 ^ sat_add u512_max 7 3 % 25 + 1)) 100)
is_valid_nonce_lem_example =
    is_valid_nonce_lem hashes 2 7 3 100 (λ e. omega arith) (omega arith) (omega arith) found
