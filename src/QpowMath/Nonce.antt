-- ===== src/QpowMath/Nonce.antt =====
-- The check of a nonce (qpow-math/src/lib.rs). The hash functions are parameters, from numbers to
-- numbers by big-endian bytes; a header or nonce is the number of its bytes. `none` is a panic, or
-- the end of the fuel of the search for the modulus, which has no bound in the code.
pub mod Sound
use Prim.Native.Nat.{bit_xor}
use chain_testing.Prelude.{
  ℕ, zero, suc, ◌%◌, Option, none, some, Bool, true, false, not, leb, ◌==◌, if◌then◌else◌, ◌||◌,
}
use chain_testing.Prelude.Panic.{◌>>=◌}
use chain_testing.QpowMath.Power.{hash_to_group_bigint}
use chain_testing.QpowMath.Coprime.{is_coprime}
use chain_testing.QpowMath.Prime.{is_prime}

-- SHA-256 and SHA3-512 of a header, SHA3-512 of a 64-byte number, and of a number with a counter.
pub record Hashes : Type 0 where
  pub sha256 : ℕ → ℕ
  pub sha3_header : ℕ → ℕ
  pub sha3_512 : ℕ → ℕ
  pub sha3_base : ℕ → ℕ → ℕ

module _ (hashes : Hashes) where
  -- The test of the loop in `get_random_rsa`: is `n` still unfit?
  unfoldable pub is_unfit : ℕ → ℕ → Option Bool
  is_unfit m n =
      if n % 2 == 0 || leb n m || not (is_coprime m n)
      then some true
      else is_prime hashes.sha3_base n

  unfoldable pub search_loop : ℕ → ℕ → ℕ → Option ℕ
  unfolding is_unfit
  search_loop zero m n = none
  search_loop (suc fuel) m n =
      let rest = search_loop fuel m (hashes.sha3_512 n) in
      is_unfit m n >>= λ unfit. if unfit then rest else some n

  unfoldable pub get_random_rsa : ℕ → ℕ → Option (ℕ × ℕ)
  unfolding search_loop
  get_random_rsa fuel header =
      search_loop fuel (hashes.sha256 header) (hashes.sha3_header header) >>= λ n.
      some (hashes.sha256 header, n)

  unfoldable pub hash_to_group_bigint_sha : ℕ → ℕ → ℕ → ℕ → Option ℕ
  hash_to_group_bigint_sha h m n solution =
      hash_to_group_bigint h m n solution >>= λ x. some (hashes.sha3_512 x)

  unfoldable pub get_nonce_distance : ℕ → ℕ → ℕ → Option ℕ
  unfolding get_random_rsa hash_to_group_bigint_sha
  get_nonce_distance fuel header nonce =
      if nonce == 0
      then some 0
      else (get_random_rsa fuel header >>= λ mn.
          hash_to_group_bigint_sha header mn.0 mn.1 0 >>= λ target.
          hash_to_group_bigint_sha header mn.0 mn.1 nonce >>= λ element.
          some (bit_xor target element))

  unfoldable pub is_valid_nonce : ℕ → ℕ → ℕ → ℕ → Option Bool
  unfolding get_nonce_distance
  is_valid_nonce fuel header nonce threshold =
      if nonce == 0
      then some false
      else (get_nonce_distance fuel header nonce >>= λ distance. some (leb distance threshold))
