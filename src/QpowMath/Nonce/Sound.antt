-- ===== src/QpowMath/Nonce/Sound.antt =====
-- What the search for the modulus finds, and what a valid nonce is (qpow-math/src/lib.rs).
use Prim.Native.Nat.{bit_xor}
use chain_testing.Prelude.{
  ℕ, zero, suc, ◌%◌, ◌^◌, ◌≤◌, ◌<◌, ◌∣◌, ◌≡◌, ◌≢◌, ◌∙◌, inl, inr, Option, some, some_eq, ap, sym,
  arith, leb, ◌==◌, ◌||◌, not, if◌then◌else◌, Bool, true, false, Bool-cases, ==_false,
}
use chain_testing.Prelude.Panic.{>>=-eq-some}
use chain_testing.Prelude.Uint.{u512_max, sat_add}
use chain_testing.QpowMath.Power.{hash_to_group_bigint}
use chain_testing.QpowMath.Power.Laws.{mod_pow_lem}
use chain_testing.QpowMath.Coprime.{is_coprime, is_coprime_iff}
use chain_testing.QpowMath.Prime.{is_prime}
use chain_testing.QpowMath.Nonce.{
  Hashes, is_unfit, search_loop, get_random_rsa, hash_to_group_bigint_sha, get_nonce_distance,
  is_valid_nonce,
}

-- The three quick tests have failed, and the last one decides.
unfit_inv :
    (a b c : Bool) (rest : Option Bool)
    → (if a || b || not c then some true else rest) ≡ some false
    → (a ≡ false) × (b ≡ false) × (c ≡ true) × (rest ≡ some false)
unfit_inv a b c rest e = ground arith

above_of_leb : (a b : ℕ) → leb a b ≡ false → b < a
above_of_leb a b h = ground arith

odd_of_test : (n : ℕ) → (n % 2 == 0) ≡ false → n % 2 ≡ 1
odd_of_test n h = ground arith

module _ (hashes : Hashes) where
  -- A fit modulus: odd, above m, coprime to m, and composite by the test.
  pub record IsFit (m n : ℕ) : Type 0 where
    pub odd : n % 2 ≡ 1
    pub above : m < n
    pub coprime : (d : ℕ) → d ∣ m → d ∣ n → d ≡ 1
    pub composite : is_prime hashes.sha3_base n ≡ some false

  is_unfit-false : (m n : ℕ) → is_unfit hashes m n ≡ some false → IsFit m n
  unfolding is_unfit
  is_unfit-false m n e =
      let (a, b, c, d) = unfit_inv (n % 2 == 0) (leb n m) (is_coprime m n) _ e in
      record {
        odd = odd_of_test n a;
        above = above_of_leb n m b;
        coprime = (is_coprime_iff m n).0 c;
        composite = d;
      }

  -- The k-th candidate for the modulus.
  abbrev pub candidate : ℕ → ℕ → ℕ
  candidate zero n = n
  candidate (suc k) n = candidate k (hashes.sha3_512 n)

  -- What the search returns is fit.
  search_loop_sound : (fuel m n : ℕ) {r : ℕ} → search_loop hashes fuel m n ≡ some r → IsFit m r
  unfolding search_loop
  search_loop_sound zero m n e = cc
  search_loop_sound (suc fuel) m n {r} e =
      let (unfit, p, q) = >>=-eq-some (is_unfit hashes m n) _ e in
      elim (Bool-cases unfit) [
        | inl again ↦ search_loop_sound fuel m (hashes.sha3_512 n) (rw again at q)
        | inr fit ↦
            let found : n ≡ r = some_eq (rw fit at q) in
            rw (← found) (is_unfit-false m n (p ∙ ap some fit))
      ]

  -- The search returns the first fit candidate, with as much fuel as there are candidates up to it.
  search_loop_complete :
      (k fuel m n : ℕ)
      → ((j : ℕ) → j < k → is_unfit hashes m (candidate j n) ≡ some true)
      → is_unfit hashes m (candidate k n) ≡ some false
      → k < fuel
      → search_loop hashes fuel m n ≡ some (candidate k n)
  unfolding search_loop
  search_loop_complete k zero m n before hit enough = absurd (omega arith)
  search_loop_complete zero (suc fuel) m n before hit enough = rw hit
  search_loop_complete (suc k) (suc fuel) m n before hit enough = rw (before 0 (omega arith)) (
      search_loop_complete k fuel m (hashes.sha3_512 n) (λ j lt. before (suc j) (omega arith)) hit
        (omega arith))

  -- If the search ends within its fuel, what `get_random_rsa` returns is the hash of the header
  -- with an odd, larger and coprime number that the primality test calls composite.
  pub get_random_rsa-IsFit :
      (fuel header : ℕ) {m n : ℕ}
      → get_random_rsa hashes fuel header ≡ some (m, n)
      → (m ≡ hashes.sha256 header) × IsFit m n
  unfolding get_random_rsa
  get_random_rsa-IsFit fuel header {m} {n} e =
      let (r, p, q) =
        >>=-eq-some (search_loop hashes fuel (hashes.sha256 header) (hashes.sha3_header header)) _
          e in
      let fit = search_loop_sound fuel _ _ p in
      let pair = some_eq q in
      let a : hashes.sha256 header ≡ m = ap (λ (t : ℕ × ℕ). t.0) pair in
      let b : r ≡ n = ap (λ (t : ℕ × ℕ). t.1) pair in (sym a, rw (← a, ← b) fit)

  -- If the first k candidates for the modulus are unfit, the next one is fit, and the fuel is more
  -- than k, then `get_random_rsa` returns that candidate.
  pub get_random_rsa-returns :
      (fuel header k : ℕ)
      → ((j : ℕ)
          → j < k
          → is_unfit hashes (hashes.sha256 header) (candidate j (hashes.sha3_header header))
            ≡ some true)
      → is_unfit hashes (hashes.sha256 header) (candidate k (hashes.sha3_header header))
        ≡ some false
      → k < fuel
      → get_random_rsa hashes fuel header
        ≡ some (hashes.sha256 header, candidate k (hashes.sha3_header header))
  unfolding get_random_rsa
  get_random_rsa-returns fuel header k before hit enough = rw (
      search_loop_complete k fuel (hashes.sha256 header) (hashes.sha3_header header) before hit
        enough)

  -- The element of the group for a solution.
  group_lem :
      (h m n solution : ℕ)
      → 1 < n
      → hash_to_group_bigint_sha hashes h m n solution
        ≡ some (hashes.sha3_512 (m ^ sat_add u512_max h solution % n))
  unfolding hash_to_group_bigint_sha hash_to_group_bigint
  group_lem h m n solution big =
      rw (mod_pow_lem m (sat_add u512_max h solution) n (omega arith) big)

  -- Let (m, n) with n > 1 be found for a header h of at most 512 bits. A nonzero nonce is valid
  -- exactly if the hashes of m ^ h and m ^ (h + nonce) modulo n, with an exponent that saturates
  -- at 512 bits, have an exclusive or of at most the threshold.
  pub is_valid_nonce_lem :
      (fuel header nonce threshold : ℕ) {m n : ℕ}
      → nonce ≢ 0
      → header ≤ u512_max
      → 1 < n
      → get_random_rsa hashes fuel header ≡ some (m, n)
      → is_valid_nonce hashes fuel header nonce threshold
        ≡ some (
            leb
              (bit_xor
                (hashes.sha3_512 (m ^ header % n))
                (hashes.sha3_512 (m ^ sat_add u512_max header nonce % n)))
              threshold)
  unfolding is_valid_nonce get_nonce_distance
  is_valid_nonce_lem fuel header nonce threshold {m} {n} nonzero fits big e =
      let plain : sat_add u512_max header 0 ≡ header = omega arith in
      rw (
        ==_false nonce 0 nonzero,
        e,
        group_lem header m n 0 big,
        group_lem header m n nonce big,
        plain,
      )
