-- ===== src/Node/Found.antt =====
-- Local mining finds the first valid nonce (node/src/service.rs).
use chain_testing.Prelude.{
  ℕ, zero, suc, ◌+◌, ◌≡◌, ◌≤◌, ◌<◌, refl, Option, some, List, [], ◌∷◌, Bool, true, false,
  if◌then◌else◌, ==_false, arith,
}
use chain_testing.Prelude.Uint.{u512_max}
use chain_testing.Qpow.Types.{Config, State}
use chain_testing.Qpow.Threshold.{get_distance_threshold}
use chain_testing.Qpow.Nonces.{submit_nonce}
use chain_testing.Node.Seal.{encode, try_nonce}
use chain_testing.Node.Loop.{local_round, local_rounds}

if_true : {A : Type 0} (b : Bool) (x y : A) → b ≡ true → (if b then x else y) ≡ x
if_true b x y h = rw h refl

module _ (is_valid_nonce : ℕ → ℕ → ℕ → Bool) (c : Config) (runtime_at : ℕ → Option State)
    (best_hash pre_hash : ℕ) (submit : List ℕ → Bool) where
  round_invalid :
      (nonce : ℕ) (s : State)
      → runtime_at best_hash ≡ some s
      → is_valid_nonce pre_hash nonce (get_distance_threshold c s) ≡ false
      → nonce < u512_max
      → local_round is_valid_nonce c runtime_at best_hash pre_hash false submit nonce
        ≡ some (nonce + 1, [])
  unfolding local_round try_nonce submit_nonce
  round_invalid nonce s at bad h = rw (at, bad, ==_false nonce u512_max (λ e. omega arith)) refl

  round_valid :
      (nonce : ℕ) (s : State)
      → runtime_at best_hash ≡ some s
      → is_valid_nonce pre_hash nonce (get_distance_threshold c s) ≡ true
      → submit (encode (record { nonce = nonce })) ≡ true
      → local_round is_valid_nonce c runtime_at best_hash pre_hash false submit nonce
        ≡ some (0, encode (record { nonce = nonce }) ∷ [])
  unfolding local_round try_nonce submit_nonce
  round_valid nonce s at ok taken =
      rw (at, ok) (if_true (submit (encode (record { nonce = nonce }))) _ _ taken)

  -- On a state of the best block, as long as the work does not change: from a nonce on, with d
  -- invalid nonces before the first valid one, which has 512 bits, d + 1 rounds submit the seal of
  -- this nonce and nothing else, and, if its block is imported, go back to nonce 0.
  pub local_rounds-submits :
      (d nonce y : ℕ) (s : State)
      → runtime_at best_hash ≡ some s
      → nonce + d ≡ y
      → ((z : ℕ)
          → nonce ≤ z
          → z < y
          → is_valid_nonce pre_hash z (get_distance_threshold c s) ≡ false)
      → is_valid_nonce pre_hash y (get_distance_threshold c s) ≡ true
      → submit (encode (record { nonce = y })) ≡ true
      → y ≤ u512_max
      → local_rounds is_valid_nonce c runtime_at best_hash pre_hash false submit (suc d) nonce
        ≡ some (0, encode (record { nonce = y }) ∷ [])
  unfolding local_rounds
  local_rounds-submits zero nonce y s at end bad ok taken h =
      let same : nonce ≡ y = omega arith in rw (same, round_valid y s at ok taken) refl
  local_rounds-submits (suc d) nonce y s at end bad ok taken h =
      let first = round_invalid nonce s at (bad nonce (omega arith) (omega arith)) (omega arith) in
      let rest =
        local_rounds-submits d (nonce + 1) y s at (omega arith) (λ z ge lt. bad z (omega arith) lt)
          ok taken h in
      rw (first, rest) refl
