-- ===== src/Node/Loop.antt =====
-- The mining task of the node without an external miner (node/src/service.rs). `none` is a panic: the
-- addition of 512-bit numbers overflows.
use chain_testing.Prelude.{
  ℕ, zero, suc, ◌+◌, Option, none, some, List, [], ◌∷◌, ◌++◌, Bool, ◌==◌, if◌then◌else◌,
}
use chain_testing.Prelude.Panic.{◌>>=◌}
use chain_testing.Prelude.Uint.{u512_max}
use chain_testing.Qpow.Types.{Config, State}
use chain_testing.Node.Seal.{QpowSeal, encode, try_nonce}

-- `nonce += U512::one()`.
abbrev pub next_nonce : ℕ → Option ℕ
next_nonce nonce = if nonce == u512_max then none else some (nonce + 1)

-- After a round: the nonce of the next one, and the seal that was submitted, if any.
abbrev pub advanced : Option ℕ → List (List ℕ) → Option (ℕ × List (List ℕ))
advanced none sent = none
advanced (some nonce) sent = some (nonce, sent)

-- The submission of a seal, which stands in the local and in the external branch of the task.
abbrev pub submit_found : (List ℕ → Bool) → Bool → ℕ → QpowSeal → Option (ℕ × List (List ℕ))
submit_found submit stale nonce seal =
    if stale
    then some (nonce, [])
    else (if submit (encode seal)
        then some (0, encode seal ∷ [])
        else advanced (next_nonce nonce) (encode seal ∷ []))

-- `stale` says that the version of the work has changed, and `submit` is the import of the block
-- with a seal.
module _ (is_valid_nonce : ℕ → ℕ → ℕ → Bool) (c : Config) (runtime_at : ℕ → Option State)
    (best_hash pre_hash : ℕ) (stale : Bool) (submit : List ℕ → Bool) where
  abbrev pub local_result : ℕ → Option QpowSeal → Option (ℕ × List (List ℕ))
  local_result nonce none = advanced (next_nonce nonce) []
  local_result nonce (some seal) = submit_found submit stale nonce seal

  unfoldable pub local_round : ℕ → Option (ℕ × List (List ℕ))
  local_round nonce =
      local_result nonce (try_nonce is_valid_nonce c runtime_at best_hash pre_hash nonce)

  -- So many rounds on the same metadata, with the seals that are submitted, in their order.
  unfoldable pub local_rounds : ℕ → ℕ → Option (ℕ × List (List ℕ))
  unfolding local_round
  local_rounds zero nonce = some (nonce, [])
  local_rounds (suc n) nonce = local_round nonce >>= λ (next, sent).
      local_rounds n next >>= λ (last, rest). some (last, sent ++ rest)
