-- ===== src/HeaviestChain/Ancestor.antt =====
-- `find_common_ancestor_and_depth` (client/consensus/qpow/src/chain_management.rs).
pub mod Lowest
use chain_testing.Prelude.{ℕ, zero, suc, ◌+◌, ◌-◌, min, ◌==◌, if◌then◌else◌}
use chain_testing.HeaviestChain.Client.{
  Header, Error, blockchain_error, missing_header, no_common_ancestor, Result, ok, err, map_err,
  ok_or, and_then, Client,
}

-- `self.client.header(h).map_err(..)?.ok_or_else(..)?`
abbrev pub get_header : {Store : Type 0} → Client Store → Error → ℕ → Result Header
get_header client missing h = ok_or missing (map_err blockchain_error (client.header h))

module _ {Store : Type 0} (client : Client Store) where
  unfoldable pub parent_of : ℕ → Result ℕ
  parent_of h = and_then (get_header client missing_header h) λ header. ok header.parent_hash

  -- The third loop: from equal heights both chains go down until they meet.
  unfoldable pub descend_both : ℕ → ℕ → ℕ → ℕ → Result (ℕ × ℕ)
  unfolding parent_of
  descend_both zero current competing depth =
      if current == competing then ok (current, depth) else err no_common_ancestor
  descend_both (suc height) current competing depth =
      let rest = and_then (parent_of current) λ current'.
        and_then (parent_of competing)
          λ competing'. descend_both height current' competing' (depth + 1) in
      if current == competing then ok (current, depth) else rest

  -- The second loop: a taller competing chain goes down, for the rounds that its height is above.
  unfoldable pub descend_competing : ℕ → ℕ → ℕ → (ℕ → ℕ → Result (ℕ × ℕ)) → Result (ℕ × ℕ)
  unfolding parent_of
  descend_competing zero competing depth next = next competing depth
  descend_competing (suc rounds) competing depth next =
      and_then (parent_of competing)
        λ competing'. descend_competing rounds competing' (depth + 1) next

  -- The first loop: a taller current chain goes down, and may meet the competing block early.
  unfoldable pub descend_current : ℕ → ℕ → ℕ → ℕ → (ℕ → ℕ → Result (ℕ × ℕ)) → Result (ℕ × ℕ)
  unfolding parent_of
  descend_current zero current competing depth next = next current depth
  descend_current (suc rounds) current competing depth next =
      let rest =
        and_then (parent_of current)
          λ current'. descend_current rounds current' competing (depth + 1) next in
      if current == competing then ok (current, depth) else rest

  unfoldable pub find_common_ancestor_and_depth : Header → Header → Result (ℕ × ℕ)
  unfolding descend_both descend_competing descend_current
  find_common_ancestor_and_depth current_best competing =
      if current_best.hash == competing.hash
      then ok (current_best.hash, 0)
      else descend_current (current_best.number - competing.number) current_best.hash competing.hash
          0
          λ current depth.
            descend_competing (competing.number - current_best.number) competing.hash depth
              λ competing' depth'.
                descend_both (min current_best.number competing.number) current competing' depth'
