-- ===== src/HeaviestChain/Select.antt =====
-- The choice of the best chain (`find_best_chain` and `best_chain`,
-- client/consensus/qpow/src/chain_management.rs).
pub mod Heaviest
pub mod Chosen
pub mod Fresh
use chain_testing.Prelude.{
  ℕ, List, [], ◌∷◌, Bool, Option, none, some, ltb, leb, ◌==◌, if◌then◌else◌,
}
use chain_testing.HeaviestChain.Client.{
  Header, failed_work, missing_header, missing_best_header, failed_leaves, no_leaves,
  no_valid_chain, failed_read_ignored, failed_add_ignored, panicked, Result, ok, err, map_err,
  ok_or, and_then, Action, ◌>>=◌, lift, pure, Client,
}
use chain_testing.HeaviestChain.Ancestor.{get_header, find_common_ancestor_and_depth}

module _ {Store : Type 0} (client : Client Store) where
  unfoldable pub calculate_chain_work : Header → Result ℕ
  calculate_chain_work head = map_err failed_work (client.get_total_work head.hash)

  -- The loop of `find_best_chain`, over the best header and work so far.
  unfoldable pub find_best_loop : List ℕ → Option Header → ℕ → Result (Option Header)
  unfolding calculate_chain_work
  find_best_loop [] best best_work = ok best
  find_best_loop (leaf ∷ leaves) best best_work =
      and_then (get_header client missing_header leaf) λ header.
        and_then (calculate_chain_work header) λ work.
          find_best_loop leaves (if ltb best_work work then some header else best)
            (if ltb best_work work then work else best_work)

  unfoldable pub find_best_chain : List ℕ → Result Header
  unfolding find_best_loop
  find_best_chain leaves = ok_or no_valid_chain (find_best_loop leaves none 0)

  -- Whether there is an entry for the head under the prefix of the ignored chains.
  unfoldable pub is_chain_ignored : ℕ → Action Store Bool
  is_chain_ignored hash s = (map_err failed_read_ignored (client.get_aux hash s), s)

  unfoldable pub add_ignored_chain : ℕ → Action Store (Unit {0})
  add_ignored_chain hash s = elim (client.insert_aux hash s) [
    | ok s' ↦ (ok tt, s')
    | err e ↦ (err failed_add_ignored, s)
  ]

  -- Between the best so far and a head of at least its work, within the limit: more work wins, and
  -- of equal work the greater height.
  unfoldable pub choose : Header × ℕ → Header → ℕ → Header × ℕ
  choose (best, best_work) header work =
      if work == best_work
      then (if ltb best.number header.number then (header, best_work) else (best, best_work))
      else (header, work)

  -- The two branches over a leaf's work, which differ in what they keep within the limit.
  unfoldable pub weigh : Header → ℕ → Header × ℕ → Header → ℕ → ℕ → Action Store (Header × ℕ)
  unfolding choose add_ignored_chain
  weigh current_best leaf (best, best_work) header work limit =
      if leb best_work work
      then (lift (find_common_ancestor_and_depth client current_best header) >>= λ found.
          if leb found.1 limit
          then pure (choose (best, best_work) header work)
          else (add_ignored_chain leaf >>= λ _. pure (best, best_work)))
      else (lift (find_common_ancestor_and_depth client current_best header) >>= λ found.
          if ltb limit found.1
          then (add_ignored_chain leaf >>= λ _. pure (best, best_work))
          else pure (best, best_work))

  -- The body of the loop over the leaves.
  unfoldable pub consider : Header → ℕ → Header × ℕ → Action Store (Header × ℕ)
  unfolding weigh is_chain_ignored calculate_chain_work
  consider current_best leaf (best, best_work) =
      if leaf == best.hash
      then pure (best, best_work)
      else (is_chain_ignored leaf >>= λ ignored.
          if ignored
          then pure (best, best_work)
          else (lift (get_header client missing_header leaf) >>= λ header.
              lift (calculate_chain_work header) >>= λ work.
              lift (map_err panicked (client.get_max_reorg_depth best.hash)) >>= λ limit.
              weigh current_best leaf (best, best_work) header work limit))

  unfoldable pub consider_all : Header → List ℕ → Header × ℕ → Action Store (Header × ℕ)
  unfolding consider
  consider_all current_best [] best = pure best
  consider_all current_best (leaf ∷ leaves) best =
      consider current_best leaf best >>= λ best'. consider_all current_best leaves best'

  -- The selection from a best block that is known.
  unfoldable pub best_from : List ℕ → Action Store Header
  unfolding consider_all calculate_chain_work
  best_from leaves =
      lift (get_header client missing_best_header client.best_hash) >>= λ current_best.
      lift (calculate_chain_work current_best) >>= λ work.
      consider_all current_best leaves (current_best, work) >>= λ best. pure best.0

  unfoldable pub select : List ℕ → Action Store Header
  unfolding best_from find_best_chain
  select [] = lift (err no_leaves)
  select (leaf ∷ leaves) =
      if client.best_hash == 0
      then lift (find_best_chain (leaf ∷ leaves))
      else best_from (leaf ∷ leaves)

  unfoldable pub best_chain : Action Store Header
  unfolding select
  best_chain = lift (map_err failed_leaves client.leaves) >>= λ leaves. select leaves
