-- ===== src/Node/Polling.antt =====
-- The mining task of the node with an external miner (node/src/service.rs), in one round of its loop.
-- The sleeps are left out, and the cancellation of the previous job, whose result is only logged.
use chain_testing.Prelude.{ℕ, Option, none, some, List, [], ◌∷◌, Bool, if◌then◌else◌}
use chain_testing.Prelude.Uint.{u512_max}
use chain_testing.Qpow.Types.{Config, State}
use chain_testing.Qpow.Threshold.{get_distance_threshold}
use chain_testing.Miner.Service.{Text, MiningRequest, ApiStatus}
use chain_testing.Node.External.{
  Formats, job_request, submit_mining_job, Polled, found, still_working, poll_failed, WireResult,
  check_mining_result,
}
use chain_testing.Node.Loop.{submit_found}

-- What a poll meets: the response of the miner, whether there is metadata with another best block,
-- and whether the version of the work has changed.
pub record Poll : Type 0 where
  pub response : Option WireResult
  pub moved : Bool
  pub stale : Bool

-- The round is left with the next nonce and the seals that were submitted, where `none` is a panic,
-- or it goes on polling.
pub data Step : Type 0 where
  left : Option (ℕ × List (List ℕ)) → Step
  polling : Step

-- A step, and what follows if it goes on.
abbrev pub or_again : Step → Step → Step
or_again (left r) rest = left r
or_again polling rest = rest

module _ (hex_decode : Text → Option (ℕ × ℕ)) (submit : List ℕ → Bool) where
  abbrev pub after_poll : ℕ → Polled → Bool → Bool → Step
  after_poll nonce (found seal) moved stale = left (submit_found submit stale nonce seal)
  after_poll nonce still_working moved stale = if moved then left (some (nonce, [])) else polling
  after_poll nonce (poll_failed e) moved stale = left (some (nonce, []))

  -- The polls of a job, in their order.
  unfoldable pub poll_rounds : ℕ → List Poll → Step
  poll_rounds nonce [] = polling
  poll_rounds nonce (poll ∷ polls) =
      let rest = poll_rounds nonce polls in
      or_again
        (after_poll nonce (check_mining_result hex_decode poll.response) poll.moved poll.stale) rest

  module _ (formats : Formats) (c : Config) (runtime_at : ℕ → Option State) where
    -- `reply` is the status that the miner answers to a request, if it answers. The job is asked to
    -- search from the nonce of the task on, up to the largest one.
    abbrev pub mine_at :
        Option State → ℕ → ℕ → ℕ → (MiningRequest → Option ApiStatus) → List Poll → Step
    mine_at none job_id pre_hash nonce reply polls = left (some (nonce, []))
    mine_at (some s) job_id pre_hash nonce reply polls =
        if submit_mining_job
          (reply (job_request formats job_id pre_hash (get_distance_threshold c s) nonce u512_max))
        then poll_rounds nonce polls
        else left (some (nonce, []))

    unfoldable pub mine_externally :
        ℕ → ℕ → ℕ → ℕ → (MiningRequest → Option ApiStatus) → List Poll → Step
    mine_externally best_hash job_id pre_hash nonce reply polls =
        mine_at (runtime_at best_hash) job_id pre_hash nonce reply polls
