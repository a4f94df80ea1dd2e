-- ===== src/Miner/Job.antt =====
-- A mining job and the body of the mining loop (external-miner/src/lib.rs). `none` is a panic: the
-- addition of 512-bit numbers overflows, or the check of the nonce panics or does not end. The time
-- a job was started is not kept: it is only reported.
use chain_testing.Prelude.{
  ℕ, ◌+◌, ◌%◌, ◌^◌, zero, suc, Option, none, some, Bool, ltb, ◌==◌, if◌then◌else◌,
}
use chain_testing.Prelude.Panic.{◌>>=◌}
use chain_testing.Prelude.Uint.{u512_max}
use chain_testing.QpowMath.Nonce.{Hashes, is_valid_nonce}

pub data JobStatus : Type 0 where
  running completed failed : JobStatus

pub record MiningJob : Type 0 where
  pub header_hash : ℕ
  pub distance_threshold : ℕ
  pub nonce_start : ℕ
  pub nonce_end : ℕ
  pub current_nonce : ℕ
  pub status : JobStatus
  pub hash_count : ℕ

abbrev pub new_job : ℕ → ℕ → ℕ → ℕ → MiningJob
new_job header_hash distance_threshold nonce_start nonce_end = record {
  header_hash = header_hash;
  distance_threshold = distance_threshold;
  nonce_start = nonce_start;
  nonce_end = nonce_end;
  current_nonce = nonce_start;
  status = running;
  hash_count = 0;
}

-- The next nonce, unless no nonce was hashed yet.
unfoldable pub advance : MiningJob → Option MiningJob
advance job =
    if ltb 0 job.hash_count
    then (if job.current_nonce == u512_max
        then none
        else some (record job { current_nonce = job.current_nonce + 1 }))
    else some job

-- After the hash of the current nonce, with the result of the check.
unfoldable pub settle : MiningJob → Bool → MiningJob
settle job valid =
    if valid
    then record job { status = completed }
    else (if job.current_nonce == job.nonce_end then record job { status = failed } else job)

module _ (hashes : Hashes) (fuel : ℕ) where
  unfoldable pub attempt : MiningJob → Option MiningJob
  unfolding settle
  attempt job =
      if ltb job.nonce_end job.current_nonce
      then some (record job { status = failed })
      else (is_valid_nonce hashes fuel job.header_hash job.current_nonce job.distance_threshold
          >>= λ valid.
              some (settle (record job { hash_count = (job.hash_count + 1) % 2 ^ 64 }) valid))

  unfoldable pub mine_as : JobStatus → MiningJob → Option MiningJob
  unfolding advance attempt
  mine_as running job = advance job >>= attempt
  mine_as completed job = some job
  mine_as failed job = some job

  -- The body of the loop, on one job.
  unfoldable pub mine : MiningJob → Option MiningJob
  unfolding mine_as
  mine job = mine_as job.status job

  -- So many rounds of the loop, on one job.
  unfoldable pub mine_rounds : ℕ → MiningJob → Option MiningJob
  unfolding mine
  mine_rounds zero job = some job
  mine_rounds (suc n) job = mine job >>= mine_rounds n
