-- ===== src/Miner/Service.antt =====
-- The jobs of the miner and the handlers of its requests (external-miner/src/lib.rs). A job's name
-- is a number for its text, 0 for the empty one; the other texts are lists of bytes. The parsers of
-- hex and decimal texts are parameters. `none` is a panic of an `unwrap` or an `expect`.
-- The HTTP status of a reply follows from its answer, and is left out.
use chain_testing.Prelude.{
  ℕ, List, [], ◌∷◌, length, Option, none, some, not, ◌||◌, is_some, ltb, ◌==◌, if◌then◌else◌,
}
use chain_testing.Prelude.Panic.{◌>>=◌}
use chain_testing.QpowMath.Nonce.{Hashes}
use chain_testing.Miner.Job.{MiningJob, JobStatus, running, completed, failed, new_job, mine}

abbrev pub Text : Type 0
Text = List ℕ

-- The bytes of a hex text, by their count and their big-endian number; a decimal 512-bit number;
-- a hexadecimal 512-bit number.
pub record Parsers : Type 0 where
  pub hex_decode : Text → Option (ℕ × ℕ)
  pub from_dec_str : Text → Option ℕ
  pub from_hex_str : Text → Option ℕ

pub record MiningRequest : Type 0 where
  pub job_id : ℕ
  pub mining_hash : Text
  pub distance_threshold : Text
  pub nonce_start : Text
  pub nonce_end : Text

-- The states of a job that are reported.
pub data ApiStatus : Type 0 where
  accepted is_running is_completed is_failed cancelled not_found refused : ApiStatus

-- The messages of an error.
pub data Refusal : Type 0 where
  empty_job_id invalid_mining_hash invalid_threshold invalid_start invalid_end : Refusal
  start_after_end job_exists : Refusal

-- The jobs, the ones added last first; a job's name stands once.
abbrev pub Jobs : Type 0
Jobs = List (ℕ × MiningJob)

unfoldable pub get_job : ℕ → Jobs → Option MiningJob
get_job id [] = none
get_job id ((key, job) ∷ jobs) = if key == id then some job else get_job id jobs

-- A job is added unless there is one of its name.
unfoldable pub add_job : ℕ → MiningJob → Jobs → Option Jobs
unfolding get_job
add_job id job jobs = if is_some (get_job id jobs) then none else some ((id, job) ∷ jobs)

unfoldable pub remove_job : ℕ → Jobs → Jobs
remove_job id [] = []
remove_job id ((key, job) ∷ jobs) =
    if key == id then remove_job id jobs else (key, job) ∷ remove_job id jobs

-- One round of the mining loop, over all jobs.
module _ (hashes : Hashes) (fuel : ℕ) where
  unfoldable pub mine_all : Jobs → Option Jobs
  mine_all [] = some []
  mine_all ((key, job) ∷ jobs) =
      mine hashes fuel job >>= λ job'. mine_all jobs >>= λ jobs'. some ((key, job') ∷ jobs')

-- The reply to a job that was to be added.
abbrev pub reply_added : Option Jobs → Jobs → (ApiStatus × Option Refusal) × Jobs
reply_added (some jobs') jobs = ((accepted, none), jobs')
reply_added none jobs = ((refused, some job_exists), jobs)

module _ (parsers : Parsers) where
  -- `unwrap` of both numbers, and their order; the reason for a refusal, if there is one.
  unfoldable pub check_range : MiningRequest → Option (Option Refusal)
  check_range request = parsers.from_hex_str request.nonce_start >>= λ from.
      parsers.from_hex_str request.nonce_end >>= λ to.
      some (if ltb to from then some start_after_end else none)

  unfoldable pub validate_mining_request : MiningRequest → Option (Option Refusal)
  unfolding check_range
  validate_mining_request request =
      if request.job_id == 0
      then some (some empty_job_id)
      else (if not (length request.mining_hash == 64)
            || not (is_some (parsers.hex_decode request.mining_hash))
          then some (some invalid_mining_hash)
          else (if not (is_some (parsers.from_dec_str request.distance_threshold))
              then some (some invalid_threshold)
              else (if not (length request.nonce_start == 128)
                    || not (is_some (parsers.from_hex_str request.nonce_start))
                  then some (some invalid_start)
                  else (if not (length request.nonce_end == 128)
                        || not (is_some (parsers.from_hex_str request.nonce_end))
                      then some (some invalid_end)
                      else check_range request))))

  -- The header hash, as 32 bytes, and the numbers of a valid request.
  unfoldable pub parse_job : MiningRequest → Option MiningJob
  parse_job request = parsers.hex_decode request.mining_hash >>= λ bytes.
      (if bytes.0 == 32 then some bytes.1 else none) >>= λ header_hash.
      parsers.from_dec_str request.distance_threshold >>= λ threshold.
      parsers.from_hex_str request.nonce_start >>= λ from.
      parsers.from_hex_str request.nonce_end >>= λ to. some (new_job header_hash threshold from to)

  -- The rest of the handler, after the validation.
  unfoldable pub reply_to :
      MiningRequest → Jobs → Option Refusal → Option ((ApiStatus × Option Refusal) × Jobs)
  unfolding parse_job add_job
  reply_to request jobs (some e) = some ((refused, some e), jobs)
  reply_to request jobs none =
      parse_job request >>= λ job. some (reply_added (add_job request.job_id job jobs) jobs)

  unfoldable pub handle_mine_request :
      MiningRequest → Jobs → Option ((ApiStatus × Option Refusal) × Jobs)
  unfolding validate_mining_request reply_to
  handle_mine_request request jobs = validate_mining_request request >>= reply_to request jobs

abbrev pub api_status : JobStatus → ApiStatus
api_status running = is_running
api_status completed = is_completed
api_status failed = is_failed

abbrev pub work_of : JobStatus → ℕ → Option ℕ
work_of completed nonce = some nonce
work_of running nonce = none
work_of failed nonce = none

pub record MiningResult : Type 0 where
  pub api : ApiStatus
  pub nonce : Option ℕ
  pub work : Option ℕ
  pub hash_count : ℕ

abbrev pub report : Option MiningJob → MiningResult
report none = record { api = not_found; nonce = none; work = none; hash_count = 0 }
report (some job) = record {
  api = api_status job.status;
  nonce = some job.current_nonce;
  work = work_of job.status job.current_nonce;
  hash_count = job.hash_count;
}

-- The result that is reported for a job's name, without its time.
unfoldable pub handle_result_request : ℕ → Jobs → MiningResult
unfolding get_job
handle_result_request id jobs = report (get_job id jobs)

unfoldable pub handle_cancel_request : ℕ → Jobs → ApiStatus × Jobs
unfolding get_job remove_job
handle_cancel_request id jobs =
    (if is_some (get_job id jobs) then cancelled else not_found, remove_job id jobs)
