-- ===== src/Node/External.antt =====
-- The node's requests to the external miner (node/src/external_miner_client.rs). A response is what
-- arrives of the miner's reply, and `none` if nothing arrives that can be read.
use chain_testing.Prelude.{ℕ, Option, none, some, Bool, true, false, ◌==◌, if◌then◌else◌}
use chain_testing.Miner.Service.{
  Text, MiningRequest, ApiStatus, accepted, is_running, is_completed, is_failed, cancelled,
  not_found, refused, MiningResult,
}
use chain_testing.Node.Seal.{QpowSeal}

-- `hex::encode` of a hash of 32 bytes and of the 64 bytes of a work, the decimal form of a number,
-- and its form with 128 hexadecimal digits.
pub record Formats : Type 0 where
  pub hash_hex : ℕ → Text
  pub work_hex : ℕ → Text
  pub to_string : ℕ → Text
  pub nonce_hex : ℕ → Text

-- The request that `submit_mining_job` sends.
abbrev pub job_request : Formats → ℕ → ℕ → ℕ → ℕ → ℕ → MiningRequest
job_request formats job_id mining_hash distance_threshold nonce_start nonce_end = record {
  job_id = job_id;
  mining_hash = formats.hash_hex mining_hash;
  distance_threshold = formats.to_string distance_threshold;
  nonce_start = formats.nonce_hex nonce_start;
  nonce_end = formats.nonce_hex nonce_end;
}

-- Whether `submit_mining_job` and `cancel_mining_job` succeed, by the status in the response.
unfoldable pub submit_mining_job : Option ApiStatus → Bool
submit_mining_job (some accepted) = true
submit_mining_job _ = false

unfoldable pub cancel_mining_job : Option ApiStatus → Bool
cancel_mining_job (some cancelled) = true
cancel_mining_job (some not_found) = true
cancel_mining_job _ = false

-- The errors of `check_mining_result`.
pub data PollError : Type 0 where
  no_response bad_hex bad_length missing_work job_not_found : PollError
  job_failed job_cancelled unspecified unexpected_accepted : PollError

pub data Polled : Type 0 where
  found : QpowSeal → Polled
  still_working : Polled
  poll_failed : PollError → Polled

-- The result as it is sent: its status, and the text of its work.
pub record WireResult : Type 0 where
  pub status : ApiStatus
  pub work : Option Text

-- `hex_decode` gives the number of bytes and the number that they spell.
module _ (hex_decode : Text → Option (ℕ × ℕ)) where
  abbrev pub decoded_seal : Option (ℕ × ℕ) → Polled
  decoded_seal none = poll_failed bad_hex
  decoded_seal (some (size, nonce)) =
      if size == 64 then found (record { nonce = nonce }) else poll_failed bad_length

  abbrev pub completed_seal : Option Text → Polled
  completed_seal none = poll_failed missing_work
  completed_seal (some work_hex) = decoded_seal (hex_decode work_hex)

  abbrev pub polled : ApiStatus → Option Text → Polled
  polled is_completed work = completed_seal work
  polled is_running work = still_working
  polled not_found work = poll_failed job_not_found
  polled is_failed work = poll_failed job_failed
  polled cancelled work = poll_failed job_cancelled
  polled refused work = poll_failed unspecified
  polled accepted work = poll_failed unexpected_accepted

  unfoldable pub check_mining_result : Option WireResult → Polled
  check_mining_result none = poll_failed no_response
  check_mining_result (some result) = polled result.status result.work

abbrev pub work_text : Formats → Option ℕ → Option Text
work_text formats none = none
work_text formats (some nonce) = some (formats.work_hex nonce)

-- What the miner sends of a result.
abbrev pub wire : Formats → MiningResult → WireResult
wire formats result = record { status = result.api; work = work_text formats result.work }
