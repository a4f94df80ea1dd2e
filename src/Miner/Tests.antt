-- ===== src/Miner/Tests.antt =====
-- The theorems on the miner at concrete jobs, requests and runs.
use chain_testing.Prelude.{
  ℕ, zero, suc, ◌+◌, ◌-◌, ◌≤◌, ◌<◌, ◌≡◌, inl, inr, refl, ap, [], ◌∷◌, sum, length, min, Option,
  none, some, some_eq, Bool, Bool-cases, true, false, ◌==◌, ==→eq, if◌then◌else◌, arith,
}
use chain_testing.Prelude.Uint.{u512_max}
use chain_testing.QpowMath.Nonce.{Hashes, is_valid_nonce}
use chain_testing.QpowMath.Power.{mod_pow, hash_to_group_bigint}
use chain_testing.QpowMath.Coprime.{is_coprime}
use chain_testing.QpowMath.Prime.{is_prime}
use chain_testing.Miner.Job.{
  MiningJob, JobStatus, new_job, mine, mine_rounds, completed, running, failed,
}
use chain_testing.Miner.Service.{
  Text, Parsers, MiningRequest, accepted, is_failed, Jobs, get_job, mine_all, handle_mine_request,
  handle_result_request,
}
use chain_testing.Miner.Search.{verdict}
use chain_testing.Miner.Rounds.{job_at, outcome, mine_rounds-ends}
use chain_testing.Miner.Requests.{IsParsers}
use chain_testing.Miner.Reach.{
  Reachable, start, request, round, handle_result_request-work, handle_result_request-failed,
}

-- The modulus is 25 for every header.
abbrev hashes : Hashes
hashes = record {
  sha256 = λ _. 4;
  sha3_header = λ h. 25;
  sha3_512 = λ x. x + 1;
  sha3_base = λ n k. n + k;
}

abbrev verdict_of : ℕ → ℕ → Option Bool
verdict_of threshold nonce = is_valid_nonce hashes 1 5 nonce threshold

invalid_0 : verdict_of 100 0 ≡ some false
unfolding is_valid_nonce is_prime is_coprime mod_pow hash_to_group_bigint
invalid_0 = refl

valid_1 : verdict_of 100 1 ≡ some true
unfolding is_valid_nonce is_prime is_coprime mod_pow hash_to_group_bigint
valid_1 = refl

mine_rounds-ends_example :
    mine_rounds hashes 1 2 (new_job 5 100 0 1)
    ≡ some (job_at 5 100 0 1 1 (outcome true) (suc (1 - 0)))
mine_rounds-ends_example =
    mine_rounds-ends hashes 1 5 100 0 1 2 1 true (omega arith)
      (λ z ge lt. let first : z ≡ 0 = omega arith in rw first invalid_0) valid_1 (omega arith)
      (λ e. refl) (omega arith) (omega arith) (omega arith)

bytes_of :
    (l n v w : ℕ)
    → (l == 64) ≡ true
    → ◌≡◌ {A = Option (ℕ × ℕ)} (some (32, w)) (some (n, v))
    → n + n ≡ l
bytes_of l n v w whole e =
    let m : 32 ≡ n = ap (λ (p : ℕ × ℕ). p.0) (some_eq e) in
    let k : l ≡ 64 = ==→eq l 64 whole in omega arith

no_bytes : {p : ℕ × ℕ} → none ≡ some p → ⊥
no_bytes e = cc

-- A text with its first digit last.
abbrev digits : ℕ → ℕ → Text
digits zero last = last ∷ []
digits (suc n) last = 0 ∷ digits n last

abbrev parsers : Parsers
parsers = record {
  hex_decode = λ s. if length s == 64 then some (32, sum s) else none;
  from_dec_str = λ s. some (sum s);
  from_hex_str = λ s. some (min (sum s) u512_max);
}

parsers-IsParsers : IsParsers parsers
parsers-IsParsers = record {
  bytes = λ s n v e. elim (Bool-cases (length s == 64)) [
    | inl whole ↦ bytes_of (length s) n v (sum s) whole (rw whole at e)
    | inr other ↦ absurd (no_bytes (rw other at e))
  ];
  fits = λ s v e. rw (← some_eq e) (omega arith);
}

abbrev body : ℕ → MiningRequest
body threshold = record {
  job_id = 7;
  mining_hash = digits 63 5;
  distance_threshold = digits 2 threshold;
  nonce_start = digits 127 0;
  nonce_end = digits 127 1;
}

abbrev jobs_after : ℕ → JobStatus → ℕ → ℕ → Jobs
jobs_after threshold st nonce count = (7, job_at 5 threshold 0 1 nonce st count) ∷ []

first_round : mine_all hashes 1 (jobs_after 100 running 0 0) ≡ some (jobs_after 100 running 0 1)
unfolding mine_all mine is_valid_nonce is_prime is_coprime mod_pow hash_to_group_bigint
first_round = refl

second_round : mine_all hashes 1 (jobs_after 100 running 0 1) ≡ some (jobs_after 100 completed 1 2)
unfolding mine_all mine is_valid_nonce is_prime is_coprime mod_pow hash_to_group_bigint
second_round = refl

added_100 :
    handle_mine_request parsers (body 100) [] ≡ some ((accepted, none), jobs_after 100 running 0 0)
unfolding handle_mine_request
added_100 = refl

added_0 :
    handle_mine_request parsers (body 0) [] ≡ some ((accepted, none), jobs_after 0 running 0 0)
unfolding handle_mine_request
added_0 = refl

first_round_0 : mine_all hashes 1 (jobs_after 0 running 0 0) ≡ some (jobs_after 0 running 0 1)
unfolding mine_all mine is_valid_nonce is_prime is_coprime mod_pow hash_to_group_bigint
first_round_0 = refl

second_round_0 : mine_all hashes 1 (jobs_after 0 running 0 1) ≡ some (jobs_after 0 failed 1 2)
unfolding mine_all mine is_valid_nonce is_prime is_coprime mod_pow hash_to_group_bigint
second_round_0 = refl

-- A request is added, and two rounds end its job.
reach_100 : Reachable hashes 1 parsers (jobs_after 100 completed 1 2)
reach_100 = round (round (request start (body 100) added_100) first_round) second_round

reach_0 : Reachable hashes 1 parsers (jobs_after 0 failed 1 2)
reach_0 = round (round (request start (body 0) added_0) first_round_0) second_round_0

reported_work : (handle_result_request 7 (jobs_after 100 completed 1 2)).work ≡ some 1
unfolding handle_result_request
reported_work = refl

reported_failed : (handle_result_request 7 (jobs_after 0 failed 1 2)).api ≡ is_failed
unfolding handle_result_request
reported_failed = refl

handle_result_request-work_example :
    (job : MiningJob) × (get_job 7 (jobs_after 100 completed 1 2) ≡ some job)
    × (job.nonce_start ≤ 1)
    × (1 ≤ job.nonce_end)
    × (verdict hashes 1 job 1 ≡ some true)
    × ((n : ℕ) → job.nonce_start ≤ n → n < 1 → verdict hashes 1 job n ≡ some false)
handle_result_request-work_example =
    handle_result_request-work hashes 1 parsers parsers-IsParsers 7 1 reach_100 reported_work

handle_result_request-failed_example :
    (job : MiningJob) × (get_job 7 (jobs_after 0 failed 1 2) ≡ some job)
    × ((n : ℕ) → job.nonce_start ≤ n → n ≤ job.nonce_end → verdict hashes 1 job n ≡ some false)
handle_result_request-failed_example =
    handle_result_request-failed hashes 1 parsers parsers-IsParsers 7 reach_0 reported_failed
