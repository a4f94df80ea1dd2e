-- ===== src/Node/Tests.antt =====
-- The theorems on the node's mining at a concrete miner and state.
use chain_testing.Prelude.{
  ℕ, zero, suc, ◌+◌, ◌≡◌, ◌≢◌, ◌≤◌, ◌↔◌, refl, ap, inl, inr, List, [], ◌∷◌, Option, none, some,
  some_eq, Bool, Bool-cases, true, false, length, sum, min, ◌==◌, ==→eq, if◌then◌else◌, arith,
}
use chain_testing.Prelude.Uint.{u512_max}
use chain_testing.Qpow.Types.{Config, State}
use chain_testing.Qpow.Hooks.{empty_storage}
use chain_testing.Qpow.Threshold.{get_distance_threshold}
use chain_testing.QpowMath.Nonce.{Hashes, is_valid_nonce}
use chain_testing.QpowMath.Power.{mod_pow, hash_to_group_bigint}
use chain_testing.QpowMath.Coprime.{is_coprime}
use chain_testing.QpowMath.Prime.{is_prime}
use chain_testing.Miner.Job.{JobStatus, running, completed, mine}
use chain_testing.Miner.Service.{
  Text, Parsers, accepted, Jobs, mine_all, handle_mine_request, handle_result_request,
}
use chain_testing.Miner.Rounds.{job_at}
use chain_testing.Miner.Requests.{IsParsers}
use chain_testing.Miner.Reach
use chain_testing.Miner.Kept.{Later}
use chain_testing.Node.Seal.{encode, by_hash, by_number, panicked, Checked, verify, try_nonce}
use chain_testing.Node.Agree.{verify-panicked, try_nonce-verify}
use chain_testing.Node.Polling.{Poll, left, mine_externally, poll_rounds}
use chain_testing.Node.Submitted.{IsLeft, mine_externally-verify}
use chain_testing.Node.External.{
  submit_mining_job, Formats, job_request, found, check_mining_result, wire,
}
use chain_testing.Node.Mined.{IsFormats, check_mining_result-verify}

-- A text of zeros that ends in a number.
abbrev digits : ℕ → ℕ → Text
digits zero last = last ∷ []
digits (suc n) last = 0 ∷ digits n last

length-digits : (n last : ℕ) → length (digits n last) ≡ suc n
length-digits zero last = refl
length-digits (suc n) last = let rest = length-digits n last in omega arith

sum-digits : (n last : ℕ) → sum (digits n last) ≡ last
sum-digits zero last = omega arith
sum-digits (suc n) last = let rest = sum-digits n last in omega arith

abbrev hex_bytes : Text → Option (ℕ × ℕ)
hex_bytes s =
    if length s == 64
    then some (32, sum s)
    else (if length s == 128 then some (64, sum s) else none)

abbrev parsers : Parsers
parsers = record {
  hex_decode = hex_bytes;
  from_dec_str = λ s. some (sum s);
  from_hex_str = λ s. some (min (sum s) u512_max);
}

abbrev formats : Formats
formats = record {
  hash_hex = digits 63;
  work_hex = digits 127;
  to_string = digits 2;
  nonce_hex = digits 127;
}

bytes_of :
    (l size v k n w : ℕ)
    → (l == size) ≡ true
    → k + k ≡ size
    → ◌≡◌ {A = Option (ℕ × ℕ)} (some (k, w)) (some (n, v))
    → n + n ≡ l
bytes_of l size v k n w whole twice e =
    let m : k ≡ n = ap (λ (p : ℕ × ℕ). p.0) (some_eq e) in
    let j : l ≡ size = ==→eq l size whole in omega arith

no_bytes : {p : ℕ × ℕ} → none ≡ some p → ⊥
no_bytes e = cc

parsers-IsParsers : IsParsers parsers
parsers-IsParsers = record {
  bytes = λ s n v e. elim (Bool-cases (length s == 64)) [
    | inl whole ↦ bytes_of (length s) 64 v 32 n (sum s) whole refl (rw whole at e)
    | inr other ↦ elim (Bool-cases (length s == 128)) [
      | inl whole ↦ bytes_of (length s) 128 v 64 n (sum s) whole refl (rw (other, whole) at e)
      | inr another ↦ absurd (no_bytes (rw (other, another) at e))
    ]
  ];
  fits = λ s v e. rw (← some_eq e) (omega arith);
}

hash_bytes : (s : Text) (n : ℕ) → length s ≡ 64 → sum s ≡ n → hex_bytes s ≡ some (32, n)
hash_bytes s n h e = rw (h, e) refl

work_bytes : (s : Text) (n : ℕ) → length s ≡ 128 → sum s ≡ n → hex_bytes s ≡ some (64, n)
work_bytes s n h e = rw (h, e) refl

number : (s : Text) (n : ℕ) → sum s ≡ n → n ≤ u512_max → some (min (sum s) u512_max) ≡ some n
number s n e h = rw e (ap some (least n h))
  where
    least : (n : ℕ) → n ≤ u512_max → min n u512_max ≡ n
    least n h = omega arith

formats-IsFormats : IsFormats formats parsers
formats-IsFormats = record {
  hash_read = λ n h. hash_bytes (digits 63 n) n (length-digits 63 n) (sum-digits 63 n);
  work_read = λ n h. work_bytes (digits 127 n) n (length-digits 127 n) (sum-digits 127 n);
  string_read = λ n h. ap some (sum-digits 2 n);
  nonce_read = λ n h. number (digits 127 n) n (sum-digits 127 n) h;
}

abbrev hashes : Hashes
hashes = record {
  sha256 = λ _. 4;
  sha3_header = λ h. 25;
  sha3_512 = λ x. x + 1;
  sha3_base = λ n k. n + k;
}

abbrev verdict_of : Option Bool → Bool
verdict_of none = false
verdict_of (some b) = b

abbrev valid : ℕ → ℕ → ℕ → Bool
valid h n t = verdict_of (is_valid_nonce hashes 1 h n t)

abbrev config : Config
config = record {
  initial_distance_threshold_exponent = 150;
  difficulty_adjust_percent_clamp = 10;
  target_block_time = 1000;
  adjustment_period = 10;
  block_time_history_size = 3;
  max_reorg_depth = 10;
}

-- The state of every block has the threshold 100.
abbrev state : State
state = record empty_storage { current_distance_threshold = 100 }

abbrev runtime_at : ℕ → Option State
runtime_at hash = some state

abbrev short_seal : List ℕ
short_seal = 1 ∷ []

verify-panicked_example :
    (verify valid config runtime_at (by_number 3) 5 short_seal ≡ panicked)
    ↔ (length short_seal ≢ 64)
verify-panicked_example = verify-panicked valid config runtime_at (by_number 3) 5 short_seal

try_nonce-verify_example :
    (try_nonce valid config runtime_at 8 5 1 ≡ some (record { nonce = 1 })) ↔ (
      verify valid config runtime_at (by_hash 8) 5 (encode (record { nonce = 1 }))
      ≡ Checked.verdict true)
try_nonce-verify_example = try_nonce-verify valid config runtime_at 8 5 1 (omega arith)

abbrev jobs_after : JobStatus → ℕ → ℕ → Jobs
jobs_after st nonce count = (7, job_at 5 100 0 1 nonce st count) ∷ []

accepts :
    handle_mine_request parsers
      (job_request formats 7 5 (get_distance_threshold config state) 0 1)
      []
    ≡ some ((accepted, none), jobs_after running 0 0)
unfolding handle_mine_request get_distance_threshold
accepts = refl

first_round : mine_all hashes 1 (jobs_after running 0 0) ≡ some (jobs_after running 0 1)
unfolding mine_all mine is_valid_nonce is_prime is_coprime mod_pow hash_to_group_bigint
first_round = refl

second_round : mine_all hashes 1 (jobs_after running 0 1) ≡ some (jobs_after completed 1 2)
unfolding mine_all mine is_valid_nonce is_prime is_coprime mod_pow hash_to_group_bigint
second_round = refl

polled :
    check_mining_result parsers.hex_decode
      (some (wire formats (handle_result_request 7 (jobs_after completed 1 2))))
    ≡ found (record { nonce = 1 })
unfolding check_mining_result handle_result_request
polled = refl

small_threshold : get_distance_threshold config state ≤ u512_max
unfolding get_distance_threshold
small_threshold = omega arith

check_mining_result-verify_example :
    (0 ≤ 1)
    × (1 ≤ 1)
    × (verify valid config runtime_at (by_hash 8) 5 (encode (record { nonce = 1 }))
        ≡ Checked.verdict true)
check_mining_result-verify_example =
    check_mining_result-verify hashes 1 parsers formats valid config runtime_at 7 8 5 0 1 state
      (record { nonce = 1 }) (λ h n t b e. ap verdict_of e) parsers-IsParsers formats-IsFormats
      (omega arith) small_threshold (omega arith) (omega arith) refl Reach.start accepts
      (Later.round (Later.round Later.now first_round) second_round) polled

-- The same with the range of a round of the node, which polls before and after the two rounds of the
-- miner.
abbrev long_jobs : JobStatus → ℕ → ℕ → Jobs
long_jobs st nonce count = (7, job_at 5 100 0 u512_max nonce st count) ∷ []

accepts_long :
    handle_mine_request parsers
      (job_request formats 7 5 (get_distance_threshold config state) 0 u512_max)
      []
    ≡ some ((accepted, none), long_jobs running 0 0)
unfolding handle_mine_request get_distance_threshold
accepts_long = refl

first_long : mine_all hashes 1 (long_jobs running 0 0) ≡ some (long_jobs running 0 1)
unfolding mine_all mine is_valid_nonce is_prime is_coprime mod_pow hash_to_group_bigint
first_long = refl

second_long : mine_all hashes 1 (long_jobs running 0 1) ≡ some (long_jobs completed 1 2)
unfolding mine_all mine is_valid_nonce is_prime is_coprime mod_pow hash_to_group_bigint
second_long = refl

abbrev poll_of : Jobs → Poll
poll_of jobs = record {
  response = some (wire formats (handle_result_request 7 jobs));
  moved = false;
  stale = false;
}

abbrev polls : List Poll
polls = poll_of (long_jobs running 0 0) ∷ poll_of (long_jobs completed 1 2) ∷ []

-- The round submits the seal of nonce 1.
submits :
    mine_externally parsers.hex_decode
      (λ bytes. true)
      formats
      config
      runtime_at
      8
      7
      5
      0
      (λ request. some accepted)
      polls
    ≡ left (some (0, encode (record { nonce = 1 }) ∷ []))
unfolding mine_externally submit_mining_job poll_rounds check_mining_result handle_result_request
submits = refl

mine_externally-verify_example :
    IsLeft
      (λ bytes. true)
      (λ bytes. verify valid config runtime_at (by_hash 8) 5 bytes ≡ Checked.verdict true)
      (mine_externally parsers.hex_decode
        (λ bytes. true)
        formats
        config
        runtime_at
        8
        7
        5
        0
        (λ request. some accepted)
        polls)
mine_externally-verify_example =
    mine_externally-verify hashes 1 parsers formats valid config runtime_at (λ bytes. true)
      (λ request. some accepted) 7 8 5 0 state polls (λ h n t b e. ap verdict_of e)
      parsers-IsParsers formats-IsFormats (omega arith) small_threshold (omega arith) refl
      Reach.start accepts_long
      (
        inr (long_jobs running 0 0, Later.now, refl),
        (
          inr (
            long_jobs completed 1 2,
            Later.round (Later.round Later.now first_long) second_long,
            refl,
          ),
          tt,
        ),
      )
