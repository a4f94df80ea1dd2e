-- ===== src/Miner/Rounds.antt =====
-- The rounds of the mining loop over one job (external-miner/src/lib.rs).
use native.Mathlib.Nat.{le_refl}
use chain_testing.Prelude.{
  dec_lt, ℕ, zero, suc, ◌+◌, ◌-◌, ◌%◌, ◌^◌, ◌≤◌, ◌<◌, ◌≡◌, ◌≢◌, ◌∙◌, refl, sym, ap, some, Bool,
  true, false, ◌==◌, ==_false, ltb-false, lt→ltb, arith,
}
use chain_testing.Prelude.Panic.{◌>>=◌}
use chain_testing.Prelude.Uint.{u512_max}
use chain_testing.QpowMath.Nonce.{Hashes, is_valid_nonce}
use chain_testing.Miner.Job.{
  JobStatus, running, completed, failed, MiningJob, new_job, advance, settle, attempt, mine_as,
  mine, mine_rounds,
}

-- A job in the middle of its search.
abbrev pub job_at : ℕ → ℕ → ℕ → ℕ → ℕ → JobStatus → ℕ → MiningJob
job_at h t a b n st count = record {
  header_hash = h;
  distance_threshold = t;
  nonce_start = a;
  nonce_end = b;
  current_nonce = n;
  status = st;
  hash_count = count;
}

abbrev pub outcome : Bool → JobStatus
outcome true = completed
outcome false = failed

last_of : (x b : ℕ) → x ≡ b → (x == b) ≡ true
last_of x b e = ground arith

less_ne : (x b : ℕ) → x < b → x ≢ b
less_ne x b l = omega arith

module _ (hashes : Hashes) (fuel : ℕ) (h t a b : ℕ) where
  -- A job that has ended stays as it is.
  ended :
      (n : ℕ) (hit : Bool) (x c : ℕ)
      → mine_rounds hashes fuel n (job_at h t a b x (outcome hit) c)
        ≡ some (job_at h t a b x (outcome hit) c)
  unfolding mine_rounds mine mine_as
  ended zero hit x c = refl
  ended (suc n) true x c = ended n true x c
  ended (suc n) false x c = ended n false x c

  attempt-hit :
      (x c : ℕ) (hit : Bool)
      → x ≤ b
      → suc c < 2 ^ 64
      → (hit ≡ false → x ≡ b)
      → is_valid_nonce hashes fuel h x t ≡ some hit
      → attempt hashes fuel (job_at h t a b x running c)
        ≡ some (job_at h t a b x (outcome hit) (suc c))
  unfolding attempt settle
  attempt-hit x c true le small last v =
      let wrap : (c + 1) % 2 ^ 64 ≡ suc c = omega arith in rw (ltb-false b x le, v, wrap)
  attempt-hit x c false le small last v =
      let wrap : (c + 1) % 2 ^ 64 ≡ suc c = omega arith in
      let end : (x == b) ≡ true = last_of x b (last refl) in rw (ltb-false b x le, v, end, wrap)

  attempt-miss :
      (x c : ℕ)
      → x < b
      → suc c < 2 ^ 64
      → is_valid_nonce hashes fuel h x t ≡ some false
      → attempt hashes fuel (job_at h t a b x running c) ≡ some (job_at h t a b x running (suc c))
  unfolding attempt settle
  attempt-miss x c less small v =
      let wrap : (c + 1) % 2 ^ 64 ≡ suc c = omega arith in
      let more : (x == b) ≡ false = ==_false x b (less_ne x b less) in
      rw (ltb-false b x (omega arith), v, more, wrap)

  -- The next nonce is looked at.
  next_lem :
      (x c : ℕ)
      → x < b
      → b ≤ u512_max
      → mine hashes fuel (job_at h t a b x running (suc c))
        ≡ attempt hashes fuel (job_at h t a b (suc x) running (suc c))
  unfolding mine mine_as advance
  next_lem x c less fits =
      let next : x + 1 ≡ suc x = omega arith in
      rw (
        lt→ltb 0 (suc c) (omega arith),
        ==_false x u512_max (less_ne x u512_max (omega arith)),
        next,
      )

  step :
      (n : ℕ) (job job' : MiningJob)
      → mine hashes fuel job ≡ some job'
      → mine_rounds hashes fuel (suc n) job ≡ mine_rounds hashes fuel n job'
  unfolding mine_rounds
  step n job job' e = ap (λ r. r >>= mine_rounds hashes fuel n) e

  rounds_from :
      (k n x c y d : ℕ) (hit : Bool)
      → suc (x + k) ≡ y
      → suc (suc c + k) ≡ d
      → ((z : ℕ) → x < z → z < y → is_valid_nonce hashes fuel h z t ≡ some false)
      → is_valid_nonce hashes fuel h y t ≡ some hit
      → y ≤ b
      → (hit ≡ false → y ≡ b)
      → b ≤ u512_max
      → d < 2 ^ 64
      → k < n
      → mine_rounds hashes fuel n (job_at h t a b x running (suc c))
        ≡ some (job_at h t a b y (outcome hit) d)
  rounds_from k zero x c y d hit at_y at_d before v le last fits small enough = absurd (omega arith)
  rounds_from zero (suc n) x c y d hit at_y at_d before v le last fits small enough =
      let ey : y ≡ suc x = omega arith in
      let ed : d ≡ suc (suc c) = omega arith in
      let hit' =
        attempt-hit (suc x) (suc c) hit (omega arith) (omega arith) (λ e. sym ey ∙ last e)
          (rw (← ey) v) in
      rw (ey, ed)
        (step n _ _ (next_lem x c (omega arith) fits ∙ hit') ∙ ended n hit (suc x) (suc (suc c)))
  rounds_from (suc k) (suc n) x c y d hit at_y at_d before v le last fits small enough =
      let miss =
        attempt-miss (suc x) (suc c) (omega arith) (omega arith)
          (before (suc x) (omega arith) (omega arith)) in
      step n _ _ (next_lem x c (omega arith) fits ∙ miss)
      ∙ rounds_from k n (suc x) (suc c) y d hit (omega arith) (omega arith)
          (λ z gt lt. before z (omega arith) lt) v le last fits small (omega arith)

  -- The first nonce of a job is looked at as it is.
  first_lem :
      mine hashes fuel (job_at h t a b a running 0)
      ≡ attempt hashes fuel (job_at h t a b a running 0)
  unfolding mine mine_as advance
  first_lem = refl

  -- In a range of 512-bit nonces, let y be the first valid one, or the last one if none is valid,
  -- after fewer than 2 ^ 64 - 1 others. A new job ends in one round for each nonce up to y:
  -- completed at y, or failed, with each nonce counted. It stays so in further rounds.
  pub mine_rounds-ends :
      (n y : ℕ) (hit : Bool)
      → a ≤ y
      → ((z : ℕ) → a ≤ z → z < y → is_valid_nonce hashes fuel h z t ≡ some false)
      → is_valid_nonce hashes fuel h y t ≡ some hit
      → y ≤ b
      → (hit ≡ false → y ≡ b)
      → b ≤ u512_max
      → suc (y - a) < 2 ^ 64
      → y - a < n
      → mine_rounds hashes fuel n (new_job h t a b)
        ≡ some (job_at h t a b y (outcome hit) (suc (y - a)))
  mine_rounds-ends zero y hit ge before v le last fits small enough = absurd (omega arith)
  mine_rounds-ends (suc n) y hit ge before v le last fits small enough = elim (dec_lt a y) [
    | yes lt ↦
        let miss = attempt-miss a 0 (omega arith) (omega arith) (before a (le_refl _) lt) in
        step n _ _ (first_lem ∙ miss)
        ∙ rounds_from (y - suc a) n a 0 y (suc (y - a)) hit (omega arith) (omega arith)
            (λ z gt l. before z (omega arith) l) v le last fits small (omega arith)
    | no nlt ↦
        let ey : y ≡ a = omega arith in
        let ed : suc (y - a) ≡ 1 = omega arith in
        let hit' =
          attempt-hit a 0 hit (omega arith) (omega arith) (λ e. sym ey ∙ last e) (rw (← ey) v) in
        rw (ed, ey) (step n _ _ (first_lem ∙ hit') ∙ ended n hit a 1)
  ]
