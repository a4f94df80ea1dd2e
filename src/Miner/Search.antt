-- ===== src/Miner/Search.antt =====
-- What the mining loop does to one job (external-miner/src/lib.rs).
use mathlib.Core.Path.{subst}
use native.Mathlib.Nat.{le_refl}
use chain_testing.Prelude.{
  ℕ, ◌+◌, ◌%◌, ◌^◌, ◌≤◌, ◌<◌, ◌≡◌, ◌≢◌, ◌∙◌, refl, sym, inl, inr, Option, some, some_eq, Bool, true,
  false, Bool-cases, ltb, ◌==◌, ==→eq, ==_false, ltb-false, ltb→lt, arith,
}
use chain_testing.Prelude.Panic.{◌>>=◌, >>=-eq-some}
use chain_testing.Prelude.Uint.{u512_max}
use chain_testing.QpowMath.Nonce.{Hashes, is_valid_nonce}
use chain_testing.Miner.Job.{
  JobStatus, running, completed, failed, MiningJob, new_job, advance, settle, attempt, mine_as,
  mine,
}

less_of : (a b : ℕ) → a ≤ b → (a == b) ≡ false → a < b
less_of a b h e = ground arith

not_top : (a b c : ℕ) → a < b → b ≤ c → a ≢ c
not_top a b c l h = omega arith

module _ (hashes : Hashes) (fuel : ℕ) where
  -- The verdict on a nonce, for the task of a job.
  abbrev pub verdict : MiningJob → ℕ → Option Bool
  verdict job n = is_valid_nonce hashes fuel job.header_hash n job.distance_threshold

  -- What the state of a job says of its current nonce.
  abbrev pub IsState : JobStatus → MiningJob → Type 0
  IsState running job =
      0 < job.hash_count
      → (job.current_nonce < job.nonce_end) × (verdict job job.current_nonce ≡ some false)
  IsState completed job = verdict job job.current_nonce ≡ some true
  IsState failed job =
      (job.current_nonce ≡ job.nonce_end) × (verdict job job.current_nonce ≡ some false)

  -- The current nonce is in the range, and every nonce below it was found invalid.
  pub record IsRange (job : MiningJob) : Type 0 where
    pub from : job.nonce_start ≤ job.current_nonce
    pub to : job.current_nonce ≤ job.nonce_end
    pub fits : job.nonce_end ≤ u512_max
    pub below : (n : ℕ) → job.nonce_start ≤ n → n < job.current_nonce → verdict job n ≡ some false

  pub record IsSearch (job : MiningJob) : Type 0 where
    pub range : IsRange job
    pub state : IsState job.status job

  settle-IsSearch :
      (job : MiningJob) (valid : Bool)
      → job.status ≡ running
      → IsRange job
      → verdict job job.current_nonce ≡ some valid
      → IsSearch (settle job valid)
  unfolding settle
  settle-IsSearch job true e range v = record {
    range = record { from = range.from; to = range.to; fits = range.fits; below = range.below };
    state = v;
  }
  settle-IsSearch job false e range v = elim (Bool-cases (job.current_nonce == job.nonce_end)) [
    | inl last ↦ rw last (record {
      range = record { from = range.from; to = range.to; fits = range.fits; below = range.below };
      state = (==→eq _ _ last, v);
    })
    | inr more ↦
        let to = range.to in
        let less : job.current_nonce < job.nonce_end = less_of _ _ to more in
        rw more
          (record { range = range; state = subst (λ st. IsState st job) (sym e) (λ _. (less, v)) })
  ]

  attempt-IsSearch :
      (job : MiningJob) {job' : MiningJob}
      → job.status ≡ running
      → IsRange job
      → attempt hashes fuel job ≡ some job'
      → IsSearch job'
  unfolding attempt
  attempt-IsSearch job {job'} st range e =
      let inside : ltb job.nonce_end job.current_nonce ≡ false = ltb-false _ _ range.to in
      let (valid, v, r) = >>=-eq-some (verdict job job.current_nonce) _ (rw inside at e) in
      rw (← some_eq r) (
        settle-IsSearch (record job { hash_count = (job.hash_count + 1) % 2 ^ 64 }) valid st
          (record { from = range.from; to = range.to; fits = range.fits; below = range.below }) v)

  advance-IsRange :
      (job : MiningJob)
      → IsRange job
      → IsState running job
      → (job' : MiningJob) × (advance job ≡ some job')
        × IsRange job'
        × (job'.status ≡ job.status)
        × (verdict job' job'.current_nonce ≡ verdict job job'.current_nonce)
        × (job.nonce_start ≤ job'.current_nonce)
        × (job'.current_nonce ≤ job.nonce_end)
  unfolding advance
  advance-IsRange job range state = elim (Bool-cases (ltb 0 job.hash_count)) [
    | inr first ↦ (job, rw first, range, refl, refl, range.from, range.to)
    | inl next ↦
        let (less, bad) = state (ltb→lt _ _ next) in
        let fits = range.fits in
        let from = range.from in
        let room : job.current_nonce ≢ u512_max = not_top _ _ _ less fits in
        (
          record job { current_nonce = job.current_nonce + 1 },
          rw (next, ==_false job.current_nonce u512_max room),
          record {
            from = omega arith;
            to = omega arith;
            fits = fits;
            below = λ n le lt. elim (Bool-cases (n == job.current_nonce)) [
              | inl same ↦ rw (==→eq _ _ same) bad
              | inr other ↦ range.below n le (less_of n job.current_nonce (omega arith) other)
            ];
          },
          refl,
          refl,
          omega arith,
          omega arith,
        )
  ]

  mine_as-IsSearch :
      (st : JobStatus) (job : MiningJob) {job' : MiningJob}
      → job.status ≡ st
      → IsRange job
      → IsState st job
      → mine_as hashes fuel st job ≡ some job'
      → IsSearch job'
  unfolding mine_as
  mine_as-IsSearch running job e range state r =
      let (next, a, range', same, _, _, _) = advance-IsRange job range state in
      attempt-IsSearch next (same ∙ e) range' (rw (a, ◌>>=◌) at r)
  mine_as-IsSearch completed job e range state r =
      rw (← some_eq r)
        (record { range = range; state = subst (λ st. IsState st job) (sym e) state })
  mine_as-IsSearch failed job e range state r =
      rw (← some_eq r)
        (record { range = range; state = subst (λ st. IsState st job) (sym e) state })

  pub mine-IsSearch :
      (job : MiningJob) {job' : MiningJob}
      → IsSearch job
      → mine hashes fuel job ≡ some job'
      → IsSearch job'
  unfolding mine
  mine-IsSearch job search r = mine_as-IsSearch job.status job refl search.range search.state r

  -- A job that is added has looked at no nonce.
  pub new_job-IsSearch :
      (h t from to : ℕ) → from ≤ to → to ≤ u512_max → IsSearch (new_job h t from to)
  new_job-IsSearch h t from to le fits = record {
    range = record {
      from = le_refl _;
      to = le;
      fits = fits;
      below = λ n a b. absurd (omega arith);
    };
    state = λ c. absurd (omega arith);
  }

  attempt-returns :
      (job : MiningJob) {v : Bool}
      → job.current_nonce ≤ job.nonce_end
      → verdict job job.current_nonce ≡ some v
      → (job' : MiningJob) × (attempt hashes fuel job ≡ some job')
  unfolding attempt
  attempt-returns job {v} to e = (
    settle (record job { hash_count = (job.hash_count + 1) % 2 ^ 64 }) v,
    rw (ltb-false job.nonce_end job.current_nonce to, e),
  )

  mine_as-returns :
      (st : JobStatus) (job : MiningJob)
      → IsRange job
      → IsState st job
      → ((n : ℕ) → job.nonce_start ≤ n → n ≤ job.nonce_end → (v : Bool) × (verdict job n ≡ some v))
      → (job' : MiningJob) × (mine_as hashes fuel st job ≡ some job')
  unfolding mine_as attempt
  mine_as-returns running job range state total =
      let (next, a, range', same, task, from, to) = advance-IsRange job range state in
      let (valid, v) = total next.current_nonce from to in
      let (job', e) = attempt-returns next range'.to (task ∙ v) in (job', rw (a, ◌>>=◌) e)
  mine_as-returns completed job range state total = (job, refl)
  mine_as-returns failed job range state total = (job, refl)

  -- A round on a job that is a search does not panic, and leaves a search, if the check of every
  -- nonce in its range returns.
  pub mine-returns :
      (job : MiningJob)
      → IsSearch job
      → ((n : ℕ) → job.nonce_start ≤ n → n ≤ job.nonce_end → (v : Bool) × (verdict job n ≡ some v))
      → (job' : MiningJob) × (mine hashes fuel job ≡ some job') × IsSearch job'
  unfolding mine
  mine-returns job search total =
      let (job', e) = mine_as-returns job.status job search.range search.state total in
      (job', e, mine-IsSearch job search e)
