-- ===== src/Miner/Reach.antt =====
-- The jobs of the miner over its whole run: requests, cancellations and rounds of the mining loop
-- in any order (external-miner/src/lib.rs).
use mathlib.Core.Path.{subst}
use chain_testing.Prelude.{
  ℕ, ◌≤◌, ◌<◌, ◌≡◌, ◌∙◌, refl, sym, ap, inl, inr, [], ◌∷◌, All, Option, none, some, some_eq, true,
  false, Bool-cases, ◌==◌, ==→eq, arith,
}
use chain_testing.Prelude.Panic.{>>=-eq-some}
use chain_testing.QpowMath.Nonce.{Hashes}
use chain_testing.Miner.Job.{JobStatus, running, completed, failed, MiningJob, mine}
use chain_testing.Miner.Service.{
  Parsers, MiningRequest, ApiStatus, is_failed, api_status, work_of, report, Refusal, Jobs, get_job,
  remove_job, mine_all, handle_mine_request, handle_result_request, handle_cancel_request,
}
use chain_testing.Miner.Search.{verdict, IsState, IsSearch, mine-IsSearch, new_job-IsSearch}
use chain_testing.Miner.Requests.{IsParsers, handle_mine_request-adds}

before_of : (a b : ℕ) → a ≤ b → (a == b) ≡ false → a < b
before_of a b h e = ground arith

report-work :
    (o : Option MiningJob) {nonce : ℕ}
    → (report o).work ≡ some nonce
    → (job : MiningJob) × (o ≡ some job) × (work_of job.status job.current_nonce ≡ some nonce)
report-work none e = absurd cc
report-work (some job) e = (job, refl, e)

failed_of : (st : JobStatus) → api_status st ≡ is_failed → st ≡ failed
failed_of running e = absurd cc
failed_of completed e = absurd cc
failed_of failed e = refl

report-failed :
    (o : Option MiningJob)
    → (report o).api ≡ is_failed
    → (job : MiningJob) × (o ≡ some job) × (job.status ≡ failed)
report-failed none e = absurd cc
report-failed (some job) e = (job, refl, failed_of job.status e)

module _ (hashes : Hashes) (fuel : ℕ) (parsers : Parsers) where
  -- The jobs that a run of the miner can have.
  pub data Reachable : Jobs → Type 0 where
    start : Reachable []
    request :
        {jobs jobs' : Jobs} {reply : ApiStatus × Option Refusal}
        → Reachable jobs
        → (body : MiningRequest) → handle_mine_request parsers body jobs ≡ some (reply, jobs')
        → Reachable jobs'
    cancel : {jobs : Jobs} → Reachable jobs → (id : ℕ) → Reachable (handle_cancel_request id jobs).1
    round :
        {jobs jobs' : Jobs}
        → Reachable jobs
        → mine_all hashes fuel jobs ≡ some jobs'
        → Reachable jobs'

  abbrev pub AllSearch : Jobs → Type 0
  AllSearch jobs = All (λ entry. IsSearch hashes fuel entry.1) jobs

  remove_job-AllSearch : (id : ℕ) (jobs : Jobs) → AllSearch jobs → AllSearch (remove_job id jobs)
  unfolding remove_job
  remove_job-AllSearch id [] all = all
  remove_job-AllSearch id ((key, job) ∷ jobs) (one, all) =
      let rest = remove_job-AllSearch id jobs all in
      elim (Bool-cases (key == id)) [ inl same ↦ rw same rest | inr other ↦ rw other (one, rest) ]

  mine_all-AllSearch :
      (jobs : Jobs) {jobs' : Jobs}
      → AllSearch jobs
      → mine_all hashes fuel jobs ≡ some jobs'
      → AllSearch jobs'
  unfolding mine_all
  mine_all-AllSearch [] all e = rw (← some_eq e) tt
  mine_all-AllSearch ((key, job) ∷ jobs) (one, all) e =
      let (job', m, r) = >>=-eq-some (mine hashes fuel job) _ e in
      let (jobs'', ms, s) = >>=-eq-some (mine_all hashes fuel jobs) _ r in
      rw (← some_eq s) (mine-IsSearch hashes fuel job one m, mine_all-AllSearch jobs all ms)

  handle_mine_request-AllSearch :
      (body : MiningRequest) (jobs : Jobs) {jobs' : Jobs} {reply : ApiStatus × Option Refusal}
      → IsParsers parsers
      → AllSearch jobs
      → handle_mine_request parsers body jobs ≡ some (reply, jobs')
      → AllSearch jobs'
  handle_mine_request-AllSearch body jobs laws all e =
      elim (handle_mine_request-adds parsers body jobs laws) [
        | inl (refusal, r) ↦
            subst AllSearch
              (ap (λ (t : (ApiStatus × Option Refusal) × Jobs). t.1) (some_eq (sym r ∙ e))) all
        | inr (hash, threshold, from, to, r, _, _, p, fits) ↦
            subst AllSearch
              (ap (λ (t : (ApiStatus × Option Refusal) × Jobs). t.1) (some_eq (sym r ∙ e)))
              (new_job-IsSearch hashes fuel hash threshold from to p.ordered fits, all)
      ]

  -- For parsers as `IsParsers` says: after any requests, cancellations and rounds of the mining
  -- loop, every job is a search: its current nonce is in its range, which ends at 512 bits, all
  -- the nonces below it are invalid, and its state says whether it is valid.
  pub reachable-IsSearch : IsParsers parsers → {jobs : Jobs} → Reachable jobs → AllSearch jobs
  unfolding handle_cancel_request
  reachable-IsSearch laws start = tt
  reachable-IsSearch laws (request {jobs} before body e) =
      handle_mine_request-AllSearch body jobs laws (reachable-IsSearch laws before) e
  reachable-IsSearch laws (cancel {jobs} before id) =
      remove_job-AllSearch id jobs (reachable-IsSearch laws before)
  reachable-IsSearch laws (round {jobs} before e) =
      mine_all-AllSearch jobs (reachable-IsSearch laws before) e

  get_job-AllSearch :
      (id : ℕ) (jobs : Jobs) {job : MiningJob}
      → AllSearch jobs
      → get_job id jobs ≡ some job
      → IsSearch hashes fuel job
  unfolding get_job
  get_job-AllSearch id [] all e = absurd cc
  get_job-AllSearch id ((key, job) ∷ jobs) (one, all) e = elim (Bool-cases (key == id)) [
    | inl same ↦ rw (← some_eq (rw same at e)) one
    | inr other ↦ get_job-AllSearch id jobs all (rw other at e)
  ]

  work_of-some :
      (st : JobStatus) (job : MiningJob) {nonce : ℕ}
      → work_of st job.current_nonce ≡ some nonce
      → IsState hashes fuel st job
      → (job.current_nonce ≡ nonce) × (verdict hashes fuel job nonce ≡ some true)
  work_of-some running job e state = absurd cc
  work_of-some completed job e state =
      let same = some_eq e in (same, subst (λ n. verdict hashes fuel job n ≡ some true) same state)
  work_of-some failed job e state = absurd cc

  -- For parsers as `IsParsers` says: after any requests, cancellations and rounds of the mining
  -- loop, the work that is reported for a job's name is the first valid nonce in the range of the
  -- job of that name.
  pub handle_result_request-work :
      IsParsers parsers
      → (id nonce : ℕ) {jobs : Jobs} → Reachable jobs
      → (handle_result_request id jobs).work ≡ some nonce
      → (job : MiningJob) × (get_job id jobs ≡ some job)
        × (job.nonce_start ≤ nonce)
        × (nonce ≤ job.nonce_end)
        × (verdict hashes fuel job nonce ≡ some true)
        × ((n : ℕ) → job.nonce_start ≤ n → n < nonce → verdict hashes fuel job n ≡ some false)
  unfolding handle_result_request
  handle_result_request-work laws id nonce {jobs} reach e =
      let (job, found, work) = report-work (get_job id jobs) e in
      let search = get_job-AllSearch id jobs (reachable-IsSearch laws reach) found in
      let (same, valid) = work_of-some job.status job work search.state in
      let range = search.range in
      let from = range.from in
      let to = range.to in
      (job, found, omega arith, omega arith, valid, λ n ge lt. range.below n ge (omega arith))

  -- For parsers as `IsParsers` says: after any requests, cancellations and rounds of the mining
  -- loop, a job that is reported as failed has no valid nonce in its range.
  pub handle_result_request-failed :
      IsParsers parsers
      → (id : ℕ) {jobs : Jobs} → Reachable jobs
      → (handle_result_request id jobs).api ≡ is_failed
      → (job : MiningJob) × (get_job id jobs ≡ some job)
        × ((n : ℕ)
            → job.nonce_start ≤ n
            → n ≤ job.nonce_end
            → verdict hashes fuel job n ≡ some false)
  unfolding handle_result_request
  handle_result_request-failed laws id {jobs} reach e =
      let (job, found, st) = report-failed (get_job id jobs) e in
      let search = get_job-AllSearch id jobs (reachable-IsSearch laws reach) found in
      let (last, bad) = subst (λ s. IsState hashes fuel s job) st search.state in
      (
        job,
        found,
        λ n ge le. elim (Bool-cases (n == job.current_nonce)) [
          | inl same ↦
              subst (λ k. verdict hashes fuel job k ≡ some false) (sym (==→eq _ _ same)) bad
          | inr other ↦ search.range.below n ge (before_of n job.current_nonce (omega arith) other)
        ],
      )
