-- ===== src/Miner/Kept.antt =====
-- A job keeps its task as long as it is not cancelled (external-miner/src/lib.rs).
use mathlib.Core.Path.{subst}
use chain_testing.Prelude.{
  ℕ, ◌+◌, ◌%◌, ◌^◌, ◌≡◌, ◌≢◌, ◌∙◌, refl, sym, ap, inl, inr, [], ◌∷◌, Option, none, some, some_eq,
  Bool, true, false, Bool-cases, ◌==◌, ==→eq, ==_false, ltb,
}
use chain_testing.Prelude.Panic.{>>=-eq-some}
use chain_testing.Prelude.Uint.{u512_max}
use chain_testing.QpowMath.Nonce.{Hashes, is_valid_nonce}
use chain_testing.Miner.Job.{
  MiningJob, JobStatus, running, completed, failed, advance, settle, attempt, mine_as, mine,
}
use chain_testing.Miner.Service.{
  Parsers, MiningRequest, ApiStatus, Refusal, Jobs, get_job, remove_job, mine_all,
  handle_mine_request, handle_cancel_request,
}
use chain_testing.Miner.Requests.{IsParsers, handle_mine_request-adds}

-- Two states of a job with the same task.
pub record SameTask (job job' : MiningJob) : Type 0 where
  pub header : job'.header_hash ≡ job.header_hash
  pub threshold : job'.distance_threshold ≡ job.distance_threshold
  pub from : job'.nonce_start ≡ job.nonce_start
  pub to : job'.nonce_end ≡ job.nonce_end

pub same_task : (job : MiningJob) → SameTask job job
same_task job = record { header = refl; threshold = refl; from = refl; to = refl }

pub SameTask-trans : (a b d : MiningJob) → SameTask a b → SameTask b d → SameTask a d
SameTask-trans a b d p q = record {
  header = q.header ∙ p.header;
  threshold = q.threshold ∙ p.threshold;
  from = q.from ∙ p.from;
  to = q.to ∙ p.to;
}

no_job : (job : MiningJob) → none ≡ some job → ⊥
no_job job e = cc

advance-SameTask :
    (job : MiningJob) {job' : MiningJob} → advance job ≡ some job' → SameTask job job'
unfolding advance
advance-SameTask job {job'} e = elim (Bool-cases (ltb 0 job.hash_count)) [
  | inr first ↦ rw (← some_eq (rw first at e)) (same_task job)
  | inl more ↦ elim (Bool-cases (job.current_nonce == u512_max)) [
    | inl last ↦ absurd (no_job job' (rw (more, last) at e))
    | inr inside ↦
        rw (← some_eq (rw (more, inside) at e))
          (record { header = refl; threshold = refl; from = refl; to = refl })
  ]
]

settle-SameTask : (job : MiningJob) (valid : Bool) → SameTask job (settle job valid)
unfolding settle
settle-SameTask job true = record { header = refl; threshold = refl; from = refl; to = refl }
settle-SameTask job false = elim (Bool-cases (job.current_nonce == job.nonce_end)) [
  | inl last ↦ rw last (record { header = refl; threshold = refl; from = refl; to = refl })
  | inr more ↦ rw more (same_task job)
]

module _ (hashes : Hashes) (fuel : ℕ) where
  attempt-SameTask :
      (job : MiningJob) {job' : MiningJob} → attempt hashes fuel job ≡ some job' → SameTask job job'
  unfolding attempt
  attempt-SameTask job {job'} e = elim (Bool-cases (ltb job.nonce_end job.current_nonce)) [
    | inl over ↦
        rw (← some_eq (rw over at e))
          (record { header = refl; threshold = refl; from = refl; to = refl })
    | inr inside ↦
        let counted : MiningJob = record job { hash_count = (job.hash_count + 1) % 2 ^ 64 } in
        let (valid, _, end) =
          >>=-eq-some
            (is_valid_nonce hashes fuel job.header_hash job.current_nonce job.distance_threshold) _
            (rw inside at e) in
        let same = settle-SameTask counted valid in
        subst (SameTask job) (some_eq end) (record {
          header = same.header;
          threshold = same.threshold;
          from = same.from;
          to = same.to;
        })
  ]

  mine_as-SameTask :
      (st : JobStatus) (job : MiningJob) {job' : MiningJob}
      → mine_as hashes fuel st job ≡ some job'
      → SameTask job job'
  unfolding mine_as
  mine_as-SameTask running job {job'} e =
      let (next, a, b) = >>=-eq-some (advance job) _ e in
      SameTask-trans job next job' (advance-SameTask job a) (attempt-SameTask next b)
  mine_as-SameTask completed job e = subst (SameTask job) (some_eq e) (same_task job)
  mine_as-SameTask failed job e = subst (SameTask job) (some_eq e) (same_task job)

  mine_all-SameTask :
      (id : ℕ) (jobs : Jobs) {jobs' : Jobs} {job : MiningJob}
      → get_job id jobs ≡ some job
      → mine_all hashes fuel jobs ≡ some jobs'
      → (job' : MiningJob) × (get_job id jobs' ≡ some job') × SameTask job job'
  unfolding mine_all get_job mine
  mine_all-SameTask id [] found e = absurd cc
  mine_all-SameTask id ((key, first) ∷ jobs) {jobs'} {job} found e =
      let (first', m, r) = >>=-eq-some (mine hashes fuel first) _ e in
      let (rest, ms, s) = >>=-eq-some (mine_all hashes fuel jobs) _ r in
      elim (Bool-cases (key == id)) [
        | inl same ↦ (
          first',
          rw (← some_eq s, same) refl,
          subst (λ j. SameTask j first') (some_eq (rw same at found))
              (mine_as-SameTask first.status first m),
        )
        | inr other ↦
            let (job', found', task) = mine_all-SameTask id jobs (rw other at found) ms in
            (job', rw (← some_eq s, other) found', task)
      ]

  get_job-remove_job :
      (id other : ℕ) (jobs : Jobs)
      → other ≢ id
      → get_job id (remove_job other jobs) ≡ get_job id jobs
  unfolding get_job remove_job
  get_job-remove_job id other [] apart = refl
  get_job-remove_job id other ((key, job) ∷ jobs) apart =
      let rest = get_job-remove_job id other jobs apart in
      elim (Bool-cases (key == other)) [
        | inl same ↦
            let e = ==→eq key other same in rw (same, ==_false key id (λ k. apart (sym e ∙ k))) rest
        | inr differs ↦ elim (Bool-cases (key == id)) [
          | inl here ↦ rw (differs, here) refl
          | inr there ↦ rw (differs, there) rest
        ]
      ]

module _ (hashes : Hashes) (fuel : ℕ) (parsers : Parsers) where
  -- What may happen to the jobs while one is wanted: any requests, cancellations of other jobs, and
  -- rounds of the mining loop.
  pub data Later (id : ℕ) (jobs : Jobs) : Jobs → Type 0 where
    now : Later id jobs jobs
    request :
        {t u : Jobs} {reply : ApiStatus × Option Refusal}
        → Later id jobs t
        → (body : MiningRequest) → handle_mine_request parsers body t ≡ some (reply, u)
        → Later id jobs u
    cancel :
        {t : Jobs}
        → Later id jobs t
        → (other : ℕ) → other ≢ id
        → Later id jobs (handle_cancel_request other t).1
    round : {t u : Jobs} → Later id jobs t → mine_all hashes fuel t ≡ some u → Later id jobs u

  get_job-request :
      (id : ℕ) (jobs : Jobs) (body : MiningRequest) {jobs' : Jobs} {job : MiningJob}
      {reply : ApiStatus × Option Refusal}
      → IsParsers parsers
      → get_job id jobs ≡ some job
      → handle_mine_request parsers body jobs ≡ some (reply, jobs')
      → get_job id jobs' ≡ some job
  unfolding get_job
  get_job-request id jobs body {jobs'} {job} laws found e =
      elim (handle_mine_request-adds parsers body jobs laws) [
        | inl (refusal, r) ↦
            subst (λ js. get_job id js ≡ some job)
              (ap (λ (t : (ApiStatus × Option Refusal) × Jobs). t.1) (some_eq (sym r ∙ e))) found
        | inr (hash, threshold, from, to, r, fresh, _, _, _) ↦
            subst (λ js. get_job id js ≡ some job)
              (ap (λ (t : (ApiStatus × Option Refusal) × Jobs). t.1) (some_eq (sym r ∙ e)))
              (rw
                (==_false body.job_id id
                  (λ same. no_job job (sym fresh ∙ ap (λ k. get_job k jobs) same ∙ found)))
                found)
      ]

  pub Later-SameTask :
      (id : ℕ) {jobs jobs' : Jobs} {job : MiningJob}
      → IsParsers parsers
      → Later id jobs jobs'
      → get_job id jobs ≡ some job
      → (job' : MiningJob) × (get_job id jobs' ≡ some job') × SameTask job job'
  unfolding handle_cancel_request
  Later-SameTask id {jobs} {jobs'} {job} laws now found = (job, found, same_task job)
  Later-SameTask id {jobs} {jobs'} {job} laws (request {t} before body e) found =
      let (job', found', task) = Later-SameTask id laws before found in
      (job', get_job-request id t body laws found' e, task)
  Later-SameTask id {jobs} {jobs'} {job} laws (cancel {t} before other apart) found =
      let (job', found', task) = Later-SameTask id laws before found in
      (job', get_job-remove_job hashes fuel id other t apart ∙ found', task)
  Later-SameTask id {jobs} {jobs'} {job} laws (round {t} before e) found =
      let (job', found', task) = Later-SameTask id laws before found in
      let (last, found'', task') = mine_all-SameTask hashes fuel id t found' e in
      (last, found'', SameTask-trans job job' last task task')
