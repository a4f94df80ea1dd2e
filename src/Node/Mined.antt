-- ===== src/Node/Mined.antt =====
-- From the node's request to the external miner, over the miner's work, to the seal that is
-- checked at import (node/src/external_miner_client.rs, external-miner/src/lib.rs,
-- client/consensus/qpow/src/lib.rs, pallets/qpow/src/lib.rs).
use mathlib.Core.Path.{subst}
use chain_testing.Prelude.{
  ℕ, ◌^◌, ◌≡◌, ◌≤◌, ◌<◌, ◌∙◌, refl, sym, ap, inl, inr, Option, none, some, some_eq, Bool, true,
  ==-self, arith,
}
use chain_testing.Prelude.Uint.{u512_max}
use chain_testing.Qpow.Types.{Config, State}
use chain_testing.Qpow.Threshold.{get_distance_threshold}
use chain_testing.Qpow.Nonces.{verify_for_import}
use chain_testing.QpowMath.Nonce.{Hashes, is_valid_nonce}
use chain_testing.Miner.Job.{MiningJob, new_job}
use chain_testing.Miner.Service.{
  Parsers, ApiStatus, accepted, refused, is_running, is_completed, is_failed, cancelled, not_found,
  Refusal, Jobs, get_job, handle_mine_request, handle_result_request,
}
use chain_testing.Miner.Requests.{IsParsers, handle_mine_request-adds}
use chain_testing.Miner.Reach
use chain_testing.Miner.Reach.{Reachable, handle_result_request-work}
use chain_testing.Miner.Kept.{Later, Later-SameTask}
use chain_testing.Node.Seal.{QpowSeal, encode, by_hash, Checked, verify}
use chain_testing.Node.Agree.{verify-encode}
use chain_testing.Node.External.{
  Formats, job_request, found, check_mining_result, polled, wire, work_text,
}

-- The texts that are written are read back.
pub record IsFormats (formats : Formats) (parsers : Parsers) : Type 0 where
  pub hash_read : (n : ℕ) → n < 2 ^ 256 → parsers.hex_decode (formats.hash_hex n) ≡ some (32, n)
  pub work_read : (n : ℕ) → n ≤ u512_max → parsers.hex_decode (formats.work_hex n) ≡ some (64, n)
  pub string_read : (n : ℕ) → n ≤ u512_max → parsers.from_dec_str (formats.to_string n) ≡ some n
  pub nonce_read : (n : ℕ) → n ≤ u512_max → parsers.from_hex_str (formats.nonce_hex n) ≡ some n

found_eq : {a b : QpowSeal} → found a ≡ found b → a ≡ b
found_eq e = cc

-- The reply to a request that is refused is not that to one that is accepted.
not_accepted :
    (refusal : Refusal) (jobs jobs' : Jobs)
    → Path
        (Option ((ApiStatus × Option Refusal) × Jobs))
        (some ((refused, some refusal), jobs))
        (some ((accepted, none), jobs'))
    → ⊥
not_accepted refusal jobs jobs' e =
    refused_accepted (ap (λ (o : (ApiStatus × Option Refusal) × Jobs). o.0.0) (some_eq e))
  where
    refused_accepted : refused ≡ accepted → ⊥
    refused_accepted e = cc

module _ (formats : Formats) (parsers : Parsers) where
  -- The seal that is found in a result is its work.
  found-work :
      (api : ApiStatus) (work : Option ℕ) {seal : QpowSeal}
      → ((n : ℕ) → work ≡ some n → n ≤ u512_max)
      → IsFormats formats parsers
      → check_mining_result parsers.hex_decode
          (some (record { status = api; work = work_text formats work }))
        ≡ found seal
      → work ≡ some seal.nonce
  unfolding check_mining_result
  found-work is_completed none small laws e = absurd cc
  found-work is_completed (some n) small laws e =
      let text : parsers.hex_decode (formats.work_hex n) ≡ some (64, n) =
        laws.work_read n (small n refl) in
      ap (λ (s : QpowSeal). some s.nonce) (found_eq (rw text at e))
  found-work is_running work small laws e = absurd cc
  found-work not_found work small laws e = absurd cc
  found-work is_failed work small laws e = absurd cc
  found-work cancelled work small laws e = absurd cc
  found-work refused work small laws e = absurd cc
  found-work accepted work small laws e = absurd cc

  -- A request of the node that is accepted adds a job for its numbers.
  accepted_job :
      (job_id mining_hash threshold from to : ℕ) (jobs : Jobs) {jobs' : Jobs}
      → IsParsers parsers
      → IsFormats formats parsers
      → mining_hash < 2 ^ 256
      → threshold ≤ u512_max
      → from ≤ u512_max
      → to ≤ u512_max
      → handle_mine_request parsers (job_request formats job_id mining_hash threshold from to) jobs
        ≡ some ((accepted, none), jobs')
      → get_job job_id jobs' ≡ some (new_job mining_hash threshold from to)
  unfolding get_job
  accepted_job job_id mining_hash threshold from to jobs {jobs'} laws reads small t f g e =
      elim (handle_mine_request-adds parsers
        (job_request formats job_id mining_hash threshold from to) jobs laws) [
          | inl (refusal, r) ↦ absurd (not_accepted refusal jobs jobs' (sym r ∙ e))
          | inr (hash', threshold', from', to', r, _, _, p, _) ↦
              let hash : mining_hash ≡ hash' =
                ap (λ (b : ℕ × ℕ). b.1)
                  (some_eq (sym (reads.hash_read mining_hash small) ∙ p.is_hash)) in
              let limit : threshold ≡ threshold' =
                some_eq (sym (reads.string_read threshold t) ∙ p.is_threshold) in
              let low : from ≡ from' = some_eq (sym (reads.nonce_read from f) ∙ p.is_from) in
              let high : to ≡ to' = some_eq (sym (reads.nonce_read to g) ∙ p.is_to) in
              subst (λ js. get_job job_id js ≡ some (new_job mining_hash threshold from to))
                (ap (λ (o : (ApiStatus × Option Refusal) × Jobs). o.1) (some_eq (sym r ∙ e)))
                (rw (==-self job_id, hash, limit, low, high) refl)
        ]

module _ (hashes : Hashes) (fuel : ℕ) (parsers : Parsers) (formats : Formats)
    (valid : ℕ → ℕ → ℕ → Bool) (c : Config) (runtime_at : ℕ → Option State) where
  Later-Reachable :
      (id : ℕ) {jobs jobs' : Jobs}
      → Reachable hashes fuel parsers jobs
      → Later hashes fuel parsers id jobs jobs'
      → Reachable hashes fuel parsers jobs'
  Later-Reachable id reach Later.now = reach
  Later-Reachable id reach (Later.request before body e) =
      Reach.request (Later-Reachable id reach before) body e
  Later-Reachable id reach (Later.cancel before other apart) =
      Reach.cancel (Later-Reachable id reach before) other
  Later-Reachable id reach (Later.round before e) = Reach.round (Later-Reachable id reach before) e

  -- The work that is reported for a wanted job is a valid nonce in its range.
  wanted-work :
      (job_id header threshold from to nonce : ℕ) {added later : Jobs}
      → IsParsers parsers
      → get_job job_id added ≡ some (new_job header threshold from to)
      → Reachable hashes fuel parsers later
      → Later hashes fuel parsers job_id added later
      → (handle_result_request job_id later).work ≡ some nonce
      → (from ≤ nonce)
        × (nonce ≤ to)
        × (is_valid_nonce hashes fuel header nonce threshold ≡ some true)
  wanted-work job_id header threshold from to nonce laws mine reach run e =
      let (job, kept, task) = Later-SameTask hashes fuel parsers job_id laws run mine in
      let (job', kept', ge, le, ok, _) =
        handle_result_request-work hashes fuel parsers laws job_id nonce reach e in
      let same : job' ≡ job = some_eq (sym kept' ∙ kept) in
      let low : job'.nonce_start ≡ from = ap (λ (j : MiningJob). j.nonce_start) same ∙ task.from in
      let high : job'.nonce_end ≡ to = ap (λ (j : MiningJob). j.nonce_end) same ∙ task.to in
      let head : job'.header_hash ≡ header =
        ap (λ (j : MiningJob). j.header_hash) same ∙ task.header in
      let limit : job'.distance_threshold ≡ threshold =
        ap (λ (j : MiningJob). j.distance_threshold) same ∙ task.threshold in
      (omega arith, omega arith, rw (head, limit) at ok)

  -- A nonce that the runtime accepts is that of a seal that the check accepts.
  accepted-verify :
      (parent_hash pre_hash : ℕ) (s : State) (seal : QpowSeal)
      → seal.nonce ≤ u512_max
      → runtime_at parent_hash ≡ some s
      → valid pre_hash seal.nonce (get_distance_threshold c s) ≡ true
      → verify valid c runtime_at (by_hash parent_hash) pre_hash (encode seal)
        ≡ Checked.verdict true
  unfolding verify_for_import
  accepted-verify parent_hash pre_hash s seal small at ok =
      verify-encode valid c runtime_at parent_hash pre_hash seal.nonce (omega arith)
      ∙ rw (at, ok) refl

  -- Let the runtime's check of a nonce be that of the math crate, where that one returns, parsers
  -- and formats be as `IsParsers` and `IsFormats` say, and the miner accept the node's request for a
  -- block to be built on a parent, with the distance threshold of the state at the parent. After any
  -- requests, cancellations of other jobs and rounds of the mining loop: a seal that the node finds
  -- in the result of its job has a nonce in the requested range, and the check for import accepts
  -- its encoding for this parent.
  pub check_mining_result-verify :
      (job_id parent_hash pre_hash from to : ℕ) (s : State) (seal : QpowSeal)
      {jobs added later : Jobs}
      → ((h n t : ℕ) (b : Bool) → is_valid_nonce hashes fuel h n t ≡ some b → valid h n t ≡ b)
      → IsParsers parsers
      → IsFormats formats parsers
      → pre_hash < 2 ^ 256
      → get_distance_threshold c s ≤ u512_max
      → from ≤ u512_max
      → to ≤ u512_max
      → runtime_at parent_hash ≡ some s
      → Reachable hashes fuel parsers jobs
      → handle_mine_request parsers
          (job_request formats job_id pre_hash (get_distance_threshold c s) from to)
          jobs
        ≡ some ((accepted, none), added)
      → Later hashes fuel parsers job_id added later
      → check_mining_result parsers.hex_decode
          (some (wire formats (handle_result_request job_id later)))
        ≡ found seal
      → (from ≤ seal.nonce)
        × (seal.nonce ≤ to)
        × (verify valid c runtime_at (by_hash parent_hash) pre_hash (encode seal)
            ≡ Checked.verdict true)
  check_mining_result-verify job_id parent_hash pre_hash from to s seal {jobs} {added} {later}
        agrees laws reads small t f g at reach accepts run polled =
      let reach' =
        Later-Reachable job_id
          (Reach.request reach
            (job_request formats job_id pre_hash (get_distance_threshold c s) from to) accepts)
          run in
      let mine =
        accepted_job formats parsers job_id pre_hash (get_distance_threshold c s) from to jobs laws
          reads small t f g accepts in
      let facts = λ (n : ℕ) (e : (handle_result_request job_id later).work ≡ some n).
        wanted-work job_id pre_hash (get_distance_threshold c s) from to n laws mine reach' run e in
      let result = handle_result_request job_id later in
      let work =
        found-work formats parsers result.api result.work
          (λ n e. let (_, le, _) = facts n e in omega arith) reads polled in
      let (ge, le, ok) = facts seal.nonce work in
      (
        ge,
        le,
        accepted-verify parent_hash pre_hash s seal (omega arith) at
            (agrees pre_hash seal.nonce (get_distance_threshold c s) true ok),
      )
