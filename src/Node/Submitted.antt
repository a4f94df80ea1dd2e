-- ===== src/Node/Submitted.antt =====
-- The seals that the node submits for an external miner are accepted (node/src/service.rs).
use chain_testing.Prelude.{
  ℕ, ◌^◌, ◌≡◌, ◌≤◌, ◌<◌, ◌⊎◌, inl, inr, refl, Option, none, some, List, [], ◌∷◌, Bool, Bool-cases,
  true, false, All, All-map, length, arith,
}
use chain_testing.Prelude.Uint.{u512_max}
use chain_testing.Qpow.Types.{Config, State}
use chain_testing.Qpow.Threshold.{get_distance_threshold}
use chain_testing.QpowMath.Nonce.{Hashes, is_valid_nonce}
use chain_testing.Miner.Service.{
  Text, Parsers, MiningRequest, ApiStatus, accepted, Jobs, handle_mine_request,
  handle_result_request,
}
use chain_testing.Miner.Requests.{IsParsers}
use chain_testing.Miner.Reach.{Reachable}
use chain_testing.Miner.Kept.{Later}
use chain_testing.Node.Seal.{QpowSeal, encode, by_hash, Checked, verify}
use chain_testing.Node.External.{
  Formats, job_request, submit_mining_job, Polled, found, still_working, poll_failed, WireResult,
  check_mining_result, wire,
}
use chain_testing.Node.Loop.{next_nonce, advanced, submit_found}
use chain_testing.Node.Polling.{
  Poll, Step, left, polling, or_again, after_poll, poll_rounds, mine_externally,
}
use chain_testing.Node.Mined.{IsFormats, check_mining_result-verify}

no_seal :
    (hex_decode : Text → Option (ℕ × ℕ)) (seal : QpowSeal)
    → check_mining_result hex_decode none ≡ found seal
    → ⊥
unfolding check_mining_result
no_seal hex_decode seal e = cc

module _ (submit : List ℕ → Bool) (P : List ℕ → Type 0) where
  -- At most one seal was submitted, and it has the property.
  abbrev pub IsSent : Option (ℕ × List (List ℕ)) → Type 0
  IsSent none = Unit
  IsSent (some (nonce, sent)) = All P sent × length sent ≤ 1

  abbrev pub IsLeft : Step → Type 0
  IsLeft (left r) = IsSent r
  IsLeft polling = Unit

  advanced-IsSent : (o : Option ℕ) (bytes : List ℕ) → P bytes → IsSent (advanced o (bytes ∷ []))
  advanced-IsSent none bytes p = tt
  advanced-IsSent (some n) bytes p = ((p, tt), omega arith)

  module _ (hex_decode : Text → Option (ℕ × ℕ)) where
    submit_found-IsSent :
        (stale : Bool) (nonce : ℕ) (seal : QpowSeal)
        → P (encode seal)
        → IsSent (submit_found submit stale nonce seal)
    submit_found-IsSent true nonce seal p = (tt, omega arith)
    submit_found-IsSent false nonce seal p = elim (Bool-cases (submit (encode seal))) [
      | inl taken ↦ rw taken ((p, tt), omega arith)
      | inr lost ↦ rw lost (advanced-IsSent (next_nonce nonce) (encode seal) p)
    ]

    after_poll-IsLeft :
        (nonce : ℕ) (r : Polled) (moved stale : Bool)
        → ((seal : QpowSeal) → r ≡ found seal → P (encode seal))
        → IsLeft (after_poll hex_decode submit nonce r moved stale)
    after_poll-IsLeft nonce (found seal) moved stale good =
        submit_found-IsSent stale nonce seal (good seal refl)
    after_poll-IsLeft nonce still_working true stale good = (tt, omega arith)
    after_poll-IsLeft nonce still_working false stale good = tt
    after_poll-IsLeft nonce (poll_failed e) moved stale good = (tt, omega arith)

    or_again-IsLeft : (a b : Step) → IsLeft a → IsLeft b → IsLeft (or_again a b)
    or_again-IsLeft (left r) b p q = p
    or_again-IsLeft polling b p q = q

    poll_rounds-IsLeft :
        (nonce : ℕ) (polls : List Poll)
        → All
            (λ (p : Poll).
              (seal : QpowSeal)
              → check_mining_result hex_decode p.response ≡ found seal
              → P (encode seal))
            polls
        → IsLeft (poll_rounds hex_decode submit nonce polls)
    unfolding poll_rounds
    poll_rounds-IsLeft nonce [] good = tt
    poll_rounds-IsLeft nonce (p ∷ polls) (head, tail) =
        or_again-IsLeft
          (after_poll hex_decode submit nonce (check_mining_result hex_decode p.response) p.moved
            p.stale)
          (poll_rounds hex_decode submit nonce polls)
          (after_poll-IsLeft nonce (check_mining_result hex_decode p.response) p.moved p.stale head)
          (poll_rounds-IsLeft nonce polls tail)

module _ (hashes : Hashes) (fuel : ℕ) (parsers : Parsers) (formats : Formats)
    (valid : ℕ → ℕ → ℕ → Bool) (c : Config) (runtime_at : ℕ → Option State) where
  -- No response, or the miner's result of the job at some time after it was added.
  abbrev pub IsReply : ℕ → Jobs → Option WireResult → Type 0
  IsReply job_id added response =
      (response ≡ none)
      ⊎ ((later : Jobs) × Later hashes fuel parsers job_id added later
          × (response ≡ some (wire formats (handle_result_request job_id later))))

  reply_seal :
      (job_id best_hash pre_hash nonce : ℕ) (s : State) (seal : QpowSeal) (p : Poll)
      {jobs added : Jobs}
      → ((h n t : ℕ) (b : Bool) → is_valid_nonce hashes fuel h n t ≡ some b → valid h n t ≡ b)
      → IsParsers parsers
      → IsFormats formats parsers
      → pre_hash < 2 ^ 256
      → get_distance_threshold c s ≤ u512_max
      → nonce ≤ u512_max
      → runtime_at best_hash ≡ some s
      → Reachable hashes fuel parsers jobs
      → handle_mine_request parsers
          (job_request formats job_id pre_hash (get_distance_threshold c s) nonce u512_max)
          jobs
        ≡ some ((accepted, none), added)
      → IsReply job_id added p.response
      → check_mining_result parsers.hex_decode p.response ≡ found seal
      → verify valid c runtime_at (by_hash best_hash) pre_hash (encode seal) ≡ Checked.verdict true
  reply_seal job_id best_hash pre_hash nonce s seal p agrees laws reads small t f at reach accepts r
        e =
      elim r [
        | inl nothing ↦ absurd (no_seal parsers.hex_decode seal (rw nothing at e))
        | inr (later, run, same) ↦
            let (_, _, ok) =
              check_mining_result-verify hashes fuel parsers formats valid c runtime_at job_id
                best_hash pre_hash nonce u512_max s seal agrees laws reads small t f (omega arith)
                at reach accepts run (rw same at e) in
            ok
      ]

  -- Let the runtime's check of a nonce be that of the math crate, where that one returns, parsers
  -- and formats be as `IsParsers` and `IsFormats` say, and the miner accept the job that the node
  -- asks for, from the nonce of its task on. If every response to a poll is the result of this job
  -- at some time, or none, then a round of the mining task that is left has submitted at most one
  -- seal, which the check for import accepts for the best block of the round.
  pub mine_externally-verify :
      (submit : List ℕ → Bool) (reply : MiningRequest → Option ApiStatus)
      (job_id best_hash pre_hash nonce : ℕ) (s : State) (polls : List Poll) {jobs added : Jobs}
      → ((h n t : ℕ) (b : Bool) → is_valid_nonce hashes fuel h n t ≡ some b → valid h n t ≡ b)
      → IsParsers parsers
      → IsFormats formats parsers
      → pre_hash < 2 ^ 256
      → get_distance_threshold c s ≤ u512_max
      → nonce ≤ u512_max
      → runtime_at best_hash ≡ some s
      → Reachable hashes fuel parsers jobs
      → handle_mine_request parsers
          (job_request formats job_id pre_hash (get_distance_threshold c s) nonce u512_max)
          jobs
        ≡ some ((accepted, none), added)
      → All (λ (p : Poll). IsReply job_id added p.response) polls
      → IsLeft submit
          (λ bytes.
            verify valid c runtime_at (by_hash best_hash) pre_hash bytes ≡ Checked.verdict true)
          (mine_externally parsers.hex_decode submit formats c runtime_at best_hash job_id pre_hash
            nonce reply polls)
  unfolding mine_externally
  mine_externally-verify submit reply job_id best_hash pre_hash nonce s polls {jobs} {added} agrees
        laws reads small t f at reach accepts replies =
      let request =
        job_request formats job_id pre_hash (get_distance_threshold c s) nonce u512_max in
      let P = λ (bytes : List ℕ).
        verify valid c runtime_at (by_hash best_hash) pre_hash bytes ≡ Checked.verdict true in
      let seals =
        λ (p : Poll) (r : IsReply job_id added p.response) (seal : QpowSeal)
            (e : check_mining_result parsers.hex_decode p.response ≡ found seal).
          reply_seal job_id best_hash pre_hash nonce s seal p agrees laws reads small t f at reach
            accepts r e in
      elim (Bool-cases (submit_mining_job (reply request))) [
        | inl taken ↦
            rw (at, taken)
              (poll_rounds-IsLeft submit P parsers.hex_decode nonce polls
                (All-map polls seals replies))
        | inr lost ↦ rw (at, lost) (tt, omega arith)
      ]
