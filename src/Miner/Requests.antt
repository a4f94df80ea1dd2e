-- ===== src/Miner/Requests.antt =====
-- What becomes of a request for a job (external-miner/src/lib.rs).
use chain_testing.Prelude.{
  ℕ, ◌+◌, ◌≤◌, ◌≡◌, ◌≢◌, ◌⊎◌, ◌∙◌, refl, ap, inl, inr, ◌∷◌, length, Option, none, some, some_eq,
  Bool, true, false, not, ◌||◌, Option-cases, is_some, ltb, ◌==◌, if◌then◌else◌, ==→eq, arith,
}
use chain_testing.Prelude.Panic.{◌>>=◌}
use chain_testing.Prelude.Uint.{u512_max}
use chain_testing.Miner.Job.{MiningJob, new_job}
use chain_testing.Miner.Service.{
  Text, Parsers, MiningRequest, accepted, refused, Refusal, empty_job_id, invalid_mining_hash,
  invalid_threshold, invalid_start, invalid_end, job_exists, start_after_end, Jobs, get_job,
  add_job, reply_added, check_range, validate_mining_request, parse_job, handle_mine_request,
  reply_to,
}

some_ne : (e : Refusal) → some e ≢ none
some_ne e h = cc

-- A test that refuses did not.
passed :
    (b : Bool) (e : Refusal) (rest : Option (Option Refusal))
    → (if b then some (some e) else rest) ≡ some none
    → (b ≡ false) × (rest ≡ some none)
passed true e rest h = absurd (some_ne e (some_eq h))
passed false e rest h = (refl, h)

parsed : {A : Type 0} (o : Option A) → not (is_some o) ≡ false → (v : A) × (o ≡ some v)
parsed none h = absurd cc
parsed (some v) h = (v, refl)

parsed_as :
    {A : Type 0} (a : Bool) (o : Option A)
    → (not a || not (is_some o)) ≡ false
    → (a ≡ true) × (v : A) × (o ≡ some v)
parsed_as true o h = let (v, e) = parsed o h in (refl, v, e)
parsed_as false o h = absurd cc

half : (n l : ℕ) → n + n ≡ l → l ≡ 64 → (n == 32) ≡ true
half n l e f = let h : n ≡ 32 = omega arith in rw h

guarded :
    (b : Bool) (e : Refusal) (rest : Option (Option Refusal))
    → (b ≡ false → (r : Option Refusal) × (rest ≡ some r))
    → (r : Option Refusal) × ((if b then some (some e) else rest) ≡ some r)
guarded true e rest f = (some e, refl)
guarded false e rest f = f refl

-- Five tests that refuse, before a rest that is only run if the last two did not.
five :
    (a b c d e : Bool) (ra rb rc rd re : Refusal) (rest : Option (Option Refusal))
    → (d ≡ false → e ≡ false → (r : Option Refusal) × (rest ≡ some r))
    → (r : Option Refusal) × ((if a
          then some (some ra)
          else (if b
              then some (some rb)
              else (if c
                  then some (some rc)
                  else (if d then some (some rd) else (if e then some (some re) else rest)))))
        ≡ some r)
five a b c d e ra rb rc rd re rest f =
    guarded a ra _
      λ _. guarded b rb _ λ _. guarded c rc _ λ _. guarded d rd _ λ x. guarded e re _ λ y. f x y

add_fresh :
    (id : ℕ) (job : MiningJob) (jobs : Jobs)
    → get_job id jobs ≡ none
    → add_job id job jobs ≡ some ((id, job) ∷ jobs)
unfolding add_job
add_fresh id job jobs e = rw e

add_taken :
    (id : ℕ) (job old : MiningJob) (jobs : Jobs)
    → get_job id jobs ≡ some old
    → add_job id job jobs ≡ none
unfolding add_job
add_taken id job old jobs e = rw e

unequal : (a b : ℕ) → (a == b) ≡ false → a ≢ b
unequal a b h = ground arith

not_after : (a b : ℕ) → ltb a b ≡ false → b ≤ a
not_after a b h = ground arith

-- The parsers as documented: two digits a byte, and numbers of 512 bits.
pub record IsParsers (parsers : Parsers) : Type 0 where
  pub bytes : (s : Text) (n v : ℕ) → parsers.hex_decode s ≡ some (n, v) → n + n ≡ length s
  pub fits : (s : Text) (v : ℕ) → parsers.from_hex_str s ≡ some v → v ≤ u512_max

module _ (parsers : Parsers) where
  -- The numbers of a request whose validation finds nothing to refuse.
  pub record IsParsed (request : MiningRequest) (hash threshold from to : ℕ) : Type 0 where
    pub name : (request.job_id == 0) ≡ false
    pub hashed : (length request.mining_hash == 64) ≡ true
    pub size : ℕ
    pub is_hash : parsers.hex_decode request.mining_hash ≡ some (size, hash)
    pub is_threshold : parsers.from_dec_str request.distance_threshold ≡ some threshold
    pub is_from : parsers.from_hex_str request.nonce_start ≡ some from
    pub is_to : parsers.from_hex_str request.nonce_end ≡ some to
    pub ordered : from ≤ to

  order_of : (b : Bool) → some (if b then some start_after_end else none) ≡ some none → b ≡ false
  order_of true h = absurd (some_ne start_after_end (some_eq h))
  order_of false h = refl

  validate-IsParsed :
      (request : MiningRequest)
      → validate_mining_request parsers request ≡ some none
      → (hash threshold from to : ℕ) × IsParsed request hash threshold from to
  unfolding validate_mining_request check_range
  validate-IsParsed request h =
      let (name, h1) = passed _ _ _ h in
      let (c2, h2) = passed _ _ _ h1 in
      let (c3, h3) = passed _ _ _ h2 in
      let (c4, h4) = passed _ _ _ h3 in
      let (c5, h5) = passed _ _ _ h4 in
      let (hashed, (size, hash), is_hash) = parsed_as (length request.mining_hash == 64) _ c2 in
      let (threshold, is_threshold) = parsed _ c3 in
      let (_, from, is_from) = parsed_as (length request.nonce_start == 128) _ c4 in
      let (_, to, is_to) = parsed_as (length request.nonce_end == 128) _ c5 in
      let b = order_of (ltb to from) (rw (is_from, is_to, ◌>>=◌) at h5) in
      (
        hash,
        threshold,
        from,
        to,
        record {
          name = name;
          hashed = hashed;
          size = size;
          is_hash = is_hash;
          is_threshold = is_threshold;
          is_from = is_from;
          is_to = is_to;
          ordered = not_after to from b;
        },
      )

  parse_job-IsParsed :
      (request : MiningRequest) {hash threshold from to : ℕ}
      → IsParsers parsers
      → IsParsed request hash threshold from to
      → parse_job parsers request ≡ some (new_job hash threshold from to)
  unfolding parse_job
  parse_job-IsParsed request laws p =
      let size : (p.size == 32) ≡ true =
        half _ _ (laws.bytes _ _ _ p.is_hash) (==→eq _ _ p.hashed) in
      rw (p.is_hash, size, p.is_threshold, p.is_from, p.is_to)

  range-returns :
      (request : MiningRequest) {from to : ℕ}
      → parsers.from_hex_str request.nonce_start ≡ some from
      → parsers.from_hex_str request.nonce_end ≡ some to
      → (r : Option Refusal) × (check_range parsers request ≡ some r)
  unfolding check_range
  range-returns request {from} {to} e f =
      (if ltb to from then some start_after_end else none, rw (e, f))

  validate-returns :
      (request : MiningRequest)
      → (r : Option Refusal) × (validate_mining_request parsers request ≡ some r)
  unfolding validate_mining_request
  validate-returns request =
      five (request.job_id == 0)
        (not (length request.mining_hash == 64)
          || not (is_some (parsers.hex_decode request.mining_hash)))
        (not (is_some (parsers.from_dec_str request.distance_threshold)))
        (not (length request.nonce_start == 128)
          || not (is_some (parsers.from_hex_str request.nonce_start)))
        (not (length request.nonce_end == 128)
          || not (is_some (parsers.from_hex_str request.nonce_end)))
        empty_job_id invalid_mining_hash invalid_threshold invalid_start invalid_end
        (check_range parsers request)
        (λ c4 c5.
          let (_, from, is_from) = parsed_as (length request.nonce_start == 128) _ c4 in
          let (_, to, is_to) = parsed_as (length request.nonce_end == 128) _ c5 in
          range-returns request is_from is_to)

  handle_lem :
      (request : MiningRequest) (jobs : Jobs) (r : Option Refusal)
      → validate_mining_request parsers request ≡ some r
      → handle_mine_request parsers request jobs ≡ reply_to parsers request jobs r
  unfolding handle_mine_request
  handle_lem request jobs r e = ap (λ v. v >>= reply_to parsers request jobs) e

  reply_to_lem :
      (request : MiningRequest) (jobs : Jobs) (job : MiningJob)
      → parse_job parsers request ≡ some job
      → reply_to parsers request jobs none
        ≡ some (reply_added (add_job request.job_id job jobs) jobs)
  unfolding reply_to
  reply_to_lem request jobs job e =
      ap (λ v. v >>= λ job. some (reply_added (add_job request.job_id job jobs) jobs)) e

  reply_refused :
      (request : MiningRequest) (jobs : Jobs) (e : Refusal)
      → reply_to parsers request jobs (some e) ≡ some ((refused, some e), jobs)
  unfolding reply_to
  reply_refused request jobs e = refl

  accepts :
      (request : MiningRequest) (jobs : Jobs)
      → IsParsers parsers
      → validate_mining_request parsers request ≡ some none
      → ((e : Refusal) × (handle_mine_request parsers request jobs
            ≡ some ((refused, some e), jobs)))
        ⊎ ((hash threshold from to : ℕ) × (handle_mine_request parsers request jobs
              ≡ some ((accepted, none), (request.job_id, new_job hash threshold from to) ∷ jobs))
            × (get_job request.job_id jobs ≡ none)
            × (request.job_id ≢ 0)
            × IsParsed request hash threshold from to
            × (to ≤ u512_max))
  accepts request jobs laws r =
      let (hash, threshold, from, to, p) = validate-IsParsed request r in
      let job = new_job hash threshold from to in
      let reply =
        handle_lem request jobs none r
        ∙ reply_to_lem request jobs job (parse_job-IsParsed request laws p) in
      elim (Option-cases (get_job request.job_id jobs)) [
        | inl fresh ↦ inr (
          hash,
          threshold,
          from,
          to,
          reply ∙ ap (λ o. some (reply_added o jobs)) (add_fresh _ _ _ fresh),
          fresh,
          unequal _ _ p.name,
          p,
          laws.fits _ _ p.is_to,
        )
        | inr (old, taken) ↦
            inl (job_exists, reply ∙ ap (λ o. some (reply_added o jobs)) (add_taken _ _ _ _ taken))
      ]

  -- For parsers as `IsParsers` says a request never panics. Either it is refused and the jobs stay
  -- as they are; or there is no job of its name, which is not empty, and the job that is added
  -- looks for a nonce in the range of the request, which is not empty and ends at 512 bits.
  pub handle_mine_request-adds :
      (request : MiningRequest) (jobs : Jobs)
      → IsParsers parsers
      → ((e : Refusal) × (handle_mine_request parsers request jobs
            ≡ some ((refused, some e), jobs)))
        ⊎ ((hash threshold from to : ℕ) × (handle_mine_request parsers request jobs
              ≡ some ((accepted, none), (request.job_id, new_job hash threshold from to) ∷ jobs))
            × (get_job request.job_id jobs ≡ none)
            × (request.job_id ≢ 0)
            × IsParsed request hash threshold from to
            × (to ≤ u512_max))
  handle_mine_request-adds request jobs laws =
      let (verdict, v) = validate-returns request in
      elim (Option-cases verdict) [
        | inl ok ↦ accepts request jobs laws (v ∙ ap some ok)
        | inr (e, refusal) ↦ inl (
          e,
          handle_lem request jobs (some e) (v ∙ ap some refusal) ∙ reply_refused request jobs e,
        )
      ]
