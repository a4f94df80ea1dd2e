-- ===== src/HeaviestChain/Finality.antt =====
-- `finalize_canonical_at_depth` (client/consensus/qpow/src/chain_management.rs).
use chain_testing.Prelude.{
  ℕ, ◌+◌, ◌-◌, ◌≤◌, ◌<◌, ◌≡◌, ◌≢◌, ◌⊎◌, ◌∙◌, refl, ap, none, some, Option-cases, inl, inr, leb,
  leb→le, ==_false, ◌==◌, if◌then◌else◌, Bool-cases, false, arith,
}
use chain_testing.Prelude.Uint.{sat_sub}
use chain_testing.HeaviestChain.Client.{
  Header, Error, Result, missing_best_header, failed_hash, no_block_at, failed_finalize, panicked,
  ok, err, map_err, ok_or, Action, ◌>>=◌, lift, pure, Client,
}
use chain_testing.HeaviestChain.Ancestor.{get_header}
use chain_testing.HeaviestChain.Ancestor.Lowest.{Has}

far_of : (a b : ℕ) → leb a b ≡ false → b < a
far_of a b h = ground arith

Result-cases : {A : Type 0} (r : Result A) → ((a : A) × (r ≡ ok a)) ⊎ ((e : Error) × (r ≡ err e))
Result-cases (ok a) = inl (a, refl)
Result-cases (err e) = inr (e, refl)

module _ {Store : Type 0} (client : Client Store) where
  unfoldable pub finalize : ℕ → Action Store (Unit {0})
  finalize hash s = elim (client.finalize_block hash s) [
    | ok s' ↦ (ok tt, s')
    | err e ↦ (err failed_finalize, s)
  ]

  unfoldable pub finalize_canonical_at_depth : Action Store (Unit {0})
  unfolding finalize
  finalize_canonical_at_depth =
      if client.best_hash == 0
      then pure tt
      else (lift (get_header client missing_best_header client.best_hash) >>= λ best_header.
          lift (map_err panicked (client.get_max_reorg_depth client.best_hash))
          >>= λ max_reorg_depth.
              let finalize_depth = sat_sub max_reorg_depth 1 in
              (if leb best_header.number finalize_depth
                then pure tt
                else (lift (
                      ok_or no_block_at (
                        map_err failed_hash (client.hash_at (best_header.number - finalize_depth))))
                    >>= λ hash. finalize hash)))

  -- What a call on a chain with a best block and a reorganisation limit does, and its result: a
  -- chain of at most limit - 1 blocks over genesis is left alone; on a longer one, the block that is
  -- finalized has the number n, which is positive, limit - 1 below the best block.
  pub data IsFinalization (best limit : ℕ) (s : Store) : Result (Unit {0}) × Store → Type 0 where
    too_short : best ≤ limit - 1 → IsFinalization best limit s (ok tt, s)
    unknown_height :
        (n : ℕ) {e : Error}
        → limit - 1 < best
        → n + (limit - 1) ≡ best
        → client.hash_at n ≡ err e
        → IsFinalization best limit s (err failed_hash, s)
    unknown_block :
        (n : ℕ)
        → limit - 1 < best
        → n + (limit - 1) ≡ best
        → client.hash_at n ≡ ok none
        → IsFinalization best limit s (err no_block_at, s)
    refused :
        (n hash : ℕ) {e : Error}
        → limit - 1 < best
        → n + (limit - 1) ≡ best
        → client.hash_at n ≡ ok (some hash)
        → client.finalize_block hash s ≡ err e
        → IsFinalization best limit s (err failed_finalize, s)
    finalized :
        (n hash : ℕ) {s' : Store}
        → limit - 1 < best
        → n + (limit - 1) ≡ best
        → client.hash_at n ≡ ok (some hash)
        → client.finalize_block hash s ≡ ok s'
        → IsFinalization best limit s (ok tt, s')

  finalize-IsFinalization :
      (best limit n hash : ℕ) (s : Store)
      → limit - 1 < best
      → n + (limit - 1) ≡ best
      → client.hash_at n ≡ ok (some hash)
      → IsFinalization best limit s (finalize hash s)
  unfolding finalize
  finalize-IsFinalization best limit n hash s long at known =
      elim (Result-cases (client.finalize_block hash s)) [
        | inl (_, e) ↦ rw (e, finalize) (IsFinalization.finalized n hash long at known e)
        | inr (_, e) ↦ rw (e, finalize) (IsFinalization.refused n hash long at known e)
      ]

  long-IsFinalization :
      (best limit n : ℕ) (s : Store)
      → limit - 1 < best
      → n + (limit - 1) ≡ best
      → IsFinalization best limit s
          ((lift (ok_or no_block_at (map_err failed_hash (client.hash_at n))) >>= finalize) s)
  long-IsFinalization best limit n s long at = elim (Result-cases (client.hash_at n)) [
    | inl (o, e) ↦ elim (Option-cases o) [
      | inl missing ↦
          let gone = e ∙ ap ok missing in rw gone (IsFinalization.unknown_block n long at gone)
      | inr (hash, there) ↦
          let known = e ∙ ap ok there in
          rw known (finalize-IsFinalization best limit n hash s long at known)
    ]
    | inr (_, e) ↦ rw e (IsFinalization.unknown_height n long at e)
  ]

  -- On a client whose best block has a header, and whose runtime gives a reorganisation limit at this
  -- block: if the best block lies at most limit - 1 blocks over genesis, nothing is finalized and the
  -- call succeeds. Otherwise the block limit - 1 below the best block is looked up by its number,
  -- which is positive, and the call succeeds exactly with the store that the client leaves on
  -- finalizing it; if the lookup fails, finds nothing, or the client refuses, the call ends in the
  -- error of that step and the store is as before.
  pub finalize_canonical_at_depth-depth :
      (best : Header) (limit : ℕ) (s : Store)
      → client.best_hash ≢ 0
      → Has client client.best_hash best
      → client.get_max_reorg_depth client.best_hash ≡ ok limit
      → IsFinalization best.number limit s (finalize_canonical_at_depth s)
  unfolding finalize_canonical_at_depth
  finalize_canonical_at_depth-depth best limit s nonzero hb hl =
      elim (Bool-cases (leb best.number (limit - 1))) [
        | inl short ↦
            rw (==_false client.best_hash 0 nonzero, hb, hl, short)
              (IsFinalization.too_short (leb→le _ _ short))
        | inr long ↦
            let less : limit - 1 < best.number = far_of _ _ long in
            rw (==_false client.best_hash 0 nonzero, hb, hl, long)
              (long-IsFinalization best.number limit (best.number - (limit - 1)) s less
                (omega arith))
      ]
