-- ===== src/Node/Agree.antt =====
-- Seals that are made are those that are accepted (client/consensus/qpow/src/lib.rs and miner.rs).
use chain_testing.Prelude.{
  ℕ, ◌^◌, ◌<◌, ◌≡◌, ◌≢◌, ◌↔◌, ◌∙◌, refl, sym, ap, inl, inr, Option, none, some, List, Bool,
  Bool-cases, true, length, ==_false,
}
use chain_testing.Prelude.Bytes.{
  big_bytes, from_big_endian, length-big_bytes, from_big_endian-big_bytes,
}
use chain_testing.Qpow.Types.{Config, State}
use chain_testing.Qpow.Threshold.{get_distance_threshold}
use chain_testing.Qpow.Nonces.{verify_for_import, submit_nonce}
use chain_testing.Node.Seal.{
  encode, BlockId, by_hash, verdict, panicked, extract_block_hash, import_verdict, verify_at,
  verify, try_nonce_at, try_nonce,
}

module _ (is_valid_nonce : ℕ → ℕ → ℕ → Bool) (c : Config) (runtime_at : ℕ → Option State) where
  -- An answer of the runtime, and of the check for a parent, is no panic.
  import_verdict-returns :
      (o : Option State) (pre_hash nonce : ℕ)
      → import_verdict is_valid_nonce c runtime_at o pre_hash nonce ≢ panicked
  import_verdict-returns none pre_hash nonce e = cc
  import_verdict-returns (some s) pre_hash nonce e = cc

  verify_at-returns :
      (o : Option ℕ) (pre_hash nonce : ℕ)
      → verify_at is_valid_nonce c runtime_at o pre_hash nonce ≢ panicked
  verify_at-returns none pre_hash nonce e = cc
  verify_at-returns (some parent_hash) pre_hash nonce e =
      import_verdict-returns (runtime_at parent_hash) pre_hash nonce e

  pub verify_whole :
      (parent : BlockId) (pre_hash : ℕ) (seal : List ℕ)
      → length seal ≡ 64
      → verify is_valid_nonce c runtime_at parent pre_hash seal
        ≡ verify_at is_valid_nonce c runtime_at
            (extract_block_hash parent)
            pre_hash
            (from_big_endian seal)
  unfolding verify
  verify_whole parent pre_hash seal h = rw h

  -- The check of a seal panics exactly if the seal is not 64 bytes long, whatever the block and the
  -- state of the chain.
  pub verify-panicked :
      (parent : BlockId) (pre_hash : ℕ) (seal : List ℕ)
      → (verify is_valid_nonce c runtime_at parent pre_hash seal ≡ panicked) ↔ (length seal ≢ 64)
  unfolding verify
  verify-panicked parent pre_hash seal = (
    λ e h.
        verify_at-returns (extract_block_hash parent) pre_hash (from_big_endian seal)
          (sym (verify_whole parent pre_hash seal h) ∙ e),
    λ h. rw (==_false (length seal) 64 h),
  )

  -- The check of the encoding of a seal is the answer of the runtime on its nonce.
  pub verify-encode :
      (parent_hash pre_hash nonce : ℕ)
      → nonce < 2 ^ 512
      → verify is_valid_nonce c runtime_at
          (by_hash parent_hash)
          pre_hash
          (encode (record { nonce = nonce }))
        ≡ import_verdict is_valid_nonce c runtime_at (runtime_at parent_hash) pre_hash nonce
  verify-encode parent_hash pre_hash nonce h =
      verify_whole (by_hash parent_hash) pre_hash (big_bytes 64 nonce) (length-big_bytes 64 nonce)
      ∙ ap (import_verdict is_valid_nonce c runtime_at (runtime_at parent_hash) pre_hash)
          (from_big_endian-big_bytes 64 nonce h)

  -- Local mining and import answer alike.
  try_nonce_at-import :
      (o : Option State) (pre_hash nonce : ℕ)
      → (try_nonce_at is_valid_nonce c runtime_at o pre_hash nonce
          ≡ some (record { nonce = nonce }))
        ↔ (import_verdict is_valid_nonce c runtime_at o pre_hash nonce ≡ verdict true)
  unfolding verify_for_import submit_nonce
  try_nonce_at-import none pre_hash nonce = (λ e. absurd cc, λ e. absurd cc)
  try_nonce_at-import (some s) pre_hash nonce =
      elim (Bool-cases (is_valid_nonce pre_hash nonce (get_distance_threshold c s))) [
        | inl ok ↦ rw ok (λ e. refl, λ e. refl)
        | inr bad ↦ rw bad (λ e. absurd cc, λ e. absurd cc)
      ]

  -- A nonce of 512 bits gives a seal for a parent and a hash by local mining exactly if the check
  -- for import accepts the encoding of this seal for them.
  pub try_nonce-verify :
      (parent_hash pre_hash nonce : ℕ)
      → nonce < 2 ^ 512
      → (try_nonce is_valid_nonce c runtime_at parent_hash pre_hash nonce
          ≡ some (record { nonce = nonce }))
        ↔ (verify is_valid_nonce c runtime_at
              (by_hash parent_hash)
              pre_hash
              (encode (record { nonce = nonce }))
            ≡ verdict true)
  unfolding try_nonce
  try_nonce-verify parent_hash pre_hash nonce h =
      let same = verify-encode parent_hash pre_hash nonce h in
      let (to, from) = try_nonce_at-import (runtime_at parent_hash) pre_hash nonce in
      (λ e. same ∙ to e, λ e. from (sym same ∙ e))
