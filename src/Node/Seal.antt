-- ===== src/Node/Seal.antt =====
-- The seal of a block: `QPowAlgorithm` of client/consensus/qpow/src/lib.rs, which checks it, and
-- `QPoWMiner` of client/consensus/qpow/src/miner.rs, which makes it. The runtime API answers by the
-- pallet on the storage of a block, which `runtime_at` gives, and `none` is an error of the API.
use chain_testing.Prelude.{ℕ, Option, none, some, List, Bool, false, length, ◌==◌, if◌then◌else◌}
use chain_testing.Prelude.Bytes.{big_bytes, from_big_endian}
use chain_testing.Qpow.Types.{Config, State}
use chain_testing.Qpow.Threshold.{get_difficulty}
use chain_testing.Qpow.Nonces.{verify_for_import, submit_nonce}

-- A nonce of 64 bytes is the number that it spells.
pub record QpowSeal : Type 0 where
  pub nonce : ℕ

-- The encoding of a seal: the bytes of its nonce.
abbrev pub encode : QpowSeal → List ℕ
encode seal = big_bytes 64 seal.nonce

pub data BlockId : Type 0 where
  by_hash by_number : ℕ → BlockId

-- The result of a check: a verdict, an error of the runtime API, or a panic.
pub data Checked : Type 0 where
  verdict : Bool → Checked
  api_error panicked : Checked

abbrev pub extract_block_hash : BlockId → Option ℕ
extract_block_hash (by_hash hash) = some hash
extract_block_hash (by_number number) = none

module _ (is_valid_nonce : ℕ → ℕ → ℕ → Bool) (c : Config) (runtime_at : ℕ → Option State) where
  -- The answer of the runtime, whose changes of the storage are dropped.
  abbrev pub import_verdict : Option State → ℕ → ℕ → Checked
  import_verdict none pre_hash nonce = api_error
  import_verdict (some s) pre_hash nonce =
      verdict (verify_for_import is_valid_nonce c pre_hash nonce s).1

  abbrev pub verify_at : Option ℕ → ℕ → ℕ → Checked
  verify_at none pre_hash nonce = verdict false
  verify_at (some parent_hash) pre_hash nonce =
      import_verdict (runtime_at parent_hash) pre_hash nonce

  -- The seal is turned into 64 bytes first, and one of another length is a panic.
  unfoldable pub verify : BlockId → ℕ → List ℕ → Checked
  verify parent pre_hash seal =
      if length seal == 64
      then verify_at (extract_block_hash parent) pre_hash (from_big_endian seal)
      else panicked

  -- A panic of the runtime is an error of its API.
  abbrev pub difficulty_of : Option State → Option ℕ
  difficulty_of none = none
  difficulty_of (some s) = get_difficulty c s

  unfoldable pub difficulty : ℕ → Option ℕ
  difficulty parent = difficulty_of (runtime_at parent)

  abbrev pub try_nonce_at : Option State → ℕ → ℕ → Option QpowSeal
  try_nonce_at none pre_hash nonce = none
  try_nonce_at (some s) pre_hash nonce =
      if (submit_nonce is_valid_nonce c pre_hash nonce s).1
      then some (record { nonce = nonce })
      else none

  unfoldable pub try_nonce : ℕ → ℕ → ℕ → Option QpowSeal
  try_nonce parent_hash pre_hash nonce = try_nonce_at (runtime_at parent_hash) pre_hash nonce
