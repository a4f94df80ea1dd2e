-- ===== src/Faucet/Rpc.antt =====
-- The requests to the faucet (node/src/faucet.rs). The decoders of addresses, the balances that the
-- runtime gives at a block, and the pool are parameters.
use chain_testing.Prelude.{ℕ, Option, none, some, List, [], ◌∷◌, Bool, ◌==◌, ◌&&◌, if◌then◌else◌}
use chain_testing.Faucet.Mint.{FaucetCall, mint_call}

-- A text is a list of character codes.
abbrev pub strip_prefix : List ℕ → Option (List ℕ)
strip_prefix [] = none
strip_prefix (x ∷ []) = none
strip_prefix (x ∷ y ∷ rest) = if (x == 48) && (y == 120) then some rest else none

pub data AddressError : Type 0 where
  invalid_hex_length invalid_hex invalid_address : AddressError

pub data Answer (A : Type 0) : Type 0 where
  answer : A → Answer A
  address_error : AddressError → Answer A

pub record AccountInfo : Type 0 where
  pub free_balance : ℕ
  pub reserved_balance : ℕ

-- `hex::decode`, with the number of bytes and the number that they spell, and the decoder of SS58.
pub record Addresses : Type 0 where
  pub hex_decode : List ℕ → Option (ℕ × ℕ)
  pub from_string : List ℕ → Option ℕ

module _ (addresses : Addresses) where
  abbrev pub hex_account : Option (ℕ × ℕ) → Answer ℕ
  hex_account none = address_error invalid_hex
  hex_account (some (size, account)) =
      if size == 32 then answer account else address_error invalid_hex_length

  abbrev pub string_account : Option ℕ → Answer ℕ
  string_account none = address_error invalid_address
  string_account (some account) = answer account

  abbrev pub parse_as : List ℕ → Option (List ℕ) → Answer ℕ
  parse_as address (some hex_str) = hex_account (addresses.hex_decode hex_str)
  parse_as address none = string_account (addresses.from_string address)

  unfoldable pub parse_address : List ℕ → Answer ℕ
  parse_address address = parse_as address (strip_prefix address)

  abbrev pub with_account : {A : Type 0} → Answer ℕ → (ℕ → A) → Answer A
  with_account (answer account) rest = answer (rest account)
  with_account (address_error e) rest = address_error e

  -- The block that is asked for, or else the best one.
  abbrev pub block_or : Option ℕ → ℕ → ℕ
  block_or none best_hash = best_hash
  block_or (some at) best_hash = at

  -- The balances of an account; an error of the runtime gives zeros.
  abbrev pub info_of : Option (ℕ × ℕ) → AccountInfo
  info_of none = record { free_balance = 0; reserved_balance = 0 }
  info_of (some (free, reserved)) = record { free_balance = free; reserved_balance = reserved }

  unfoldable pub get_account_info :
      ℕ → (ℕ → ℕ → Option (ℕ × ℕ)) → List ℕ → Option ℕ → Answer AccountInfo
  get_account_info best_hash account_balance address at =
      with_account (parse_address address)
        λ account. info_of (account_balance (block_or at best_hash) account)

  -- The call that is submitted at a block, with a random seed, and whether the pool takes it.
  unfoldable pub request_tokens : ℕ → ℕ → (ℕ → FaucetCall → Bool) → List ℕ → Option ℕ → Answer Bool
  request_tokens best_hash seed submit_one address at =
      with_account (parse_address address)
        λ account. submit_one (block_or at best_hash) (mint_call account seed)
