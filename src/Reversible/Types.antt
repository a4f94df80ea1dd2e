-- ===== src/Reversible/Types.antt =====
-- The data and the storage of pallets/reversible-transfers/src/lib.rs, and what it calls outside.
use chain_testing.Prelude.{ℕ, Option, List, Bool, Map}

pub data DelayPolicy : Type 0 where
  explicit intercept : DelayPolicy

pub record ReversibleAccountData : Type 0 where
  pub explicit_reverser : Option ℕ
  pub delay : ℕ
  pub policy : DelayPolicy

-- `call` is the bounded form of the call, under which its preimage is stored.
pub record PendingTransfer : Type 0 where
  pub who : ℕ
  pub call : ℕ
  pub amount : ℕ
  pub count : ℕ

-- The calls that the pallet builds: one of the balances pallet and one of its own.
pub data RuntimeCall : Type 0 where
  transfer_keep_alive : ℕ → ℕ → RuntimeCall
  execute_transfer_call : ℕ → RuntimeCall

pub data ReversibleError : Type 0 where
  account_already_reversible account_not_reversible : ReversibleError
  explicit_reverser_can_not_be_self pending_tx_not_found not_owner : ReversibleError
  too_many_pending_transactions delay_too_short scheduling_failed : ReversibleError
  cancellation_failed call_decoding_failed invalid_call : ReversibleError
  invalid_scheduler_origin invalid_reverser : ReversibleError

-- The Boolean of an execution is the success of its call.
pub data ReversibleEvent : Type 0 where
  reversibility_set : ℕ → ReversibleAccountData → ReversibleEvent
  transaction_scheduled : ℕ → ℕ → ℕ → ReversibleEvent
  transaction_cancelled : ℕ → ℕ → ReversibleEvent
  transaction_executed : ℕ → Bool → ReversibleEvent

-- `account_id` is the pallet's own account, and `block_max` the largest block number.
pub record ReversibleConfig : Type 0 where
  pub max_pending_per_account : ℕ
  pub default_delay : ℕ
  pub min_delay_period : ℕ
  pub account_id : ℕ
  pub block_max : ℕ

-- The scheduler, the preimages and the balances are kept in `World`; `none` is an error.
-- `tx_id_of` is the hash of an account and a call, and `task_name` that of an id and a count.
-- `schedule_named` takes the name, the block, the account of the origin, and the bounded call;
-- `dispatch` runs a call of the balances pallet for an account.
pub record Substrate (World : Type 0) : Type 0 where
  pub tx_id_of : ℕ → RuntimeCall → ℕ
  pub task_name : ℕ → ℕ → Option ℕ
  pub bound : RuntimeCall → World → Option (ℕ × World)
  pub realize : ℕ → World → Option (RuntimeCall × World)
  pub schedule_named : ℕ → ℕ → ℕ → ℕ → World → Option World
  pub cancel_named : ℕ → World → Option World
  pub hold : ℕ → ℕ → World → Option World
  pub release : ℕ → ℕ → World → Option World
  pub transfer_on_hold : ℕ → ℕ → ℕ → World → Option World
  pub dispatch : RuntimeCall → ℕ → World → Option World

pub record Reversibles (World : Type 0) : Type 0 where
  pub reversible_accounts : Map ReversibleAccountData
  pub pending_transfers : Map PendingTransfer
  pub account_pending_index : ℕ → ℕ
  pub world : World
  pub events : List ReversibleEvent
