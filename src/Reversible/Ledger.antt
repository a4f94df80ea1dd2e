-- ===== src/Reversible/Ledger.antt =====
-- The well-formed states of pallets/reversible-transfers/src/lib.rs, and what the pallet relies on.
use chain_testing.Prelude.{share, ℕ, ◌+◌, ◌≡◌, ◌≤◌, Option, none, some}
use chain_testing.Prelude.Totals.{total_of}
use chain_testing.Dispatch.{Origin, done}
use chain_testing.Reversible.Types.{
  DelayPolicy, PendingTransfer, RuntimeCall, transfer_keep_alive, ReversibleConfig, Substrate,
  Reversibles,
}
use chain_testing.Reversible.Calls.{set_reversibility, cancel, execute_transfer, schedule_transfer}
use chain_testing.Reversible.Scheduling.{transfer_id}
use chain_testing.Reversible.Weights.{count_of, amount_of}

-- `held world who` is what is held of an account for this pallet. Only the calls for holds change
-- it, by exactly their amount. Hashes do not collide, and a bounded call is realized as itself.
pub record IsSubstrate {World : Type 0} (substrate : Substrate World) (held : World → ℕ → ℕ)
    : Type 0 where
  pub same_id :
      (who who' dest dest' amount amount' : ℕ)
      → transfer_id substrate who dest amount ≡ transfer_id substrate who' dest' amount'
      → (who ≡ who') × (dest ≡ dest') × (amount ≡ amount')
  pub content :
      (call call' : RuntimeCall) (bounded : ℕ) (w w' v v' : World)
      → substrate.bound call w ≡ some (bounded, w')
      → substrate.realize bounded v ≡ some (call', v')
      → call' ≡ call
  pub bound_held :
      (call : RuntimeCall) (bounded : ℕ) (w w' : World) (who : ℕ)
      → substrate.bound call w ≡ some (bounded, w')
      → held w' who ≡ held w who
  pub realize_held :
      (call : RuntimeCall) (bounded : ℕ) (w w' : World) (who : ℕ)
      → substrate.realize bounded w ≡ some (call, w')
      → held w' who ≡ held w who
  pub schedule_held :
      (name at origin call who : ℕ) (w w' : World)
      → substrate.schedule_named name at origin call w ≡ some w'
      → held w' who ≡ held w who
  pub cancel_held :
      (name who : ℕ) (w w' : World)
      → substrate.cancel_named name w ≡ some w'
      → held w' who ≡ held w who
  pub dispatch_held :
      (dest amount from who : ℕ) (w w' : World)
      → substrate.dispatch (transfer_keep_alive dest amount) from w ≡ some w'
      → held w' who ≡ held w who
  pub hold_held :
      (owner amount who : ℕ) (w w' : World)
      → substrate.hold owner amount w ≡ some w'
      → held w' who ≡ held w who + share owner who amount
  pub release_held :
      (owner amount who : ℕ) (w w' : World)
      → substrate.release owner amount w ≡ some w'
      → held w' who + share owner who amount ≡ held w who
  pub transfer_held :
      (owner reverser amount who : ℕ) (w w' : World)
      → substrate.transfer_on_hold owner reverser amount w ≡ some w'
      → held w' who + share owner who amount ≡ held w who

module _ {World : Type 0} (substrate : Substrate World) (c : ReversibleConfig)
    (held : World → ℕ → ℕ) where
  -- A pending transfer is kept under its own id, and its bounded call is that transfer.
  pub record IsEntry (tx_id : ℕ) (p : PendingTransfer) : Type 0 where
    pub dest : ℕ
    pub own_id : tx_id ≡ transfer_id substrate p.who dest p.amount
    pub positive : 1 ≤ p.count
    pub content :
        (call : RuntimeCall) (w w' : World)
        → substrate.realize p.call w ≡ some (call, w')
        → call ≡ transfer_keep_alive dest p.amount

  -- The pending transfers have ids below `ids`; each account's index is their number, which is
  -- within the limit, and what is held of the account is the sum of their amounts.
  pub record IsBalanced (s : Reversibles World) : Type 0 where
    pub ids : ℕ
    pub above : (i : ℕ) → ids ≤ i → s.pending_transfers i ≡ none
    pub entry :
        (tx_id : ℕ) (p : PendingTransfer) → s.pending_transfers tx_id ≡ some p → IsEntry tx_id p
    pub counted :
        (who : ℕ) → total_of (count_of who) ids s.pending_transfers ≡ s.account_pending_index who
    pub limited : (who : ℕ) → s.account_pending_index who ≤ c.max_pending_per_account
    pub funded : (who : ℕ) → total_of (amount_of who) ids s.pending_transfers ≡ held s.world who

  -- A successful call, or a change elsewhere that keeps what is held for this pallet.
  pub data Step (s : Reversibles World) : Reversibles World → Type 0 where
    by_set :
        {s' : Reversibles World}
        → (origin : Origin) (delay : Option ℕ) (policy : DelayPolicy) (reverser : Option ℕ)
        → set_reversibility substrate c origin delay policy reverser s ≡ done s'
        → Step s s'
    by_cancel :
        {s' : Reversibles World}
        → (origin : Origin) (tx_id : ℕ) → cancel substrate c origin tx_id s ≡ done s'
        → Step s s'
    by_execute :
        {s' : Reversibles World}
        → (origin : Origin) (tx_id : ℕ) → execute_transfer substrate c origin tx_id s ≡ done s'
        → Step s s'
    by_schedule :
        {s' : Reversibles World}
        → (now : ℕ) (origin : Origin) (dest amount : ℕ)
        → schedule_transfer substrate c now origin dest amount s ≡ done s'
        → Step s s'
    by_other :
        (world : World)
        → ((who : ℕ) → held world who ≡ held s.world who)
        → Step s (record s { world = world })

  pub data Runs (s : Reversibles World) : Reversibles World → Type 0 where
    stop : Runs s s
    next : {t u : Reversibles World} → Runs s t → Step t u → Runs s u
