-- ===== src/Reversible/Balanced.antt =====
-- Runs of the calls keep the count and the held amount of the pending transfers
-- (pallets/reversible-transfers/src/lib.rs).
use chain_testing.Prelude.{share, ℕ, ◌+◌, ◌≡◌, ◌≤◌, ◌∙◌, refl, sym, ap, Option, none, some, arith}
use chain_testing.Prelude.Uint.{u32_max}
use chain_testing.Dispatch.{ensure_signed_inv}
use chain_testing.Reversible.Types.{
  PendingTransfer, transfer_keep_alive, ReversibleConfig, Substrate, Reversibles,
}
use chain_testing.Reversible.Calls.{give_back, cancel, schedule_transfer}
use chain_testing.Reversible.Effects.{
  set_reversibility-IsSetting, IsCancelled, cancel_transfer-IsCancelled, IsExecuted,
  execute_transfer-IsExecuted,
}
use chain_testing.Reversible.Scheduling.{do_schedule_transfer-IsScheduled}
use chain_testing.Reversible.Ledger.{
  IsSubstrate, IsBalanced, Step, by_set, by_cancel, by_execute, by_schedule, by_other, Runs, stop,
  next,
}
use chain_testing.Reversible.Removal.{IsRemoval-IsBalanced}
use chain_testing.Reversible.Growth.{IsScheduled-IsBalanced}

module _ {World : Type 0} (substrate : Substrate World) (c : ReversibleConfig)
    (held : World → ℕ → ℕ) (laws : IsSubstrate substrate held) where
  give_back-held :
      (reverser : Option ℕ) (p : PendingTransfer) (w w' : World) (who : ℕ)
      → give_back substrate c reverser p w ≡ some w'
      → held w' who + share p.who who p.amount ≡ held w who
  unfolding give_back
  give_back-held none p w w' who e = laws.release_held p.who p.amount who w w' e
  give_back-held (some reverser) p w w' who e =
      laws.transfer_held p.who reverser p.amount who w w' e

  IsCancelled-IsBalanced :
      (who tx_id : ℕ) (s s' : Reversibles World)
      → IsCancelled substrate c who tx_id s s'
      → IsBalanced substrate c held s
      → IsBalanced substrate c held s'
  IsCancelled-IsBalanced who tx_id s s' e b =
      IsRemoval-IsBalanced substrate c held laws tx_id e.p s s' e.removal
        (λ j.
          give_back-held e.account_data.explicit_reverser e.p e.world s'.world j e.given_back
          ∙ laws.cancel_held e.name j s.world e.world e.unscheduled)
        b

  -- What an execution dispatches is the transfer that was scheduled under the id.
  pub IsExecuted-dispatched :
      (tx_id : ℕ) (s s' : Reversibles World) (b : IsBalanced substrate c held s)
      (e : IsExecuted substrate c tx_id s s')
      → substrate.dispatch
          (transfer_keep_alive (b.entry tx_id e.p e.removal.known).dest e.p.amount)
          e.p.who
          e.world_released
        ≡ some s'.world
  IsExecuted-dispatched tx_id s s' b e =
      let entry = b.entry tx_id e.p e.removal.known in
      rw (sym (entry.content e.call s.world e.world_realized e.realized)) e.dispatched

  IsExecuted-IsBalanced :
      (tx_id : ℕ) (s s' : Reversibles World)
      → IsExecuted substrate c tx_id s s'
      → IsBalanced substrate c held s
      → IsBalanced substrate c held s'
  IsExecuted-IsBalanced tx_id s s' e b =
      IsRemoval-IsBalanced substrate c held laws tx_id e.p s s' e.removal
        (λ j.
          let sent =
            laws.dispatch_held _ _ e.p.who j e.world_released s'.world
              (IsExecuted-dispatched tx_id s s' b e) in
          let freed =
            laws.release_held e.p.who e.p.amount j e.world_realized e.world_released e.released in
          let seen = laws.realize_held e.call e.p.call s.world e.world_realized j e.realized in
          omega arith)
        b

  same_ledger :
      (s s' : Reversibles World)
      → s'.pending_transfers ≡ s.pending_transfers
      → s'.account_pending_index ≡ s.account_pending_index
      → ((who : ℕ) → held s'.world who ≡ held s.world who)
      → IsBalanced substrate c held s
      → IsBalanced substrate c held s'
  same_ledger s s' pending index same b = record {
    ids = b.ids;
    above = λ i h. rw pending (b.above i h);
    entry = λ i p e. b.entry i p (ap (λ (m : ℕ → Option PendingTransfer). m i) (sym pending) ∙ e);
    counted = λ who. rw (pending, index) (b.counted who);
    limited = λ who. rw index (b.limited who);
    funded = λ who. rw pending (b.funded who ∙ sym (same who));
  }

  Step-IsBalanced :
      {s s' : Reversibles World}
      → c.max_pending_per_account ≤ u32_max
      → Step substrate c held s s'
      → IsBalanced substrate c held s
      → IsBalanced substrate c held s'
  unfolding cancel schedule_transfer
  Step-IsBalanced {s} {s'} top (by_set origin delay policy reverser e) b =
      let (_, _, set) = set_reversibility-IsSetting substrate c origin delay policy reverser s e in
      same_ledger s s' set.pending set.index (λ who. ap (λ w. held w who) set.world) b
  Step-IsBalanced {s} {s'} top (by_cancel origin tx_id e) b =
      let (who, _, e1) = ensure_signed_inv origin _ e in
      IsCancelled-IsBalanced who tx_id s s' (cancel_transfer-IsCancelled substrate c who tx_id s e1)
        b
  Step-IsBalanced {s} {s'} top (by_execute origin tx_id e) b =
      let (_, executed) = execute_transfer-IsExecuted substrate c origin tx_id s e in
      IsExecuted-IsBalanced tx_id s s' executed b
  Step-IsBalanced {s} {s'} top (by_schedule now origin dest amount e) b =
      let (who, _, scheduled) =
        do_schedule_transfer-IsScheduled substrate c now origin dest amount s e in
      IsScheduled-IsBalanced substrate c held laws now dest amount who s s' top scheduled b
  Step-IsBalanced {s} {s'} top (by_other world same) b = same_ledger s s' refl refl same b

  -- For a substrate as `IsSubstrate` says, and a limit that fits in 32 bits: over any run of
  -- successful calls, and of changes elsewhere that keep what is held for the pallet, the index of
  -- each account stays the number of its pending transfers and within the limit, what is held of
  -- it stays the sum of their amounts, and each pending transfer stays under the hash of its own
  -- account, destination and amount, with a call that is this transfer.
  pub Runs-IsBalanced :
      {s s' : Reversibles World}
      → c.max_pending_per_account ≤ u32_max
      → Runs substrate c held s s'
      → IsBalanced substrate c held s
      → IsBalanced substrate c held s'
  Runs-IsBalanced top stop b = b
  Runs-IsBalanced top (next before step) b = Step-IsBalanced top step (Runs-IsBalanced top before b)
