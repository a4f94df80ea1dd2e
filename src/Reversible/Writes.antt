-- ===== src/Reversible/Writes.antt =====
-- `do_schedule_transfer` of pallets/reversible-transfers/src/lib.rs with the storage that it leaves
-- on every path, for a caller that does not roll back the writes before an error, as a call of the
-- pallet does. A function of the scheduler, the preimages or the balances that fails leaves the
-- world as it was.
use chain_testing.Prelude.{ℕ, Option, none, some, ◌∷◌, Bool, ltb, if◌then◌else◌, update}
use chain_testing.Prelude.Uint.{u32_max, sat_add}
use chain_testing.Dispatch.{
  Origin, signed, unsigned, root_origin, DispatchResult, done, refused, panicked, bad_origin,
  frame_error, pallet_error,
}
use chain_testing.Reversible.Types.{
  transfer_keep_alive, execute_transfer_call, ReversibleError, account_not_reversible,
  invalid_reverser, too_many_pending_transactions, invalid_call, scheduling_failed,
  transaction_scheduled, ReversibleConfig, Substrate, Reversibles,
}
use chain_testing.Reversible.Calls.{is_other, count_one_more}

-- The result, and the storage that is left.
abbrev pub Attempt : Type 0 → Type 0
Attempt World = DispatchResult ReversibleError (Unit {0}) × Reversibles World

-- The result of a call, which keeps the storage only if it succeeds.
abbrev pub committed :
    {World : Type 0} → Attempt World → DispatchResult ReversibleError (Reversibles World)
committed (done _, t) = done t
committed (refused e, t) = refused e
committed (panicked, t) = panicked

-- Early returns at a storage.
module _ {World : Type 0} where
  abbrev pub signed_at : Origin → Reversibles World → (ℕ → Attempt World) → Attempt World
  signed_at (signed who) s rest = rest who
  signed_at unsigned s rest = (refused bad_origin, s)
  signed_at root_origin s rest = (refused bad_origin, s)

  abbrev pub ensure_at : Bool → ReversibleError → Reversibles World → Attempt World → Attempt World
  ensure_at b e s rest = if b then rest else (refused (pallet_error e), s)

  abbrev pub fail_at :
      {A : Type 0}
      → Option A
      → ReversibleError
      → Reversibles World
      → (A → Attempt World)
      → Attempt World
  fail_at none e s rest = (refused (pallet_error e), s)
  fail_at (some a) e s rest = rest a

  abbrev pub refuse_at :
      {A : Type 0} → Option A → Reversibles World → (A → Attempt World) → Attempt World
  refuse_at none s rest = (refused frame_error, s)
  refuse_at (some a) s rest = rest a

module _ {World : Type 0} (substrate : Substrate World) (c : ReversibleConfig) where
  unfoldable pub schedule_writes : ℕ → Origin → ℕ → ℕ → Reversibles World → Attempt World
  schedule_writes now origin dest amount s = signed_at origin s λ who.
      fail_at (s.reversible_accounts who) account_not_reversible s λ account_data.
        ensure_at (is_other account_data.explicit_reverser who) invalid_reverser s (
          let transfer_call = transfer_keep_alive dest amount in
          let tx_id = substrate.tx_id_of who transfer_call in
          let count = s.account_pending_index who in
          ensure_at (ltb count c.max_pending_per_account) too_many_pending_transactions s (
            let counted : Reversibles World = record s {
              account_pending_index = update s.account_pending_index who (sat_add u32_max count 1);
            } in
            let dispatch_time = sat_add c.block_max now account_data.delay in
            refuse_at (substrate.bound transfer_call s.world) counted λ (call, world).
              let bound : Reversibles World = record counted { world = world } in
              let new_pending = count_one_more (s.pending_transfers tx_id) who call amount in
              fail_at (substrate.task_name tx_id new_pending.count) invalid_call bound
                λ schedule_id.
                  let entered : Reversibles World = record bound {
                    pending_transfers = update s.pending_transfers tx_id (some new_pending);
                  } in
                  refuse_at (substrate.bound (execute_transfer_call tx_id) world) entered
                    λ (bounded_call, world).
                      fail_at
                        (substrate.schedule_named schedule_id dispatch_time c.account_id
                          bounded_call world)
                        scheduling_failed (record entered { world = world })
                        λ world.
                          refuse_at (substrate.hold who amount world)
                            (record entered { world = world })
                            λ world. (
                              done tt,
                              record entered {
                                world = world;
                                events = transaction_scheduled who tx_id dispatch_time ∷ s.events;
                              },
                            )))
