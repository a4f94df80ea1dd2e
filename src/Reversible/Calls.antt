-- ===== src/Reversible/Calls.antt =====
-- The calls of pallets/reversible-transfers/src/lib.rs.
use chain_testing.Prelude.{
  ℕ, Option, none, some, List, [], ◌∷◌, Bool, true, false, not, ltb, leb, ◌==◌, if◌then◌else◌,
  is_some, update, Map,
}
use chain_testing.Prelude.Uint.{u32_max, sat_add, sat_sub}
use chain_testing.Dispatch.{
  Origin, DispatchResult, done, refused, frame_error, ensure, ensure_signed, or_fail, or_refuse,
  try,
}
use chain_testing.Reversible.Types.{
  DelayPolicy, explicit, ReversibleAccountData, PendingTransfer, transfer_keep_alive,
  execute_transfer_call, ReversibleError, account_already_reversible, account_not_reversible,
  explicit_reverser_can_not_be_self, pending_tx_not_found, not_owner, too_many_pending_transactions,
  delay_too_short, scheduling_failed, cancellation_failed, call_decoding_failed, invalid_call,
  invalid_scheduler_origin, invalid_reverser, reversibility_set, transaction_scheduled,
  transaction_cancelled, transaction_executed, ReversibleConfig, Substrate, Reversibles,
}

abbrev pub unwrap_or : Option ℕ → ℕ → ℕ
unwrap_or none d = d
unwrap_or (some n) d = n

-- `reverser != Some(who)`, and the check of an explicit reverser when a transfer is scheduled.
abbrev pub is_other : Option ℕ → ℕ → Bool
is_other none who = true
is_other (some reverser) who = not (who == reverser)

-- Who may cancel: the explicit reverser, or else the owner.
abbrev pub ensure_may_cancel :
    {A : Type 0}
    → Option ℕ
    → ℕ
    → ℕ
    → DispatchResult ReversibleError A
    → DispatchResult ReversibleError A
ensure_may_cancel none owner who rest = ensure (owner == who) not_owner rest
ensure_may_cancel (some reverser) owner who rest = ensure (who == reverser) invalid_reverser rest

-- One more of the identical transfers of an account.
abbrev pub count_one_more : Option PendingTransfer → ℕ → ℕ → ℕ → PendingTransfer
count_one_more (some pending) who call amount = record {
  who = who;
  call = call;
  amount = amount;
  count = sat_add u32_max pending.count 1;
}
count_one_more none who call amount = record { who = who; call = call; amount = amount; count = 1 }

-- One less of the identical transfers; the last one is removed.
abbrev pub count_one_less : PendingTransfer → Option PendingTransfer
count_one_less pending =
    if ltb 1 pending.count then some (record pending { count = sat_sub pending.count 1 }) else none

-- The execution or cancellation of one transfer, in the pallet's storage.
abbrev pub remove_one :
    {World : Type 0} → ℕ → PendingTransfer → Reversibles World → Reversibles World
remove_one tx_id pending s = record s {
  pending_transfers = update s.pending_transfers tx_id (count_one_less pending);
  account_pending_index =
      update s.account_pending_index pending.who (sat_sub (s.account_pending_index pending.who) 1);
}

-- The world after a call: a call that fails leaves it as it was.
abbrev pub world_after : {World : Type 0} → Option World → World → World
world_after none world = world
world_after (some next) world = next

module _ {World : Type 0} (substrate : Substrate World) (c : ReversibleConfig) where
  unfoldable pub set_reversibility :
      Origin
      → Option ℕ
      → DelayPolicy
      → Option ℕ
      → Reversibles World
      → DispatchResult ReversibleError (Reversibles World)
  set_reversibility origin delay policy reverser s = ensure_signed origin λ who.
      ensure (not (is_some (s.reversible_accounts who))) account_already_reversible (
        ensure (is_other reverser who) explicit_reverser_can_not_be_self (
          let delay = unwrap_or delay c.default_delay in
          ensure (leb c.min_delay_period delay) delay_too_short (
            let account_data : ReversibleAccountData = record {
              explicit_reverser = reverser;
              delay = delay;
              policy = policy;
            } in
            done (record s {
              reversible_accounts = update s.reversible_accounts who (some account_data);
              events = reversibility_set who account_data ∷ s.events;
            }))))

  unfoldable pub make_schedule_id : ℕ → ℕ → DispatchResult ReversibleError ℕ
  make_schedule_id tx_id nonce =
      or_fail (substrate.task_name tx_id nonce) invalid_call λ id. done id

  -- The end of a cancellation: the held amount goes to the explicit reverser, or is released.
  unfoldable pub give_back : Option ℕ → PendingTransfer → World → Option World
  give_back (some reverser) pending world =
      substrate.transfer_on_hold pending.who reverser pending.amount world
  give_back none pending world = substrate.release pending.who pending.amount world

  unfoldable pub cancel_transfer :
      ℕ → ℕ → Reversibles World → DispatchResult ReversibleError (Reversibles World)
  unfolding make_schedule_id give_back
  cancel_transfer who tx_id s = or_fail (s.pending_transfers tx_id) pending_tx_not_found λ pending.
      or_fail (s.reversible_accounts pending.who) account_not_reversible λ account_data.
        ensure_may_cancel account_data.explicit_reverser pending.who who (
          let s1 = remove_one tx_id pending s in
          try (make_schedule_id tx_id pending.count) λ schedule_id.
            or_fail (substrate.cancel_named schedule_id s1.world) cancellation_failed λ world.
              or_refuse (give_back account_data.explicit_reverser pending world) λ world.
                done (record s1 {
                  world = world;
                  events = transaction_cancelled who tx_id ∷ s1.events;
                }))

  unfoldable pub cancel :
      Origin → ℕ → Reversibles World → DispatchResult ReversibleError (Reversibles World)
  unfolding cancel_transfer
  cancel origin tx_id s = ensure_signed origin λ who. cancel_transfer who tx_id s

  -- The result is that of the call: if it fails, so does the execution.
  unfoldable pub do_execute_transfer :
      ℕ → Reversibles World → DispatchResult ReversibleError (Reversibles World)
  do_execute_transfer tx_id s = or_fail (s.pending_transfers tx_id) pending_tx_not_found λ pending.
      or_fail (substrate.realize pending.call s.world) call_decoding_failed λ (call, world).
        or_refuse (substrate.release pending.who pending.amount world) λ world.
          let post_info = substrate.dispatch call pending.who world in
          let s1 = remove_one tx_id pending s in
          let s2 : Reversibles World = record s1 {
            world = world_after post_info world;
            events = transaction_executed tx_id (is_some post_info) ∷ s1.events;
          } in
          if is_some post_info then done s2 else refused frame_error

  unfoldable pub execute_transfer :
      Origin → ℕ → Reversibles World → DispatchResult ReversibleError (Reversibles World)
  unfolding do_execute_transfer
  execute_transfer origin tx_id s =
      ensure_signed origin
        λ who. ensure (who == c.account_id) invalid_scheduler_origin (do_execute_transfer tx_id s)

  -- `now` is the current block number.
  unfoldable pub do_schedule_transfer :
      ℕ → Origin → ℕ → ℕ → Reversibles World → DispatchResult ReversibleError (Reversibles World)
  unfolding make_schedule_id
  do_schedule_transfer now origin dest amount s = ensure_signed origin λ who.
      or_fail (s.reversible_accounts who) account_not_reversible λ account_data.
        ensure (is_other account_data.explicit_reverser who) invalid_reverser (
          let transfer_call = transfer_keep_alive dest amount in
          let tx_id = substrate.tx_id_of who transfer_call in
          let count = s.account_pending_index who in
          ensure (ltb count c.max_pending_per_account) too_many_pending_transactions (
            let dispatch_time = sat_add c.block_max now account_data.delay in
            or_refuse (substrate.bound transfer_call s.world) λ (call, world).
              let new_pending = count_one_more (s.pending_transfers tx_id) who call amount in
              try (make_schedule_id tx_id new_pending.count) λ schedule_id.
                or_refuse (substrate.bound (execute_transfer_call tx_id) world)
                  λ (bounded_call, world).
                    or_fail
                      (substrate.schedule_named schedule_id dispatch_time c.account_id bounded_call
                        world)
                      scheduling_failed
                      λ world. or_refuse (substrate.hold who amount world) λ world. done (record s {
                        pending_transfers = update s.pending_transfers tx_id (some new_pending);
                        account_pending_index =
                            update s.account_pending_index who (sat_add u32_max count 1);
                        world = world;
                        events = transaction_scheduled who tx_id dispatch_time ∷ s.events;
                      })))

  unfoldable pub schedule_transfer :
      ℕ → Origin → ℕ → ℕ → Reversibles World → DispatchResult ReversibleError (Reversibles World)
  unfolding do_schedule_transfer
  schedule_transfer now origin dest amount s = do_schedule_transfer now origin dest amount s

  -- The genesis: accounts with a delay, of which those below the minimum are left out.
  unfoldable pub build_accounts :
      List (ℕ × ℕ) → Map ReversibleAccountData → Map ReversibleAccountData
  build_accounts [] accounts = accounts
  build_accounts ((who, delay) ∷ rest) accounts = build_accounts rest (
      if leb c.min_delay_period delay
      then update accounts who
          (some (record { explicit_reverser = none; delay = delay; policy = explicit }))
      else accounts)

  -- `integrity_test` panics unless the minimum is positive and at most the default.
  abbrev pub integrity_test : Bool
  integrity_test =
      if ltb 0 c.min_delay_period then leb c.min_delay_period c.default_delay else false
