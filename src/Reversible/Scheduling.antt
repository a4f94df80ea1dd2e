-- ===== src/Reversible/Scheduling.antt =====
-- What `do_schedule_transfer` of pallets/reversible-transfers/src/lib.rs has done.
use chain_testing.Prelude.{ℕ, ◌≡◌, ◌∙◌, ◌<◌, sym, ap, some, ltb, ltb→lt, update}
use chain_testing.Prelude.Uint.{u32_max, sat_add}
use chain_testing.Dispatch.{
  Origin, done, done_eq, ensure_inv, ensure_signed_inv, or_fail_inv, or_refuse_inv, try_inv, signed,
}
use chain_testing.Reversible.Types.{
  ReversibleAccountData, transfer_keep_alive, execute_transfer_call, ReversibleConfig, Substrate,
  Reversibles,
}
use chain_testing.Reversible.Calls.{
  is_other, count_one_more, make_schedule_id, do_schedule_transfer,
}

-- The id of a transfer, which identical transfers of an account share.
abbrev pub transfer_id : {World : Type 0} → Substrate World → ℕ → ℕ → ℕ → ℕ
transfer_id substrate who dest amount = substrate.tx_id_of who (transfer_keep_alive dest amount)

module _ {World : Type 0} (substrate : Substrate World) (c : ReversibleConfig) where
  -- One transfer more: its task is scheduled and its amount is held.
  pub record IsScheduled (now dest amount who : ℕ) (s s' : Reversibles World) : Type 0 where
    pub account_data : ReversibleAccountData
    pub call : ℕ
    pub bounded_call : ℕ
    pub schedule_id : ℕ
    pub world_bound : World
    pub world_both : World
    pub world_scheduled : World
    pub reversible : s.reversible_accounts who ≡ some account_data
    pub below : s.account_pending_index who < c.max_pending_per_account
    pub bound_call :
        substrate.bound (transfer_keep_alive dest amount) s.world ≡ some (call, world_bound)
    pub named :
        substrate.task_name
          (transfer_id substrate who dest amount)
          (count_one_more
            (s.pending_transfers (transfer_id substrate who dest amount))
            who
            call
            amount).count
        ≡ some schedule_id
    pub bound_task :
        substrate.bound (execute_transfer_call (transfer_id substrate who dest amount)) world_bound
        ≡ some (bounded_call, world_both)
    pub scheduled :
        substrate.schedule_named schedule_id
          (sat_add c.block_max now account_data.delay)
          c.account_id
          bounded_call
          world_both
        ≡ some world_scheduled
    pub held : substrate.hold who amount world_scheduled ≡ some s'.world
    pub accounts : s'.reversible_accounts ≡ s.reversible_accounts
    pub pending :
        s'.pending_transfers
        ≡ update s.pending_transfers (transfer_id substrate who dest amount) (
            some (
              count_one_more
                (s.pending_transfers (transfer_id substrate who dest amount))
                who
                call
                amount))
    pub index :
        s'.account_pending_index
        ≡ update s.account_pending_index who (sat_add u32_max (s.account_pending_index who) 1)

  pub do_schedule_transfer-IsScheduled :
      (now : ℕ) (origin : Origin) (dest amount : ℕ) (s : Reversibles World) {s' : Reversibles World}
      → do_schedule_transfer substrate c now origin dest amount s ≡ done s'
      → (who : ℕ) × (origin ≡ signed who) × IsScheduled now dest amount who s s'
  unfolding do_schedule_transfer make_schedule_id
  do_schedule_transfer-IsScheduled now origin dest amount s {s'} e =
      let (who, from, e1) = ensure_signed_inv origin _ e in
      let (account_data, reversible, e2) = or_fail_inv (s.reversible_accounts who) _ _ e1 in
      let (_, e3) = ensure_inv (is_other account_data.explicit_reverser who) _ _ e2 in
      let (below, e4) =
        ensure_inv (ltb (s.account_pending_index who) c.max_pending_per_account) _ _ e3 in
      let ((call, world1), bound_call, e5) =
        or_refuse_inv (substrate.bound (transfer_keep_alive dest amount) s.world) _ e4 in
      let tx_id = transfer_id substrate who dest amount in
      let more = count_one_more (s.pending_transfers tx_id) who call amount in
      let (id, e6, e7) = try_inv (make_schedule_id substrate c tx_id more.count) _ e5 in
      let (name, named, e8) = or_fail_inv (substrate.task_name tx_id more.count) _ _ e6 in
      let ((task, world2), bound_task, e9) =
        or_refuse_inv (substrate.bound (execute_transfer_call tx_id) world1) _ e7 in
      let (world3, scheduled, e10) =
        or_fail_inv
          (substrate.schedule_named id (sat_add c.block_max now account_data.delay) c.account_id
            task world2)
          _ _ e9 in
      let (world4, held, e11) = or_refuse_inv (substrate.hold who amount world3) _ e10 in
      let end = done_eq e11 in
      (
        who,
        from,
        record {
          account_data = account_data;
          call = call;
          bounded_call = task;
          schedule_id = id;
          world_bound = world1;
          world_both = world2;
          world_scheduled = world3;
          reversible = reversible;
          below = ltb→lt _ _ below;
          bound_call = bound_call;
          named = named ∙ ap some (done_eq e8);
          bound_task = bound_task;
          scheduled = scheduled;
          held = held ∙ ap (λ (t : Reversibles World). some t.world) end;
          accounts = sym (ap (λ (t : Reversibles World). t.reversible_accounts) end);
          pending = sym (ap (λ (t : Reversibles World). t.pending_transfers) end);
          index = sym (ap (λ (t : Reversibles World). t.account_pending_index) end);
        },
      )
