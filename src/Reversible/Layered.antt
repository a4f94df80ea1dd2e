-- ===== src/Reversible/Layered.antt =====
-- What a scheduling that is not rolled back leaves (pallets/reversible-transfers/src/lib.rs).
use chain_testing.Prelude.{
  ℕ, ◌≡◌, ◌≢◌, refl, Option, none, some, List, Bool, true, false, ltb, update, update-ne,
}
use chain_testing.Prelude.Uint.{u32_max, sat_add}
use chain_testing.Dispatch.{
  Origin, signed, unsigned, root_origin, DispatchResult, ensure, ensure_signed, or_fail, or_refuse,
  try, done,
}
use chain_testing.Reversible.Types.{
  transfer_keep_alive, execute_transfer_call, ReversibleError, ReversibleEvent, PendingTransfer,
  ReversibleConfig, Substrate, Reversibles,
}
use chain_testing.Reversible.Calls.{
  is_other, count_one_more, make_schedule_id, do_schedule_transfer,
}
use chain_testing.Reversible.Scheduling.{transfer_id}
use chain_testing.Reversible.Writes.{
  Attempt, committed, signed_at, ensure_at, fail_at, refuse_at, schedule_writes,
}

abbrev Result : Type 0 → Type 0
Result World = DispatchResult ReversibleError (Reversibles World)

module _ {World : Type 0} where
  -- Each early return has the result of its counterpart without a storage.
  signed_at-committed :
      (origin : Origin) (s : Reversibles World) (rest : ℕ → Attempt World)
      (rest' : ℕ → Result World)
      → ((who : ℕ) → committed (rest who) ≡ rest' who)
      → committed (signed_at origin s rest) ≡ ensure_signed origin rest'
  signed_at-committed (signed who) s rest rest' h = h who
  signed_at-committed unsigned s rest rest' h = refl
  signed_at-committed root_origin s rest rest' h = refl

  ensure_at-committed :
      (b : Bool) (e : ReversibleError) (s : Reversibles World) (rest : Attempt World)
      (rest' : Result World)
      → committed rest ≡ rest'
      → committed (ensure_at b e s rest) ≡ ensure b e rest'
  ensure_at-committed true e s rest rest' h = h
  ensure_at-committed false e s rest rest' h = refl

  fail_at-committed :
      {A : Type 0} (o : Option A) (e : ReversibleError) (s : Reversibles World)
      (rest : A → Attempt World) (rest' : A → Result World)
      → ((a : A) → committed (rest a) ≡ rest' a)
      → committed (fail_at o e s rest) ≡ or_fail o e rest'
  fail_at-committed none e s rest rest' h = refl
  fail_at-committed (some a) e s rest rest' h = h a

  fail_at-try :
      {A : Type 0} (o : Option A) (e : ReversibleError) (s : Reversibles World)
      (rest : A → Attempt World) (rest' : A → Result World)
      → ((a : A) → committed (rest a) ≡ rest' a)
      → committed (fail_at o e s rest) ≡ try (or_fail o e λ a. done a) rest'
  fail_at-try none e s rest rest' h = refl
  fail_at-try (some a) e s rest rest' h = h a

  refuse_at-committed :
      {A : Type 0} (o : Option A) (s : Reversibles World) (rest : A → Attempt World)
      (rest' : A → Result World)
      → ((a : A) → committed (rest a) ≡ rest' a)
      → committed (refuse_at o s rest) ≡ or_refuse o rest'
  refuse_at-committed none s rest rest' h = refl
  refuse_at-committed (some a) s rest rest' h = h a

  -- What holds of the storage of each path holds of the storage that is left.
  module _ (P : Reversibles World → Type 0) where
    ensure_at-left :
        (b : Bool) (e : ReversibleError) (s : Reversibles World) (rest : Attempt World)
        → P s
        → P rest.1
        → P (ensure_at b e s rest).1
    ensure_at-left true e s rest p h = h
    ensure_at-left false e s rest p h = p

    fail_at-left :
        {A : Type 0} (o : Option A) (e : ReversibleError) (s : Reversibles World)
        (rest : A → Attempt World)
        → P s
        → ((a : A) → P (rest a).1)
        → P (fail_at o e s rest).1
    fail_at-left none e s rest p h = p
    fail_at-left (some a) e s rest p h = h a

    refuse_at-left :
        {A : Type 0} (o : Option A) (s : Reversibles World) (rest : A → Attempt World)
        → P s
        → ((a : A) → P (rest a).1)
        → P (refuse_at o s rest).1
    refuse_at-left none s rest p h = p
    refuse_at-left (some a) s rest p h = h a

module _ {World : Type 0} (substrate : Substrate World) (c : ReversibleConfig) where
  -- The result of a scheduling that is rolled back on an error is that of the call.
  pub schedule_writes-committed :
      (now : ℕ) (origin : Origin) (dest amount : ℕ) (s : Reversibles World)
      → committed (schedule_writes substrate c now origin dest amount s)
        ≡ do_schedule_transfer substrate c now origin dest amount s
  unfolding schedule_writes do_schedule_transfer make_schedule_id
  schedule_writes-committed now origin dest amount s = signed_at-committed origin s _ _ λ who.
      fail_at-committed (s.reversible_accounts who) _ s _ _ λ account_data.
        ensure_at-committed (is_other account_data.explicit_reverser who) _ s _ _ (
          let tx_id = transfer_id substrate who dest amount in
          ensure_at-committed (ltb (s.account_pending_index who) c.max_pending_per_account) _ s _ _
            (refuse_at-committed (substrate.bound (transfer_keep_alive dest amount) s.world) _ _ _
              λ (call, world).
                let more = count_one_more (s.pending_transfers tx_id) who call amount in
                fail_at-try (substrate.task_name tx_id more.count) _ _ _ _ λ id.
                  refuse_at-committed (substrate.bound (execute_transfer_call tx_id) world) _ _ _
                    λ (task, world).
                      fail_at-committed
                        (substrate.schedule_named id (sat_add c.block_max now account_data.delay)
                          c.account_id task world)
                        _ _ _ _
                        λ world.
                          refuse_at-committed (substrate.hold who amount world) _ _ _
                            λ world. refl))

  -- At most the world, the counter of an account and one entry have changed, and the events.
  pub record IsConfined (who tx_id : ℕ) (s t : Reversibles World) : Type 0 where
    pub settings : t.reversible_accounts ≡ s.reversible_accounts
    pub others :
        (other : ℕ) → other ≢ who → t.account_pending_index other ≡ s.account_pending_index other
    pub entries : (key : ℕ) → key ≢ tx_id → t.pending_transfers key ≡ s.pending_transfers key

  same : (who tx_id : ℕ) (s : Reversibles World) → IsConfined who tx_id s s
  same who tx_id s = record {
    settings = refl;
    others = λ other apart. refl;
    entries = λ key apart. refl;
  }

  counted :
      (who tx_id n : ℕ) (w : World) (s : Reversibles World)
      → IsConfined who tx_id s
          (record s { account_pending_index = update s.account_pending_index who n; world = w })
  counted who tx_id n w s = record {
    settings = refl;
    others = λ other apart. update-ne s.account_pending_index who other n apart;
    entries = λ key apart. refl;
  }

  entered :
      (who tx_id n : ℕ) (more : PendingTransfer) (w : World) (events : List ReversibleEvent)
      (s : Reversibles World)
      → IsConfined who tx_id s (record s {
        account_pending_index = update s.account_pending_index who n;
        pending_transfers = update s.pending_transfers tx_id (some more);
        world = w;
        events = events;
      })
  entered who tx_id n more w events s = record {
    settings = refl;
    others = λ other apart. update-ne s.account_pending_index who other n apart;
    entries = λ key apart. update-ne s.pending_transfers tx_id key (some more) apart;
  }

  -- A scheduling, whether it succeeds or not, changes no setting, and in the counters and entries
  -- only those of its account and of its transfer.
  pub schedule_writes-IsConfined :
      (now who dest amount : ℕ) (s : Reversibles World)
      → IsConfined who
          (transfer_id substrate who dest amount)
          s
          (schedule_writes substrate c now (signed who) dest amount s).1
  unfolding schedule_writes
  schedule_writes-IsConfined now who dest amount s =
      let tx_id = transfer_id substrate who dest amount in
      let P = IsConfined who tx_id s in
      let n = sat_add u32_max (s.account_pending_index who) 1 in
      fail_at-left P (s.reversible_accounts who) _ s _ (same who tx_id s) λ account_data.
        ensure_at-left P (is_other account_data.explicit_reverser who) _ s _ (same who tx_id s) (
          ensure_at-left P (ltb (s.account_pending_index who) c.max_pending_per_account) _ s _
            (same who tx_id s)
            (refuse_at-left P (substrate.bound (transfer_keep_alive dest amount) s.world) _ _
              (counted who tx_id n s.world s)
              λ (call, world).
                let more = count_one_more (s.pending_transfers tx_id) who call amount in
                fail_at-left P (substrate.task_name tx_id more.count) _ _ _
                  (counted who tx_id n world s)
                  λ id.
                    refuse_at-left P (substrate.bound (execute_transfer_call tx_id) world) _ _
                      (entered who tx_id n more world s.events s)
                      λ (task, world).
                        fail_at-left P
                          (substrate.schedule_named id (sat_add c.block_max now account_data.delay)
                            c.account_id task world)
                          _ _ _ (entered who tx_id n more world s.events s)
                          λ world.
                            refuse_at-left P (substrate.hold who amount world) _ _
                              (entered who tx_id n more world s.events s)
                              λ world. entered who tx_id n more world _ s))
