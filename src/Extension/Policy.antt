-- ===== src/Extension/Policy.antt =====
-- What becomes of the transactions of a reversible account
-- (runtime/src/transaction_extensions.rs with pallets/reversible-transfers/src/lib.rs).
use mathlib.Core.Path.{subst}
use chain_testing.Prelude.{sym, ap, ◌∙◌, ℕ, ◌≡◌, refl, Option, some, Bool, ltb}
use chain_testing.Dispatch.{
  Returns, done-Returns, ensure-Returns, ensure_signed-Returns, or_fail-Returns, or_refuse-Returns,
  try-Returns, Origin, signed, DispatchError, done, refused, panicked,
}
use chain_testing.Prelude.Uint.{sat_add}
use chain_testing.Reversible.Types
use chain_testing.Reversible.Types.{
  execute_transfer_call, DelayPolicy, explicit, intercept, ReversibleError, ReversibleAccountData,
  PendingTransfer, ReversibleConfig, Substrate, Reversibles,
}
use chain_testing.Reversible.Calls.{
  set_reversibility, do_schedule_transfer, make_schedule_id, is_other, count_one_more,
}
use chain_testing.Reversible.Scheduling.{transfer_id}
use chain_testing.Reversible.Writes.{Attempt, committed, schedule_writes}
use chain_testing.Reversible.Layered.{
  IsConfined, schedule_writes-committed, schedule_writes-IsConfined,
}
use chain_testing.Reversible.Ledger.{Runs}
use chain_testing.Reversible.Owner.{set_reversibility-stores}
use chain_testing.Extension.Validate.{
  RuntimeTransaction, transfer_keep_alive, transfer_allow_death, transfer_all, other_call, Validity,
  valid, invalid_custom, unknown_custom, transfer_of, scheduled, intercepted, by_policy, validate,
}

module _ {World : Type 0} (substrate : Substrate World) (c : ReversibleConfig)
    (held : World → ℕ → ℕ) (reducible_balance : ℕ → Bool → World → ℕ) where
  -- What is left of a transaction of a reversible account: a transfer is refused, and under the
  -- policy to intercept it is scheduled, or its scheduling fails; anything else passes.
  pub data IsChecked (now who : ℕ) (policy : DelayPolicy) (call : RuntimeTransaction)
      (s : Reversibles World) : Validity × Reversibles World → Type 0 where
    passes : (n : ℕ) → call ≡ other_call n → IsChecked now who policy call s (valid, s)
    denies :
        (dest amount : ℕ)
        → policy ≡ explicit
        → transfer_of substrate c reducible_balance who call s.world ≡ some (dest, amount)
        → IsChecked now who policy call s (invalid_custom 0, s)
    schedules :
        {t : Reversibles World}
        → (dest amount : ℕ) → policy ≡ intercept
        → transfer_of substrate c reducible_balance who call s.world ≡ some (dest, amount)
        → do_schedule_transfer substrate c now (signed who) dest amount s ≡ done t
        → IsChecked now who policy call s (unknown_custom 255, t)
    fails :
        {t : Reversibles World} {e : DispatchError ReversibleError}
        → (dest amount : ℕ) → policy ≡ intercept
        → transfer_of substrate c reducible_balance who call s.world ≡ some (dest, amount)
        → do_schedule_transfer substrate c now (signed who) dest amount s ≡ refused e
        → schedule_writes substrate c now (signed who) dest amount s ≡ (refused e, t)
        → IsConfined substrate c who (transfer_id substrate who dest amount) s t
        → IsChecked now who policy call s (invalid_custom 1, t)

  do_schedule_transfer-Returns :
      (now : ℕ) (origin : Origin) (dest amount : ℕ) (s : Reversibles World)
      → Returns (do_schedule_transfer substrate c now origin dest amount s)
  unfolding do_schedule_transfer make_schedule_id
  do_schedule_transfer-Returns now origin dest amount s = ensure_signed-Returns origin _ λ who.
      or_fail-Returns (s.reversible_accounts who) _ _ λ account_data.
        ensure-Returns (is_other account_data.explicit_reverser who) _ _ (
          ensure-Returns (ltb (s.account_pending_index who) c.max_pending_per_account) _ _ (
            let transfer = Types.transfer_keep_alive dest amount in
            let tx_id = substrate.tx_id_of who transfer in
            or_refuse-Returns (substrate.bound transfer s.world) _ λ (call, world).
              let more = count_one_more (s.pending_transfers tx_id) who call amount in
              try-Returns (make_schedule_id substrate c tx_id more.count) _
                (or_fail-Returns (substrate.task_name tx_id more.count) _ _ λ id. done-Returns id)
                λ id.
                  or_refuse-Returns (substrate.bound (execute_transfer_call tx_id) world) _
                    λ (task, world).
                      or_fail-Returns
                        (substrate.schedule_named id (sat_add c.block_max now account_data.delay)
                          c.account_id task world)
                        _ _
                        λ world.
                          or_refuse-Returns (substrate.hold who amount world) _
                            λ world. done-Returns _))

  scheduled-IsChecked :
      (now who dest amount : ℕ) (call : RuntimeTransaction) (s : Reversibles World)
      (r : Attempt World)
      → transfer_of substrate c reducible_balance who call s.world ≡ some (dest, amount)
      → schedule_writes substrate c now (signed who) dest amount s ≡ r
      → IsChecked now who intercept call s (scheduled substrate c reducible_balance r)
  scheduled-IsChecked now who dest amount call s (done tt, t) it e =
      schedules dest amount refl it (
        sym (schedule_writes-committed substrate c now (signed who) dest amount s) ∙ ap committed e)
  scheduled-IsChecked now who dest amount call s (refused error, t) it e =
      fails dest amount refl it
        (sym (schedule_writes-committed substrate c now (signed who) dest amount s)
          ∙ ap committed e)
        e
        (subst
          (λ (r : Attempt World).
            IsConfined substrate c who (transfer_id substrate who dest amount) s r.1)
          e (schedule_writes-IsConfined substrate c now who dest amount s))
  scheduled-IsChecked now who dest amount call s (panicked, t) it e = absurd (
      do_schedule_transfer-Returns now (signed who) dest amount s (
        sym (schedule_writes-committed substrate c now (signed who) dest amount s)
        ∙ ap committed e))

  -- A transfer of a destination and an amount is scheduled.
  intercepted-IsChecked :
      (now who dest amount : ℕ) (call : RuntimeTransaction) (s : Reversibles World)
      → transfer_of substrate c reducible_balance who call s.world ≡ some (dest, amount)
      → IsChecked now who intercept call s
          (intercepted substrate c reducible_balance now (signed who) (some (dest, amount)) s)
  intercepted-IsChecked now who dest amount call s it =
      scheduled-IsChecked now who dest amount call s
        (schedule_writes substrate c now (signed who) dest amount s) it refl

  by_policy-IsChecked :
      (now who : ℕ) (policy : DelayPolicy) (call : RuntimeTransaction) (s : Reversibles World)
      → IsChecked now who policy call s
          (by_policy substrate c reducible_balance now who policy call s)
  by_policy-IsChecked now who explicit (transfer_keep_alive dest value) s =
      denies dest value refl refl
  by_policy-IsChecked now who explicit (transfer_allow_death dest value) s =
      denies dest value refl refl
  by_policy-IsChecked now who explicit (transfer_all dest keep_alive) s =
      denies dest (reducible_balance who keep_alive s.world) refl refl
  by_policy-IsChecked now who explicit (other_call n) s = passes n refl
  by_policy-IsChecked now who intercept (transfer_keep_alive dest value) s =
      intercepted-IsChecked now who dest value (transfer_keep_alive dest value) s refl
  by_policy-IsChecked now who intercept (transfer_allow_death dest value) s =
      intercepted-IsChecked now who dest value (transfer_allow_death dest value) s refl
  by_policy-IsChecked now who intercept (transfer_all dest keep_alive) s =
      intercepted-IsChecked now who dest (reducible_balance who keep_alive s.world)
        (transfer_all dest keep_alive) s refl
  by_policy-IsChecked now who intercept (other_call n) s = passes n refl

  -- Once an account has made its setting, and after any run of the calls on reversible transfers:
  -- a signed transaction of the account that is not a transfer passes and changes nothing. A
  -- transfer never passes: under the explicit policy it is refused and changes nothing; under the
  -- policy to intercept, its destination and amount are scheduled as a reversible transfer. Either
  -- that succeeds, and leaves the storage of the scheduling call; or the scheduling call fails, and
  -- what it has written before stays: no setting has changed, and of the counters and entries only
  -- those of the account and of this transfer may have.
  pub set_reversibility-validate :
      (now who : ℕ) (delay : Option ℕ) (policy : DelayPolicy) (reverser : Option ℕ)
      (call : RuntimeTransaction) (s : Reversibles World) {t u : Reversibles World}
      → set_reversibility substrate c (signed who) delay policy reverser s ≡ done t
      → Runs substrate c held t u
      → IsChecked now who policy call u
          (validate substrate c reducible_balance now (signed who) call u)
  unfolding validate
  set_reversibility-validate now who delay policy reverser call s {t} {u} set runs =
      let (_, stored) =
        set_reversibility-stores substrate c held who delay policy reverser s set runs in
      rw stored (by_policy-IsChecked now who policy call u)
