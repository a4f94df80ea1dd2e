-- ===== src/Reversible/Stuck.antt =====
-- Transfers that cannot be cancelled, since the scheduler has no task of the name that the pallet
-- asks for (`do_execute_transfer` and `cancel_transfer` of
-- pallets/reversible-transfers/src/lib.rs).
use chain_testing.Prelude.{
  ℕ, ◌≡◌, ◌≢◌, ◌∙◌, sym, ap, Option, none, some, some_eq, true, false, ==-self, update_self,
  is_some, Bool,
}
use chain_testing.Dispatch.{Origin, signed, done, refused, frame_error, ensure_signed_inv}
use chain_testing.Reversible.Types.{
  PendingTransfer, RuntimeCall, ReversibleConfig, Substrate, Reversibles,
}
use chain_testing.Reversible.Calls.{count_one_less, cancel, do_execute_transfer, execute_transfer}
use chain_testing.Reversible.Effects.{cancel_transfer-IsCancelled, execute_transfer-IsExecuted}

-- What the pallet relies on in the scheduler: a task that is not there cannot be cancelled, and the
-- other calls of an execution schedule nothing.
pub record IsScheduler {World : Type 0} (substrate : Substrate World) (has_task : World → ℕ → Bool)
    : Type 0 where
  pub cancel_missing :
      (name : ℕ) (w : World) → has_task w name ≡ false → substrate.cancel_named name w ≡ none
  pub realize_task :
      (bounded name : ℕ) (call : RuntimeCall) (w w' : World)
      → substrate.realize bounded w ≡ some (call, w')
      → has_task w' name ≡ has_task w name
  pub release_task :
      (owner amount name : ℕ) (w w' : World)
      → substrate.release owner amount w ≡ some w'
      → has_task w' name ≡ has_task w name
  pub dispatch_task :
      (call : RuntimeCall) (from name : ℕ) (w w' : World)
      → substrate.dispatch call from w ≡ some w'
      → has_task w' name ≡ has_task w name

one_left : (p : PendingTransfer) → p.count ≡ 2 → count_one_less p ≡ some (record p { count = 1 })
one_left p two = rw two

no_world : {World : Type 0} (w : World) → none ≡ some w → ⊥
no_world w e = cc

module _ {World : Type 0} (substrate : Substrate World) (c : ReversibleConfig)
    (has_task : World → ℕ → Bool) (laws : IsScheduler substrate has_task) where
  -- Nobody can cancel a transfer without a task.
  cancel-missing :
      (origin : Origin) (tx_id name : ℕ) (p : PendingTransfer) (s : Reversibles World)
      {t : Reversibles World}
      → s.pending_transfers tx_id ≡ some p
      → substrate.task_name tx_id p.count ≡ some name
      → has_task s.world name ≡ false
      → cancel substrate c origin tx_id s ≢ done t
  unfolding cancel
  cancel-missing origin tx_id name p s known named missing e =
      let (who, _, e1) = ensure_signed_inv origin _ e in
      let cancelled = cancel_transfer-IsCancelled substrate c who tx_id s e1 in
      let same : cancelled.p ≡ p = some_eq (sym cancelled.removal.known ∙ known) in
      let own : cancelled.name ≡ name = some_eq (
        sym cancelled.named
        ∙ ap (λ (q : PendingTransfer). substrate.task_name tx_id q.count) same
        ∙ named) in
      let no_task = laws.cancel_missing name s.world missing in
      let task = cancelled.unscheduled in
      no_world cancelled.world
        (sym no_task ∙ ap (λ n. substrate.cancel_named n s.world) (sym own) ∙ task)

  -- A transfer whose call fails at its execution stays pending, since the failed execution is
  -- rolled back, and after it no origin can cancel it: the scheduler has dropped its task.
  pub execute_transfer-failed :
      (origin : Origin) (tx_id name : ℕ) (p : PendingTransfer) (call : RuntimeCall)
      (s : Reversibles World) (w w' : World) {t : Reversibles World}
      → s.pending_transfers tx_id ≡ some p
      → substrate.task_name tx_id p.count ≡ some name
      → has_task s.world name ≡ false
      → substrate.realize p.call s.world ≡ some (call, w)
      → substrate.release p.who p.amount w ≡ some w'
      → substrate.dispatch call p.who w' ≡ none
      → (execute_transfer substrate c (signed c.account_id) tx_id s ≡ refused frame_error)
        × (cancel substrate c origin tx_id s ≢ done t)
  unfolding execute_transfer do_execute_transfer
  execute_transfer-failed origin tx_id name p call s w w' known named missing realized released
        failed =
      (
        rw (==-self c.account_id, known, realized, released, failed),
        cancel-missing origin tx_id name p s known named missing,
      )

  -- After one of two identical transfers was executed, by the task of the first one, which the
  -- scheduler has dropped, no origin can cancel the other one.
  pub execute_transfer-cancel :
      (origin origin' : Origin) (tx_id name : ℕ) (p : PendingTransfer) (s : Reversibles World)
      {t u : Reversibles World}
      → s.pending_transfers tx_id ≡ some p
      → p.count ≡ 2
      → substrate.task_name tx_id 1 ≡ some name
      → has_task s.world name ≡ false
      → execute_transfer substrate c origin tx_id s ≡ done t
      → (is_some (t.pending_transfers tx_id) ≡ true) × (cancel substrate c origin' tx_id t ≢ done u)
  execute_transfer-cancel origin origin' tx_id name p s {t} known two named missing e =
      let (_, executed) = execute_transfer-IsExecuted substrate c origin tx_id s e in
      let same : executed.p ≡ p = some_eq (sym executed.removal.known ∙ known) in
      let left : t.pending_transfers tx_id ≡ some (record p { count = 1 }) =
        ap (λ (m : ℕ → Option PendingTransfer). m tx_id) executed.removal.pending
        ∙ update_self s.pending_transfers tx_id (count_one_less executed.p)
        ∙ ap count_one_less same
        ∙ one_left p two in
      let gone : has_task t.world name ≡ false =
        laws.dispatch_task executed.call executed.p.who name executed.world_released t.world
          executed.dispatched
        ∙ laws.release_task executed.p.who executed.p.amount name executed.world_realized
            executed.world_released executed.released
        ∙ laws.realize_task executed.p.call name executed.call s.world executed.world_realized
            executed.realized
        ∙ missing in
      (
        ap is_some left,
        cancel-missing origin' tx_id name (record p { count = 1 }) t left named gone,
      )
