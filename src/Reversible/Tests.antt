-- ===== src/Reversible/Tests.antt =====
-- The theorems on the reversible transfers at a concrete run.
use chain_testing.Prelude.{ℕ, ◌≡◌, ◌≢◌, refl, none, some, false, update, arith}
use chain_testing.Dispatch.{signed, done, refused, frame_error}
use chain_testing.Reversible.Types.{explicit, PendingTransfer, transfer_keep_alive, Reversibles}
use chain_testing.Reversible.Calls.{
  set_reversibility, cancel, cancel_transfer, execute_transfer, do_schedule_transfer,
  schedule_transfer, make_schedule_id, give_back,
}
use chain_testing.Reversible.Effects.{canceller}
use chain_testing.Reversible.Scheduling.{transfer_id}
use chain_testing.Reversible.Ledger.{IsBalanced, Runs, stop, next, by_set, by_schedule}
use chain_testing.Reversible.Balanced.{Runs-IsBalanced}
use chain_testing.Reversible.Owner.{set_reversibility-cancel}
use chain_testing.Reversible.Stuck.{execute_transfer-failed}
use chain_testing.Reversible.Example.{
  World, config, held, held_task, genesis, after, pair, gain, lose, substrate,
  substrate-IsSubstrate, substrate-IsScheduler,
}

-- Account 1 sets a delay of 5 blocks and the reverser 7, and schedules two transfers of 10 to
-- account 2, of which the first is executed.
abbrev set_up : Reversibles World
unfolding set_reversibility
set_up =
    after (set_reversibility substrate config (signed 1) (some 5) explicit (some 7) genesis) genesis

sets :
    set_reversibility substrate config (signed 1) (some 5) explicit (some 7) genesis ≡ done set_up
unfolding set_reversibility
sets = refl

abbrev first : Reversibles World
unfolding schedule_transfer do_schedule_transfer make_schedule_id
first = after (schedule_transfer substrate config 100 (signed 1) 2 10 set_up) set_up

schedules_first : schedule_transfer substrate config 100 (signed 1) 2 10 set_up ≡ done first
unfolding schedule_transfer do_schedule_transfer make_schedule_id set_up
schedules_first = refl

abbrev second : Reversibles World
unfolding schedule_transfer do_schedule_transfer make_schedule_id
second = after (schedule_transfer substrate config 101 (signed 1) 2 10 first) first

schedules_second : schedule_transfer substrate config 101 (signed 1) 2 10 first ≡ done second
unfolding schedule_transfer do_schedule_transfer make_schedule_id set_up
schedules_second = refl

genesis-IsBalanced : IsBalanced substrate config held genesis
genesis-IsBalanced = record {
  ids = 0;
  above = λ i h. refl;
  entry = λ tx_id p e. absurd cc;
  counted = λ who. refl;
  limited = λ who. omega arith;
  funded = λ who. refl;
}

run : Runs substrate config held genesis second
run =
    next
      (next (next stop (by_set (signed 1) (some 5) explicit (some 7) sets))
        (by_schedule 100 (signed 1) 2 10 schedules_first))
      (by_schedule 101 (signed 1) 2 10 schedules_second)

Runs-IsBalanced_example : IsBalanced substrate config held second
Runs-IsBalanced_example =
    Runs-IsBalanced substrate config held substrate-IsSubstrate (omega arith) run genesis-IsBalanced

-- The id of the two transfers, their entry, and the name of the task of the first one.
abbrev tx_id : ℕ
tx_id = transfer_id substrate 1 2 10

abbrev pending : ℕ → PendingTransfer
pending count = record { who = 1; call = 168; amount = 10; count = count }

abbrev name : ℕ
name = pair tx_id 1

abbrev cancelled : Reversibles World
unfolding cancel cancel_transfer make_schedule_id give_back first set_up
cancelled = after (cancel substrate config (signed 7) tx_id first) first

cancels : cancel substrate config (signed 7) tx_id first ≡ done cancelled
unfolding cancel cancel_transfer make_schedule_id give_back first set_up
cancels = refl

known : first.pending_transfers tx_id ≡ some (pending 1)
unfolding first set_up
known = refl

set_reversibility-cancel_example : 7 ≡ canceller (some 7) 1
set_reversibility-cancel_example =
    set_reversibility-cancel substrate config held 1 7 tx_id (some 5) explicit (some 7) (pending 1)
      genesis sets (next stop (by_schedule 100 (signed 1) 2 10 schedules_first)) known refl cancels

-- The task of the first transfer runs, so that the scheduler has dropped it.
abbrev running : Reversibles World
unfolding second first set_up
running = record second {
  world = record second.world { tasks = update second.world.tasks name false };
}

known_two : running.pending_transfers tx_id ≡ some (pending 2)
unfolding running second first set_up
known_two = refl

no_task : running.world.tasks name ≡ false
unfolding running second first set_up
no_task = refl

-- The account has spent the rest of its money when the task of its transfer runs.
abbrev poor : Reversibles World
unfolding first set_up
poor = record first { world = record first.world { free = λ _. 0; tasks = λ _. false } }

abbrev released : World
unfolding poor first set_up
released = record poor.world { free = gain poor.world.free 1 10; held = lose poor.world.held 1 10 }

poor_known : poor.pending_transfers tx_id ≡ some (pending 1)
unfolding poor first set_up
poor_known = refl

poor_realized : substrate.realize 168 poor.world ≡ some (transfer_keep_alive 2 10, poor.world)
unfolding poor first set_up
poor_realized = refl

poor_released : substrate.release 1 10 poor.world ≡ some released
unfolding released poor first set_up
poor_released = refl

poor_failed : substrate.dispatch (transfer_keep_alive 2 10) 1 released ≡ none
unfolding released poor first set_up
poor_failed = refl

poor_missing : poor.world.tasks name ≡ false
unfolding poor first set_up
poor_missing = refl

execute_transfer-failed_example :
    (execute_transfer substrate config (signed 99) tx_id poor ≡ refused frame_error)
    × (cancel substrate config (signed 7) tx_id poor ≢ done poor)
execute_transfer-failed_example =
    execute_transfer-failed substrate config held_task substrate-IsScheduler (signed 7) tx_id name
      (pending 1) (transfer_keep_alive 2 10) poor poor.world released poor_known refl poor_missing
      poor_realized poor_released poor_failed
