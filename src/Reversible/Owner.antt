-- ===== src/Reversible/Owner.antt =====
-- The settings of an account over a run: who may cancel its transfers, and after what delay they
-- are executed (pallets/reversible-transfers/src/lib.rs).
use chain_testing.Prelude.{
  ℕ, ◌≡◌, ◌≤◌, ◌∙◌, sym, ap, Option, some, some_eq, Bool-cases, inl, inr, true, false, ◌==◌, ==→eq,
  is_some, update, update_self,
}
use chain_testing.Prelude.Uint.{sat_add}
use chain_testing.Dispatch.{signed, done, ensure_signed_inv}
use chain_testing.Reversible.Types.{
  DelayPolicy, ReversibleAccountData, PendingTransfer, ReversibleConfig, Substrate, Reversibles,
}
use chain_testing.Reversible.Calls.{unwrap_or, set_reversibility, cancel, schedule_transfer}
use chain_testing.Reversible.Effects.{
  canceller, set_reversibility-IsSetting, cancel_transfer-IsCancelled, execute_transfer-IsExecuted,
}
use chain_testing.Reversible.Scheduling.{do_schedule_transfer-IsScheduled}
use chain_testing.Reversible.Ledger.{
  Step, by_set, by_cancel, by_execute, by_schedule, by_other, Runs, stop, next,
}

true-false : true ≡ false → ⊥
true-false e = cc

-- An insertion under a new key keeps the values of the others.
insert_new :
    {V : Type 0} (m : ℕ → Option V) (key other : ℕ) (v old : V)
    → is_some (m key) ≡ false
    → m other ≡ some old
    → update m key (some v) other ≡ some old
insert_new m key other v old fresh h = elim (Bool-cases (other == key)) [
  | inl same ↦
      let e = ==→eq other key same in absurd (true-false (ap is_some (sym h ∙ ap m e) ∙ fresh))
  | inr apart ↦ rw apart h
]

module _ {World : Type 0} (substrate : Substrate World) (c : ReversibleConfig)
    (held : World → ℕ → ℕ) where
  -- No step changes the settings of an account that has some.
  Step-reversible_accounts :
      (who : ℕ) (account_data : ReversibleAccountData) {s s' : Reversibles World}
      → Step substrate c held s s'
      → s.reversible_accounts who ≡ some account_data
      → s'.reversible_accounts who ≡ some account_data
  unfolding cancel schedule_transfer
  Step-reversible_accounts who account_data {s} (by_set origin delay policy reverser e) h =
      let (setter, _, set) =
        set_reversibility-IsSetting substrate c origin delay policy reverser s e in
      rw set.accounts (insert_new s.reversible_accounts setter who _ account_data set.fresh h)
  Step-reversible_accounts who account_data {s} (by_cancel origin tx_id e) h =
      let (caller, _, e1) = ensure_signed_inv origin _ e in
      let cancelled = cancel_transfer-IsCancelled substrate c caller tx_id s e1 in
      rw cancelled.removal.accounts h
  Step-reversible_accounts who account_data {s} (by_execute origin tx_id e) h =
      let (_, executed) = execute_transfer-IsExecuted substrate c origin tx_id s e in
      rw executed.removal.accounts h
  Step-reversible_accounts who account_data {s} (by_schedule now origin dest amount e) h =
      let (_, _, scheduled) =
        do_schedule_transfer-IsScheduled substrate c now origin dest amount s e in
      rw scheduled.accounts h
  Step-reversible_accounts who account_data (by_other world same) h = h

  Runs-reversible_accounts :
      (who : ℕ) (account_data : ReversibleAccountData) {s s' : Reversibles World}
      → Runs substrate c held s s'
      → s.reversible_accounts who ≡ some account_data
      → s'.reversible_accounts who ≡ some account_data
  Runs-reversible_accounts who account_data stop h = h
  Runs-reversible_accounts who account_data (next before step) h =
      Step-reversible_accounts who account_data step
        (Runs-reversible_accounts who account_data before h)

  -- What a setting stores, and what is there after any run.
  pub set_reversibility-stores :
      (who : ℕ) (delay : Option ℕ) (policy : DelayPolicy) (reverser : Option ℕ)
      (s : Reversibles World) {t u : Reversibles World}
      → set_reversibility substrate c (signed who) delay policy reverser s ≡ done t
      → Runs substrate c held t u
      → (c.min_delay_period ≤ unwrap_or delay c.default_delay)
        × (u.reversible_accounts who
            ≡ some (record {
              explicit_reverser = reverser;
              delay = unwrap_or delay c.default_delay;
              policy = policy;
            }))
  set_reversibility-stores who delay policy reverser s {t} e runs =
      let (setter, from, set) =
        set_reversibility-IsSetting substrate c (signed who) delay policy reverser s e in
      let same : setter ≡ who = cc in
      (
        set.long,
        Runs-reversible_accounts who _ runs
            (rw (set.accounts, same) (update_self s.reversible_accounts who (some _))),
      )

  -- Once an account has made its setting, with an explicit reverser or none, and after any run of
  -- successful calls and of changes elsewhere: whoever cancels a pending transfer of the account is
  -- this reverser, or the account itself if there is none.
  pub set_reversibility-cancel :
      (who caller tx_id : ℕ) (delay : Option ℕ) (policy : DelayPolicy) (reverser : Option ℕ)
      (p : PendingTransfer) (s : Reversibles World) {t u v : Reversibles World}
      → set_reversibility substrate c (signed who) delay policy reverser s ≡ done t
      → Runs substrate c held t u
      → u.pending_transfers tx_id ≡ some p
      → p.who ≡ who
      → cancel substrate c (signed caller) tx_id u ≡ done v
      → caller ≡ canceller reverser who
  unfolding cancel
  set_reversibility-cancel who caller tx_id delay policy reverser p s {t} {u} set runs known own e =
      let (_, stored) = set_reversibility-stores who delay policy reverser s set runs in
      let cancelled = cancel_transfer-IsCancelled substrate c caller tx_id u e in
      let same : cancelled.p ≡ p = some_eq (sym cancelled.removal.known ∙ known) in
      let owner : cancelled.p.who ≡ who = ap (λ (q : PendingTransfer). q.who) same ∙ own in
      let settings = some_eq (sym cancelled.reversible ∙ ap u.reversible_accounts owner ∙ stored) in
      cancelled.authorised
      ∙ ap (λ (d : ReversibleAccountData). canceller d.explicit_reverser cancelled.p.who) settings
      ∙ ap (canceller reverser) owner

  -- Once an account has made its setting, and after any run of successful calls and of changes
  -- elsewhere: a transfer that the account schedules is scheduled for the current block plus the
  -- delay of the setting, or the default delay if it had none, limited by the largest block number;
  -- and this delay is at least the minimum.
  pub set_reversibility-schedule_transfer :
      (who now dest amount : ℕ) (delay : Option ℕ) (policy : DelayPolicy) (reverser : Option ℕ)
      (s : Reversibles World) {t u v : Reversibles World}
      → set_reversibility substrate c (signed who) delay policy reverser s ≡ done t
      → Runs substrate c held t u
      → schedule_transfer substrate c now (signed who) dest amount u ≡ done v
      → (c.min_delay_period ≤ unwrap_or delay c.default_delay)
        × ((name bounded : ℕ) × (w w' : World) × (substrate.schedule_named name
                (sat_add c.block_max now (unwrap_or delay c.default_delay))
                c.account_id
                bounded
                w
              ≡ some w'))
  unfolding schedule_transfer
  set_reversibility-schedule_transfer who now dest amount delay policy reverser s {t} {u} set runs
        e =
      let (long, stored) = set_reversibility-stores who delay policy reverser s set runs in
      let (caller, from, scheduled) =
        do_schedule_transfer-IsScheduled substrate c now (signed who) dest amount u e in
      let same : caller ≡ who = cc in
      let settings = some_eq (sym scheduled.reversible ∙ ap u.reversible_accounts same ∙ stored) in
      (
        long,
        (
          scheduled.schedule_id,
          scheduled.bounded_call,
          scheduled.world_both,
          scheduled.world_scheduled,
          rw (ap (λ (d : ReversibleAccountData). d.delay) (sym settings)) scheduled.scheduled,
        ),
      )
