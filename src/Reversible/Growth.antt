-- ===== src/Reversible/Growth.antt =====
-- One transfer more keeps the count and the held amount of the pending transfers
-- (pallets/reversible-transfers/src/lib.rs).
use mathlib.Core.Path.{subst}
use chain_testing.Prelude.{
  update-add, share, ℕ, ◌+◌, ◌≡◌, ◌≤◌, ◌<◌, ◌∙◌, ◌⊎◌, refl, sym, ap, Option, none, some, some_eq,
  Bool-cases, inl, inr, ◌==◌, ==→eq, ==-self, ==_false, arith, update, Map,
}
use chain_testing.Prelude.Uint.{u32_max, sat_add}
use chain_testing.Prelude.Totals.{weigh, total_of, total_of-update, total_of_empty, total_of-weigh}
use chain_testing.Reversible.Types.{
  PendingTransfer, transfer_keep_alive, ReversibleConfig, Substrate, Reversibles,
}
use chain_testing.Reversible.Calls.{count_one_more}
use chain_testing.Reversible.Scheduling.{transfer_id, IsScheduled}
use chain_testing.Reversible.Weights.{
  count_of, amount_of, more-count_of, more-amount_of, sat_add_lem,
}
use chain_testing.Reversible.Ledger.{IsSubstrate, IsEntry, IsBalanced}
use chain_testing.Reversible.Removal.{id_below}

index_limited :
    (index : ℕ → ℕ) (owner who top : ℕ)
    → index owner < top
    → index who ≤ top
    → update index owner (index owner + 1) who ≤ top
index_limited index owner who top h k = elim (Bool-cases (who == owner)) [
  | inl same ↦ rw same (omega arith)
  | inr apart ↦ rw apart k
]

count_share : (p : PendingTransfer) → count_of p.who p ≡ p.count
count_share p = rw (==-self p.who)

-- The entries after one transfer more: the one itself or another.
added_cases :
    (m : Map PendingTransfer) (tx_id i : ℕ) (more q : PendingTransfer)
    → update m tx_id (some more) i ≡ some q
    → ((i ≡ tx_id) × (more ≡ q)) ⊎ (m i ≡ some q)
added_cases m tx_id i more q e = elim (Bool-cases (i == tx_id)) [
  | inr apart ↦ inr (rw apart at e)
  | inl same ↦ inl (==→eq i tx_id same, some_eq (rw same at e))
]

sat_positive : (n : ℕ) → 1 ≤ sat_add u32_max n 1
sat_positive n = ground arith

more_fields :
    (o : Option PendingTransfer) (who call amount : ℕ)
    → ((count_one_more o who call amount).who ≡ who)
      × ((count_one_more o who call amount).call ≡ call)
      × ((count_one_more o who call amount).amount ≡ amount)
      × (1 ≤ (count_one_more o who call amount).count)
more_fields none who call amount = (refl, refl, refl, omega arith)
more_fields (some p) who call amount = (refl, refl, refl, sat_positive p.count)

module _ {World : Type 0} (substrate : Substrate World) (c : ReversibleConfig)
    (held : World → ℕ → ℕ) (laws : IsSubstrate substrate held) where
  -- An entry under the id of a transfer is of its account and amount, and its count is small.
  known_entry :
      (s : Reversibles World) (b : IsBalanced substrate c held s) (who dest amount : ℕ)
      (p : PendingTransfer)
      → s.pending_transfers (transfer_id substrate who dest amount) ≡ some p
      → s.account_pending_index who < u32_max
      → (p.who ≡ who) × (p.amount ≡ amount) × (p.count < u32_max)
  known_entry s b who dest amount p known small =
      let tx_id = transfer_id substrate who dest amount in
      let entry = b.entry tx_id p known in
      let (same, _, equal) = laws.same_id _ _ _ _ _ _ entry.own_id in
      let weight =
        total_of-weigh (count_of p.who) b.ids tx_id s.pending_transfers
          (id_below substrate c held laws s b tx_id p known) in
      let own : weigh (count_of p.who) (s.pending_transfers tx_id) ≡ count_of p.who p =
        ap (weigh (count_of p.who)) known in
      let all = b.counted p.who in
      let few : s.account_pending_index p.who < u32_max =
        subst (λ w. s.account_pending_index w < u32_max) same small in
      let share = count_share p in (sym same, sym equal, omega arith)

  -- The sums over the entries, after the change of one of them.
  grown :
      (weight : PendingTransfer → ℕ) (m : Map PendingTransfer) (ids tx_id n : ℕ)
      (more : PendingTransfer)
      → ((i : ℕ) → ids ≤ i → m i ≡ none)
      → weight more ≡ weigh weight (m tx_id) + n
      → total_of weight (ids + (tx_id + 1)) (update m tx_id (some more)) ≡ total_of weight ids m + n
  grown weight m ids tx_id n more above step =
      let change = total_of-update weight (ids + (tx_id + 1)) tx_id m (some more) (omega arith) in
      let wide = total_of_empty weight ids (tx_id + 1) m above in omega arith

  new-IsEntry :
      {who amount : ℕ} (dest : ℕ) (p : PendingTransfer) (call : ℕ) (w w' : World)
      → p.who ≡ who
      → p.call ≡ call
      → p.amount ≡ amount
      → 1 ≤ p.count
      → substrate.bound (transfer_keep_alive dest amount) w ≡ some (call, w')
      → IsEntry substrate c held (transfer_id substrate who dest amount) p
  new-IsEntry dest p call w w' own same equal positive e = record {
    dest = dest;
    own_id = rw (own, equal) refl;
    positive = positive;
    content = λ realized v v' h.
        rw equal
          (laws.content (transfer_keep_alive dest _) realized call w w' v v' e (rw same at h));
  }

  pub IsScheduled-IsBalanced :
      (now dest amount who : ℕ) (s s' : Reversibles World)
      → c.max_pending_per_account ≤ u32_max
      → IsScheduled substrate c now dest amount who s s'
      → IsBalanced substrate c held s
      → IsBalanced substrate c held s'
  IsScheduled-IsBalanced now dest amount who s s' top e b =
      let tx_id = transfer_id substrate who dest amount in
      let below = e.below in
      let more = count_one_more (s.pending_transfers tx_id) who e.call amount in
      let fields = more_fields (s.pending_transfers tx_id) who e.call amount in
      let step : sat_add u32_max (s.account_pending_index who) 1 ≡ s.account_pending_index who + 1 =
        sat_add_lem u32_max (s.account_pending_index who) (omega arith) in
      let same = λ (p : PendingTransfer) (known : s.pending_transfers tx_id ≡ some p).
        known_entry s b who dest amount p known (omega arith) in
      record {
        ids = b.ids + (tx_id + 1);
        above =
            λ i h. rw (e.pending, ==_false i tx_id (λ same. omega arith)) (b.above i (omega arith));
        entry = λ i q known.
            elim (added_cases s.pending_transfers tx_id i more q
              (ap (λ (m : Map PendingTransfer). m i) (sym e.pending) ∙ known)) [
                | inr old ↦ b.entry i q old
                | inl (here, it) ↦ rw here (
                    subst (IsEntry substrate c held tx_id) it (
                      new-IsEntry dest more e.call s.world e.world_bound fields.0 fields.1 fields.2
                        fields.3 e.bound_call))
              ];
        counted = λ j.
            let old = b.counted j in
            rw (e.pending, e.index, step, update-add s.account_pending_index who 1 j)
              (grown (count_of j) s.pending_transfers b.ids tx_id (share who j 1) more b.above
                  (more-count_of (s.pending_transfers tx_id) who e.call amount j same)
                ∙ ap (λ n. n + share who j 1) old);
        limited = λ j.
            rw (e.index, step)
              (index_limited s.account_pending_index who j c.max_pending_per_account e.below
                (b.limited j));
        funded = λ j.
            let old = b.funded j in
            let w1 = laws.bound_held _ _ _ _ j e.bound_call in
            let w2 = laws.bound_held _ _ _ _ j e.bound_task in
            let w3 = laws.schedule_held _ _ _ _ j _ _ e.scheduled in
            let w4 = laws.hold_held _ _ j _ _ e.held in
            let sums =
              grown (amount_of j) s.pending_transfers b.ids tx_id (share who j amount) more b.above
                (more-amount_of (s.pending_transfers tx_id) who e.call amount j same) in
            rw e.pending (omega arith);
      }
