-- ===== src/Reversible/Removal.antt =====
-- One transfer less keeps the count and the held amount of the pending transfers
-- (pallets/reversible-transfers/src/lib.rs).
use mathlib.Core.Path.{subst}
use chain_testing.Prelude.{
  update-sub, share, ℕ, ◌+◌, ◌-◌, ◌≡◌, ◌<◌, ◌∙◌, sym, ap, none, some, some_eq, ◌⊎◌, Bool-cases, inl,
  inr, ◌==◌, ==→eq, ==_false, ltb, ltb→lt, dec_lt, arith, update, Map,
}
use chain_testing.Prelude.Totals.{weigh, total_of-update}
use chain_testing.Reversible.Types.{PendingTransfer, ReversibleConfig, Substrate, Reversibles}
use chain_testing.Reversible.Calls.{count_one_less}
use chain_testing.Reversible.Effects.{IsRemoval}
use chain_testing.Reversible.Weights.{count_of, amount_of, less-count_of, less-amount_of}
use chain_testing.Reversible.Ledger.{IsSubstrate, IsEntry, IsBalanced}

no_entry : (q : PendingTransfer) → none ≡ some q → ⊥
no_entry q e = cc

removed_cases :
    (m : Map PendingTransfer) (tx_id i : ℕ) (p q : PendingTransfer)
    → update m tx_id (count_one_less p) i ≡ some q
    → ((i ≡ tx_id) × (1 < p.count) × (record p { count = p.count - 1 } ≡ q)) ⊎ (m i ≡ some q)
removed_cases m tx_id i p q e = elim (Bool-cases (i == tx_id)) [
  | inr apart ↦ inr (rw apart at e)
  | inl same ↦ elim (Bool-cases (ltb 1 p.count)) [
    | inl more ↦ inl (==→eq i tx_id same, ltb→lt 1 p.count more, some_eq (rw (same, more) at e))
    | inr last ↦ absurd (no_entry q (rw (same, last) at e))
  ]
]

module _ {World : Type 0} (substrate : Substrate World) (c : ReversibleConfig)
    (held : World → ℕ → ℕ) (laws : IsSubstrate substrate held) where
  -- The ids of the pending transfers are below the bound.
  pub id_below :
      (s : Reversibles World) (b : IsBalanced substrate c held s) (tx_id : ℕ) (p : PendingTransfer)
      → s.pending_transfers tx_id ≡ some p
      → tx_id < b.ids
  id_below s b tx_id p known = elim (dec_lt tx_id b.ids) [
    | yes below ↦ below
    | no not_below ↦ let out = b.above tx_id (omega arith) in absurd cc
  ]

  less-IsEntry :
      (tx_id : ℕ) (p : PendingTransfer)
      → IsEntry substrate c held tx_id p
      → 1 < p.count
      → IsEntry substrate c held tx_id (record p { count = p.count - 1 })
  less-IsEntry tx_id p entry h = record {
    dest = entry.dest;
    own_id = entry.own_id;
    positive = omega arith;
    content = entry.content;
  }

  IsEntry-less :
      (m : Map PendingTransfer) (tx_id i : ℕ) (p q : PendingTransfer)
      → ((j : ℕ) (r : PendingTransfer) → m j ≡ some r → IsEntry substrate c held j r)
      → m tx_id ≡ some p
      → update m tx_id (count_one_less p) i ≡ some q
      → IsEntry substrate c held i q
  IsEntry-less m tx_id i p q entries known e = elim (removed_cases m tx_id i p q e) [
    | inr old ↦ entries i q old
    | inl (same, more, less) ↦ rw same (
        subst (IsEntry substrate c held tx_id) less
          (less-IsEntry tx_id p (entries tx_id p known) more))
  ]

  pub IsRemoval-IsBalanced :
      (tx_id : ℕ) (p : PendingTransfer) (s s' : Reversibles World)
      → IsRemoval substrate c tx_id p s s'
      → ((who : ℕ) → held s'.world who + share p.who who p.amount ≡ held s.world who)
      → IsBalanced substrate c held s
      → IsBalanced substrate c held s'
  IsRemoval-IsBalanced tx_id p s s' removal freed b =
      let below = id_below s b tx_id p removal.known in
      let entry = b.entry tx_id p removal.known in
      record {
        ids = b.ids;
        above = λ i h. rw (removal.pending, ==_false i tx_id (λ same. omega arith)) (b.above i h);
        entry = λ i q e.
            IsEntry-less s.pending_transfers tx_id i p q b.entry removal.known
              (ap (λ (m : Map PendingTransfer). m i) (sym removal.pending) ∙ e);
        counted = λ who.
            let change =
              total_of-update (count_of who) b.ids tx_id s.pending_transfers (count_one_less p)
                below in
            let less = less-count_of p who entry.positive in
            let old = b.counted who in
            let own : weigh (count_of who) (s.pending_transfers tx_id) ≡ count_of who p =
              ap (weigh (count_of who)) removal.known in
            rw (removal.pending, removal.index, update-sub s.account_pending_index p.who 1 who)
              (omega arith);
        limited = λ who.
            let old = b.limited who in
            rw (removal.index, update-sub s.account_pending_index p.who 1 who) (omega arith);
        funded = λ who.
            let change =
              total_of-update (amount_of who) b.ids tx_id s.pending_transfers (count_one_less p)
                below in
            let less = less-amount_of p who entry.positive in
            let old = b.funded who in
            let own : weigh (amount_of who) (s.pending_transfers tx_id) ≡ amount_of who p =
              ap (weigh (amount_of who)) removal.known in
            let free = freed who in rw removal.pending (omega arith);
      }
