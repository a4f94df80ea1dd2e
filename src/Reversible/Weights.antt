-- ===== src/Reversible/Weights.antt =====
-- The pending transfers of an account, counted and summed up (`PendingTransfers` and
-- `AccountPendingIndex` of pallets/reversible-transfers/src/lib.rs).
use chain_testing.Prelude.{
  share, ℕ, ◌+◌, ◌-◌, ◌*◌, ◌≡◌, ◌≤◌, ◌<◌, ◌∙◌, refl, sym, ap, Option, none, some, Bool-cases, false,
  inl, inr, ltb, ltb→lt, arith,
}
use chain_testing.Prelude.Uint.{u32_max, sat_add}
use chain_testing.Prelude.Totals.{weigh}
use chain_testing.Reversible.Types.{PendingTransfer}
use chain_testing.Reversible.Calls.{count_one_more, count_one_less}

-- The transfers and the amount that a pending transfer stands for, as those of an account.
abbrev pub count_of : ℕ → PendingTransfer → ℕ
count_of who p = share p.who who p.count

abbrev pub amount_of : ℕ → PendingTransfer → ℕ
amount_of who p = share p.who who (p.count * p.amount)

share_add :
    (owner who a b c : ℕ) → a + b ≡ c → share owner who a + share owner who b ≡ share owner who c
share_add owner who a b c h = ground arith

times_suc : (k a : ℕ) → k * a + a ≡ (k + 1) * a
times_suc k a = grind arith

times_pred : (c a : ℕ) → 1 < c → (c - 1) * a + a ≡ c * a
times_pred c a h = let e : c - 1 + 1 ≡ c = omega arith in times_suc (c - 1) a ∙ ap (λ n. n * a) e

share_zero : (owner who a b : ℕ) → a ≡ b → 0 + share owner who a ≡ share owner who b
share_zero owner who a b h = ground arith

one_times : (a : ℕ) → a ≡ 1 * a
one_times a = omega arith

single : (c a : ℕ) → 1 ≤ c → ltb 1 c ≡ false → a ≡ c * a
single c a h e = let one : c ≡ 1 = ground arith in rw one (one_times a)

single_count : (c : ℕ) → 1 ≤ c → ltb 1 c ≡ false → 1 ≡ c
single_count c h e = ground arith

pub less-count_of :
    (p : PendingTransfer) (who : ℕ)
    → 1 ≤ p.count
    → weigh (count_of who) (count_one_less p) + share p.who who 1 ≡ count_of who p
less-count_of p who h = elim (Bool-cases (ltb 1 p.count)) [
  | inl more ↦ rw more (share_add p.who who (p.count - 1) 1 p.count (omega arith))
  | inr last ↦ rw last (share_zero p.who who 1 p.count (single_count p.count h last))
]

pub less-amount_of :
    (p : PendingTransfer) (who : ℕ)
    → 1 ≤ p.count
    → weigh (amount_of who) (count_one_less p) + share p.who who p.amount ≡ amount_of who p
less-amount_of p who h = elim (Bool-cases (ltb 1 p.count)) [
  | inl more ↦ rw more (
      share_add p.who who ((p.count - 1) * p.amount) p.amount (p.count * p.amount)
        (times_pred p.count p.amount (ltb→lt 1 p.count more)))
  | inr last ↦
      rw last (share_zero p.who who p.amount (p.count * p.amount) (single p.count p.amount h last))
]

pub sat_add_lem : (top n : ℕ) → n < top → sat_add top n 1 ≡ n + 1
sat_add_lem top n h = ground arith

-- One more transfer of an owner and an amount, when the ones before it are of the same.
pub more-count_of :
    (o : Option PendingTransfer) (owner call amount who : ℕ)
    → ((p : PendingTransfer)
        → o ≡ some p
        → (p.who ≡ owner) × (p.amount ≡ amount) × (p.count < u32_max))
    → weigh (count_of who) (some (count_one_more o owner call amount))
      ≡ weigh (count_of who) o + share owner who 1
more-count_of none owner call amount who h = sym (share_zero owner who 1 1 refl)
more-count_of (some p) owner call amount who h =
    let (same, equal, small) = h p refl in
    let more : sat_add u32_max p.count 1 ≡ p.count + 1 = sat_add_lem u32_max p.count small in
    rw (same, more) (sym (share_add owner who p.count 1 (p.count + 1) refl))

pub more-amount_of :
    (o : Option PendingTransfer) (owner call amount who : ℕ)
    → ((p : PendingTransfer)
        → o ≡ some p
        → (p.who ≡ owner) × (p.amount ≡ amount) × (p.count < u32_max))
    → weigh (amount_of who) (some (count_one_more o owner call amount))
      ≡ weigh (amount_of who) o + share owner who amount
more-amount_of none owner call amount who h =
    sym (share_zero owner who amount (1 * amount) (one_times amount))
more-amount_of (some p) owner call amount who h =
    let (same, equal, small) = h p refl in
    let more : sat_add u32_max p.count 1 ≡ p.count + 1 = sat_add_lem u32_max p.count small in
    rw (same, equal, more)
      (sym (
        share_add owner who (p.count * amount) amount ((p.count + 1) * amount)
          (times_suc p.count amount)))
