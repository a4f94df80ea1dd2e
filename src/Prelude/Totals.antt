-- ===== src/Prelude/Totals.antt =====
-- The sum of a weight of the values of a storage map, over the keys below a number.
use native.Mathlib.Nat.{le_refl}
use Prim.Native.Nat.{ℕ, zero, suc, ◌+◌, ◌≤◌, ◌<◌}
use mathlib.Core.Path.{◌≡◌, refl}
use mathlib.Core.Logic.{inl, inr}
use mathlib.Core.Bool.{false}
use mathlib.Core.Option.{Option, none, some}
use native.Mathlib.Omega.{arith}
use chain_testing.Prelude.Tests.{◌==◌, ==→eq, Bool-cases}
use chain_testing.Prelude.Maps.{update, Map}

smaller_le : (n m : ℕ) → suc n ≤ suc m → (n == m) ≡ false → suc n ≤ m
smaller_le n m h e = ground arith

smaller : (n i : ℕ) → i < suc n → (n == i) ≡ false → i < n
smaller n i h e = ground arith

plus_zero : (n : ℕ) → n + 0 ≡ n
plus_zero n = omega arith

plus_suc : (n k : ℕ) → n + suc k ≡ suc (n + k)
plus_suc n k = omega arith

module _ {ℓ} {V : Type ℓ} (weight : V → ℕ) where
  abbrev pub weigh : Option V → ℕ
  weigh none = 0
  weigh (some v) = weight v

  abbrev pub total_of : ℕ → Map V → ℕ
  total_of zero m = 0
  total_of (suc n) m = total_of n m + weigh (m n)

  pub total_of_above :
      (n i : ℕ) (m : Map V) (v : Option V) → n ≤ i → total_of n (update m i v) ≡ total_of n m
  total_of_above zero i m v h = refl
  total_of_above (suc n) i m v h = elim (Bool-cases (n == i)) [
    | inl same ↦ let e = ==→eq n i same in absurd (omega arith)
    | inr other ↦ rw (other, total_of_above n i m v (omega arith))
  ]

  pub total_of_mono : (n k : ℕ) (m : Map V) → n ≤ k → total_of n m ≤ total_of k m
  total_of_mono zero k m h = omega arith
  total_of_mono (suc n) zero m h = absurd (omega arith)
  total_of_mono (suc n) (suc k) m h = elim (Bool-cases (n == k)) [
    | inl same ↦ let e = ==→eq n k same in rw e (le_refl _)
    | inr other ↦ let below = total_of_mono (suc n) k m (smaller_le n k h other) in omega arith
  ]

  pub total_of-update :
      (n i : ℕ) (m : Map V) (v : Option V)
      → i < n
      → total_of n (update m i v) + weigh (m i) ≡ total_of n m + weigh v
  total_of-update zero i m v h = absurd (omega arith)
  total_of-update (suc n) i m v h = elim (Bool-cases (n == i)) [
    | inl same ↦
        let e : n ≡ i = ==→eq n i same in
        let above = total_of_above n i m v (omega arith) in rw (same, above, e) (omega arith)
    | inr other ↦ let rest = total_of-update n i m v (smaller n i h other) in rw other (omega arith)
  ]

  -- Keys without a value do not count.
  pub total_of_empty :
      (n k : ℕ) (m : Map V) → ((i : ℕ) → n ≤ i → m i ≡ none) → total_of (n + k) m ≡ total_of n m
  total_of_empty n zero m h = rw (plus_zero n)
  total_of_empty n (suc k) m h =
      rw (plus_suc n k, h (n + k) (omega arith), total_of_empty n k m h) (omega arith)

  -- A value weighs at most the sum.
  pub total_of-weigh : (n i : ℕ) (m : Map V) → i < n → weigh (m i) ≤ total_of n m
  total_of-weigh zero i m h = absurd (omega arith)
  total_of-weigh (suc n) i m h = elim (Bool-cases (n == i)) [
    | inl same ↦ let e : n ≡ i = ==→eq n i same in rw e (omega arith)
    | inr other ↦ let rest = total_of-weigh n i m (smaller n i h other) in omega arith
  ]
