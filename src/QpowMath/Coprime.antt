-- ===== src/QpowMath/Coprime.antt =====
-- `is_coprime` of qpow-math/src/lib.rs: Euclid's algorithm.
use mathlib.Core.WellFounded.{Acc}
use mathlib.Core.Logic.{dif_pos, dif_neg}
use native.Mathlib.Bridge.{le_prop}
use native.Mathlib.Nat.{mod-lt, dvd-mod_iff, dvd_refl, dvd-one, dvd-zero}
use chain_testing.Prelude.{ℕ, ◌%◌, ◌<◌, ◌∣◌, ◌≡◌, ◌↔◌, Bool, true, arith, ◌==◌, ==→eq, dite, dec_lt}
use chain_testing.Prelude.Order.{lt_wf}

-- `while y != 0 { (x, y) = (y, x % y) }`, by recursion on the proof that `y` falls.
unfoldable pub euclid_loop : (x y : ℕ) → Acc ◌<◌ y → ℕ
euclid_loop x y (Acc.intro _ smaller) =
    dite (dec_lt 0 y) (λ h. euclid_loop y (x % y) (smaller (x % y) (mod-lt x h))) (λ _. x)

unfoldable pub is_coprime : ℕ → ℕ → Bool
unfolding euclid_loop lt_wf dec_lt
is_coprime a b = euclid_loop a b (lt_wf.apply b) == 1

-- The loop keeps the common divisors.
euclid_loop-dvd : (x y : ℕ) (w : Acc ◌<◌ y) (d : ℕ) → (d ∣ euclid_loop x y w) ↔ ((d ∣ x) × (d ∣ y))
unfolding euclid_loop
euclid_loop-dvd x y (Acc.intro _ smaller) d = elim (dec_lt 0 y) [
  | yes h ↦
      let rest = euclid_loop-dvd y (x % y) (smaller (x % y) (mod-lt x h)) d in
      rw (dif_pos (dec_lt 0 y) le_prop h) (
        (λ k. ((dvd-mod_iff d (rest.0 k).0).0 (rest.0 k).1, (rest.0 k).0)),
        (λ p. rest.1 (p.1, (dvd-mod_iff d p.1).1 p.0)),
      )
  | no h ↦
      let zero_y : y ≡ 0 = omega arith in
      rw (dif_neg (dec_lt 0 y) h) ((λ k. (k, rw zero_y (dvd-zero d))), (λ p. p.0))
]

-- Two numbers are found coprime exactly if 1 is their only common divisor.
pub is_coprime_iff : (a b : ℕ) → (is_coprime a b ≡ true) ↔ ((d : ℕ) → d ∣ a → d ∣ b → d ≡ 1)
unfolding is_coprime
is_coprime_iff a b =
    let w = lt_wf.apply b in
    let common = λ (d : ℕ). euclid_loop-dvd a b w d in
    (
      (λ h d da db. dvd-one.0 (rw (==→eq _ 1 h) at ((common d).1 (da, db)))),
      (λ only.
          let g = euclid_loop a b w in
          let divides = (common g).0 (dvd_refl g) in rw (only g divides.0 divides.1)),
    )
