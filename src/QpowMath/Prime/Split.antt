-- ===== src/QpowMath/Prime/Split.antt =====
-- The odd part of n - 1 (the first loop of `is_prime` in qpow-math/src/lib.rs).
use native.Mathlib.Nat.{two-pow-succ}
use chain_testing.Prelude.{
  ℕ, zero, suc, ◌+◌, ◌*◌, ◌/◌, ◌%◌, ◌^◌, ◌<◌, ◌≡◌, ◌∙◌, inl, inr, some, ap, arith, ◌==◌, Bool-cases,
  ==→eq, false,
}
use chain_testing.QpowMath.Prime.{split_loop}

split_step_even :
    (fuel d r : ℕ) → d % 2 ≡ 0 → split_loop (suc fuel) d r ≡ split_loop fuel (d / 2) (r + 1)
unfolding split_loop
split_step_even fuel d r h = ground arith

split_step_odd : (fuel d r : ℕ) → (d % 2 == 0) ≡ false → split_loop (suc fuel) d r ≡ some (d, r)
unfolding split_loop
split_step_odd fuel d r h = rw h

-- With a round for each bit the loop ends, at the odd part and the power of two.
pub split_loop_lem :
    (fuel d r : ℕ)
    → 0 < d
    → d < 2 ^ fuel
    → (q k : ℕ) × (split_loop fuel d r ≡ some (q, r + k)) × (d ≡ q * 2 ^ k) × (q % 2 ≡ 1)
split_loop_lem zero d r pos fits = absurd (omega arith)
split_loop_lem (suc fuel) d r pos fits = elim (Bool-cases (d % 2 == 0)) [
  | inr odd ↦ (
    d,
    0,
    split_step_odd fuel d r odd ∙ ap (λ (t : ℕ). some (d, t)) (omega arith),
    omega arith,
    ground arith,
  )
  | inl e ↦
      let even : d % 2 ≡ 0 = ==→eq _ 0 e in
      let (q, k, s, p, o) =
        split_loop_lem fuel (d / 2) (r + 1) (omega arith) (omega (arith, two-pow-succ fuel)) in
      (
        q,
        suc k,
        split_step_even fuel d r even ∙ s ∙ ap (λ (t : ℕ). some (q, t)) (omega arith),
        omega (arith, ap (λ (t : ℕ). q * t) (two-pow-succ k)),
        o,
      )
]
