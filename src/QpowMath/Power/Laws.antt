-- ===== src/QpowMath/Power/Laws.antt =====
-- The modular power against the power of the numbers (`mod_pow` of qpow-math/src/lib.rs).
use native.Mathlib.Nat.{
  div-add-mod, add-mul-mod_self_left, pow-suc, pow-zero, two-pow-succ, mod-eq_of_lt, mod-lt,
}
use chain_testing.Prelude.{
  ℕ, zero, suc, ◌+◌, ◌*◌, ◌/◌, ◌%◌, ◌^◌, ◌<◌, ◌≡◌, ◌∙◌, refl, ap, sym, inl, inr, some, arith, ◌==◌,
  if◌then◌else◌, Bool-cases, ==→eq, true, false,
}
use chain_testing.QpowMath.Power.{power_loop, mod_pow}

-- A factor may be reduced first.
pub mul-mod_left : (a b m : ℕ) → a % m * b % m ≡ a * b % m
mul-mod_left a b m =
    let e : a * b ≡ a % m * b + m * (a / m * b) =
      omega (arith, ap (λ (t : ℕ). t * b) (div-add-mod a m)) in
    sym (rw e (add-mul-mod_self_left (a % m * b) m (a / m * b)))

pub mul-mod_right : (a b m : ℕ) → a * (b % m) % m ≡ a * b % m
mul-mod_right a b m =
    let e : a * (b % m) ≡ b % m * a = omega arith in
    let f : a * b ≡ b * a = omega arith in rw (e, f) (mul-mod_left b a m)

-- The base of a power may be reduced first.
pub pow-mod : (a k m : ℕ) → (a % m) ^ k % m ≡ a ^ k % m
pow-mod a zero m = rw (pow-zero, pow-zero)
pow-mod a (suc k) m =
    rw (pow-suc, pow-suc)
      (sym (mul-mod_left ((a % m) ^ k) (a % m) m)
        ∙ rw (pow-mod a k m) (mul-mod_left (a ^ k) (a % m) m ∙ mul-mod_right (a ^ k) a m))

pub pow-add_self : (b k t : ℕ) → t ≡ k + k → b ^ t ≡ (b * b) ^ k
pow-add_self b zero zero e = rw (pow-zero, pow-zero)
pow-add_self b zero (suc t) e = absurd (omega arith)
pow-add_self b (suc k) zero e = absurd (omega arith)
pow-add_self b (suc k) (suc zero) e = absurd (omega arith)
pow-add_self b (suc k) (suc (suc t)) e =
    rw (pow-suc, pow-suc, pow-suc, pow-add_self b k t (omega arith)) (omega arith)

-- The power by its exponent's last bit.
pow-even : (b e : ℕ) → (e % 2 == 1) ≡ false → b ^ e ≡ (b * b) ^ (e / 2)
pow-even b e h = pow-add_self b (e / 2) e (ground arith)

pow-odd : (b e : ℕ) → (e % 2 == 1) ≡ true → b ^ e ≡ (b * b) ^ (e / 2) * b
pow-odd b e h =
    let p : e ≡ suc (e / 2 + e / 2) = ground arith in
    ap (λ (t : ℕ). b ^ t) p
    ∙ pow-suc b (e / 2 + e / 2)
    ∙ ap (λ (t : ℕ). t * b) (pow-add_self b (e / 2) (e / 2 + e / 2) refl)

-- One round of the loop.
power_loop_step :
    (fuel base exp modulus result : ℕ)
    → (exp == 0) ≡ false
    → power_loop (suc fuel) base exp modulus result
      ≡ power_loop fuel
          (base * base % modulus)
          (exp / 2)
          modulus
          (if exp % 2 == 1 then result * base % modulus else result)
unfolding power_loop
power_loop_step fuel base exp modulus result h = rw h

-- What is left to do keeps the product, modulo the modulus.
round_even :
    (base exp modulus result : ℕ)
    → (exp % 2 == 1) ≡ false
    → result * (base * base % modulus) ^ (exp / 2) % modulus ≡ result * base ^ exp % modulus
round_even base exp modulus result h =
    let k = exp / 2 in
    sym (mul-mod_right result ((base * base % modulus) ^ k) modulus)
    ∙ rw (pow-mod (base * base) k modulus, pow-even base exp h)
        (mul-mod_right result ((base * base) ^ k) modulus)

round_odd :
    (base exp modulus result : ℕ)
    → (exp % 2 == 1) ≡ true
    → result * base % modulus * (base * base % modulus) ^ (exp / 2) % modulus
      ≡ result * base ^ exp % modulus
round_odd base exp modulus result h =
    let k = exp / 2 in
    let x = (base * base) ^ k in
    let regroup : result * base * x ≡ result * (x * base) = omega arith in
    mul-mod_left (result * base) ((base * base % modulus) ^ k) modulus
    ∙ sym (mul-mod_right (result * base) ((base * base % modulus) ^ k) modulus)
    ∙ rw (pow-mod (base * base) k modulus, pow-odd base exp h)
        (mul-mod_right (result * base) x modulus ∙ rw regroup)

power_loop_done :
    (fuel base exp modulus result : ℕ)
    → (exp == 0) ≡ true
    → result < modulus
    → power_loop (suc fuel) base exp modulus result ≡ some (result * base ^ exp % modulus)
unfolding power_loop
power_loop_done fuel base exp modulus result done r =
    let e : exp ≡ 0 = ==→eq exp 0 done in
    let one : result * base ^ 0 ≡ result = rw pow-zero (omega arith) in rw (e, one, mod-eq_of_lt r)

-- With a round for each bit of the exponent and one more, the loop ends, with the power.
pub power_loop_lem :
    (fuel base exp modulus result : ℕ)
    → exp < 2 ^ fuel
    → result < modulus
    → power_loop (suc fuel) base exp modulus result ≡ some (result * base ^ exp % modulus)
power_loop_lem zero base exp modulus result h r =
    power_loop_done zero base exp modulus result (ground arith) r
power_loop_lem (suc fuel) base exp modulus result h r =
    let half : exp / 2 < 2 ^ fuel = omega (arith, two-pow-succ fuel) in
    let b = base * base % modulus in
    elim (Bool-cases (exp == 0)) [
      | inl done ↦ power_loop_done (suc fuel) base exp modulus result done r
      | inr more ↦
          power_loop_step (suc fuel) base exp modulus result more
          ∙ elim (Bool-cases (exp % 2 == 1)) [
            | inl odd ↦ rw odd (
                power_loop_lem fuel b (exp / 2) modulus (result * base % modulus) half
                  (mod-lt _ (omega arith))
                ∙ ap some (round_odd base exp modulus result odd))
            | inr even ↦ rw even (
                power_loop_lem fuel b (exp / 2) modulus result half r
                ∙ ap some (round_even base exp modulus result even))
          ]
    ]

-- For a modulus of at least 2 and an exponent of 512 bits, `mod_pow` is the power modulo the
-- modulus, and does not panic.
pub mod_pow_lem :
    (base exponent modulus : ℕ)
    → exponent < 2 ^ 512
    → 1 < modulus
    → mod_pow base exponent modulus ≡ some (base ^ exponent % modulus)
unfolding mod_pow
mod_pow_lem base exponent modulus fits big =
    let nonzero : (modulus == 0) ≡ false = ground arith in
    let one : 1 * base ^ exponent ≡ base ^ exponent = omega arith in
    rw nonzero (power_loop_lem 512 base exponent modulus 1 fits big ∙ rw one)
