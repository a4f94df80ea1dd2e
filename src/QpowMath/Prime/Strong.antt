-- ===== src/QpowMath/Prime/Strong.antt =====
-- What the Miller-Rabin test of `is_prime` (qpow-math/src/lib.rs) decides of a base.
use native.Mathlib.Nat.{two-pow-succ, pow-suc, pow-zero, mod-eq_of_lt, mul-le-mul_left, one-le-pow}
use chain_testing.Prelude.{
  ℕ, zero, suc, ◌+◌, ◌-◌, ◌*◌, ◌%◌, ◌^◌, ◌≤◌, ◌<◌, ◌≡◌, ◌≢◌, ◌↔◌, ◌⊎◌, ◌∙◌, refl, inl, inr, some,
  ap, sym, arith, ◌==◌, ◌||◌, if◌then◌else◌, Bool-cases, ==→eq, true, false, Bool, Option, All,
  List, [], ◌∷◌, leb, leb-false, ==_false,
}
use chain_testing.Prelude.Panic.{>>=-eq-some}
use chain_testing.QpowMath.Power.Laws.{mod_pow_lem, pow-mod, pow-add_self}
use chain_testing.QpowMath.Prime.Split.{split_loop_lem}
use chain_testing.QpowMath.Prime.{
  square_loop, passes, witness_loop, bases_from, is_prime, split_loop,
}

-- `a` is a strong probable-prime base of n, where n - 1 = d * 2 ^ r.
abbrev pub IsStrong : ℕ → ℕ → ℕ → ℕ → Type 0
IsStrong n d r a = (a ^ d % n ≡ 1) ⊎ ((i : ℕ) × (i < r) × ((a ^ d) ^ (2 ^ i) % n ≡ n - 1))

square_of : (x : ℕ) → x ^ 2 ≡ x * x
square_of x = pow-add_self x 1 2 refl ∙ pow-suc (x * x) 0 ∙ rw pow-zero (omega arith)

-- One squaring first.
power_two-suc : (x i n : ℕ) → x ^ (2 ^ suc i) % n ≡ (x ^ 2 % n) ^ (2 ^ i) % n
power_two-suc x i n =
    rw (square_of x, pow-mod (x * x) (2 ^ i) n, pow-add_self x (2 ^ i) (2 ^ suc i) (two-pow-succ i))

one-pow : (k : ℕ) → 1 ^ k ≡ 1
one-pow zero = pow-zero 1
one-pow (suc k) = pow-suc 1 k ∙ omega (arith, one-pow k)

square_step :
    (n left x : ℕ)
    → 2 < n
    → square_loop n (suc left) x ≡ (
        if x ^ 2 % n == n - 1
        then some true
        else (if x ^ 2 % n == 1 then some false else square_loop n left (x ^ 2 % n)))
unfolding square_loop
square_step n left x big = rw (mod_pow_lem x 2 n (omega arith) (omega arith))

first_square : (x n : ℕ) → x ^ (2 ^ suc 0) % n ≡ x ^ 2 % n
first_square x n = refl

-- From a square of 1, no later one is n - 1.
stays_one : (x i n : ℕ) → 2 < n → x ^ 2 % n ≡ 1 → x ^ (2 ^ suc i) % n ≢ n - 1
stays_one x i n big one e =
    let p : x ^ (2 ^ suc i) % n ≡ 1 =
      power_two-suc x i n ∙ rw (one, one-pow) (mod-eq_of_lt (omega arith)) in
    omega (arith, p, e)

-- The loop finds n - 1 among the squares after the first.
Found : ℕ → ℕ → ℕ → Type 0
Found n left x = (i : ℕ) × (i < left) × (x ^ (2 ^ suc i) % n ≡ n - 1)

not_both : {o : Option Bool} → o ≡ some false → o ≡ some true → ⊥
not_both p q = cc

ne_of_miss : (a b : ℕ) → (a == b) ≡ false → a ≢ b
ne_of_miss a b h e = ground arith

later_base :
    (x n left : ℕ) → Found n (suc left) x → (x ^ 2 % n == n - 1) ≡ false → Found n left (x ^ 2 % n)
unfolding Found
later_base x n left (zero, h, e) miss = absurd (ne_of_miss _ _ miss (sym (first_square x n) ∙ e))
later_base x n left (suc i, h, e) miss = (i, omega arith, sym (power_two-suc x (suc i) n) ∙ e)

square_loop_iff : (n left x : ℕ) → 2 < n → (square_loop n left x ≡ some true) ↔ Found n left x
unfolding Found square_loop
square_loop_iff n zero x big = ((λ e. cc), (λ p. absurd (omega (arith, p.1))))
square_loop_iff n (suc left) x big =
    let y = x ^ 2 % n in
    let step = square_step n left x big in
    let rest = square_loop_iff n left y big in
    elim (Bool-cases (y == n - 1)) [
      | inl hit ↦
          ((λ _. (0, omega arith, first_square x n ∙ ==→eq y (n - 1) hit)), (λ _. step ∙ rw hit))
      | inr miss ↦ elim (Bool-cases (y == 1)) [
        | inl one ↦
            let no : square_loop n (suc left) x ≡ some false = step ∙ rw (miss, one) in
            (
              (λ e. absurd (not_both no e)),
              (λ p. absurd (stays_one x p.0 n big (==→eq y 1 one) p.2)),
            )
        | inr more ↦
            let next : square_loop n (suc left) x ≡ square_loop n left y = step ∙ rw (miss, more) in
            (
              (λ e.
                  let p = rest.0 (sym next ∙ e) in
                  (suc p.0, omega (arith, p.1), power_two-suc x (suc p.0) n ∙ p.2)),
              (λ p. next ∙ rest.1 (later_base x n left p miss)),
            )
      ]
    ]

pow_one : (x : ℕ) → x ^ 1 ≡ x
pow_one x = pow-suc x 0 ∙ rw pow-zero (omega arith)

base_passes :
    (n d r a : ℕ)
    → IsStrong n d r a
    → (a ^ d % n == 1) ≡ false
    → (a ^ d % n == n - 1) ≡ false
    → Found n (r - 1) (a ^ d % n)
unfolding Found
base_passes n d r a (inl one) h k = absurd (ne_of_miss _ 1 h one)
base_passes n d r a (inr (zero, lt, e)) h k =
    absurd (ne_of_miss _ (n - 1) k (ap (λ (t : ℕ). t % n) (sym (pow_one (a ^ d))) ∙ e))
base_passes n d r a (inr (suc i, lt, e)) h k = (i, omega arith, pow-mod (a ^ d) (2 ^ suc i) n ∙ e)

-- A base passes exactly if it is a strong probable-prime base.
pub passes_iff :
    (n d r a : ℕ) → 2 < n → d < 2 ^ 512 → 0 < r → (passes n d r a ≡ some true) ↔ IsStrong n d r a
unfolding passes Found
passes_iff n d r a big fits pos =
    let x = a ^ d % n in
    let run : passes n d r a
        ≡ (if x == 1 || x == n - 1 then some true else square_loop n (r - 1) x) =
      rw (mod_pow_lem a d n fits (omega arith)) in
    let rest = square_loop_iff n (r - 1) x big in
    elim (Bool-cases (x == 1)) [
      | inl one ↦ ((λ _. inl (==→eq x 1 one)), (λ _. run ∙ rw one))
      | inr not_one ↦ elim (Bool-cases (x == n - 1)) [
        | inl minus ↦ (
          (λ _. inr (0, pos, ap (λ (t : ℕ). t % n) (pow_one (a ^ d)) ∙ ==→eq x (n - 1) minus)),
          (λ _. run ∙ rw (not_one, minus)),
        )
        | inr neither ↦
            let next : passes n d r a ≡ square_loop n (r - 1) x = run ∙ rw (not_one, neither) in
            (
              (λ e.
                  let p = rest.0 (sym next ∙ e) in
                  inr (suc p.0, omega (arith, p.1), sym (pow-mod (a ^ d) (2 ^ suc p.0) n) ∙ p.2)),
              (λ s. next ∙ rest.1 (base_passes n d r a s not_one neither)),
            )
      ]
    ]

all_passed :
    (ok : Bool) (rest : Option Bool)
    → (if ok then rest else some false) ≡ some true
    → (ok ≡ true) × (rest ≡ some true)
all_passed true rest e = (refl, e)
all_passed false rest e = cc

witness_loop_iff :
    (n d r : ℕ) (bases : List ℕ)
    → 2 < n
    → d < 2 ^ 512
    → 0 < r
    → (witness_loop n d r bases ≡ some true) ↔ All (IsStrong n d r) bases
unfolding witness_loop
witness_loop_iff n d r [] big fits pos = ((λ _. tt), (λ _. refl))
witness_loop_iff n d r (a ∷ bases) big fits pos =
    let base = passes_iff n d r a big fits pos in
    let rest = witness_loop_iff n d r bases big fits pos in
    (
      (λ e.
          let (ok, p, q) = >>=-eq-some (passes n d r a) _ e in
          let (yes_ok, later) = all_passed ok _ q in (base.0 (p ∙ ap some yes_ok), rest.0 later)),
      (λ s. rw (base.1 s.0) (rest.1 s.1)),
    )

is_prime-runs :
    (base_hash : ℕ → ℕ → ℕ) (n : ℕ) (dr : ℕ × ℕ)
    → 4 < n
    → n % 2 ≡ 1
    → split_loop 513 (n - 1) 0 ≡ some dr
    → is_prime base_hash n ≡ witness_loop n dr.0 dr.1 (bases_from base_hash n 32 0)
unfolding is_prime
is_prime-runs base_hash n dr big odd e =
    let a : leb n 1 ≡ false = leb-false n 1 (omega arith) in
    let b : (n == 2) ≡ false = ==_false n 2 (omega arith) in
    let c : (n == 3) ≡ false = ==_false n 3 (omega arith) in
    let d : (n % 2 == 0) ≡ false = ==_false (n % 2) 0 (omega arith) in rw (a, b, c, d, e)

-- The odd part of an even number is that of a proper power of two, and no larger.
exponent_pos : (m d r : ℕ) → m ≡ d * 2 ^ r → m % 2 ≡ 0 → d % 2 ≡ 1 → 0 < r
exponent_pos m d zero e even odd = absurd (omega arith)
exponent_pos m d (suc r) e even odd = omega arith

odd_part_le : (m d r : ℕ) → m ≡ d * 2 ^ r → d ≤ m
odd_part_le m d r e = omega (arith, mul-le-mul_left d (one-le-pow r 2 (omega arith)))

-- For an odd number of at least 5 and of 512 bits, n - 1 = d * 2 ^ r with d odd, and the test says
-- true exactly if each of its 32 bases is a strong probable-prime base.
pub is_prime_iff :
    (base_hash : ℕ → ℕ → ℕ) (n : ℕ)
    → 4 < n
    → n < 2 ^ 512
    → n % 2 ≡ 1
    → (d r : ℕ) × (n - 1 ≡ d * 2 ^ r)
      × (d % 2 ≡ 1)
      × ((is_prime base_hash n ≡ some true) ↔ All (IsStrong n d r) (bases_from base_hash n 32 0))
is_prime_iff base_hash n big fits odd =
    let (d, r, s, p, o) = split_loop_lem 513 (n - 1) 0 (omega arith) (omega arith) in
    let r' : 0 + r ≡ r = omega arith in
    let run = is_prime-runs base_hash n (d, r) big odd (s ∙ ap (λ (t : ℕ). some (d, t)) r') in
    let w =
      witness_loop_iff n d r (bases_from base_hash n 32 0) (omega arith)
        (omega (arith, odd_part_le (n - 1) d r p)) (exponent_pos (n - 1) d r p (omega arith) o) in
    (d, r, p, o, ((λ e. w.0 (sym run ∙ e)), (λ a. run ∙ w.1 a)))
