-- ===== src/Qpow/Times.antt =====
-- Lists of block times: their last items, and the times that the ring buffer of
-- pallets/qpow/src/lib.rs holds at successive indices.
use chain_testing.Prelude.{
  ℕ, zero, suc, ◌+◌, ◌-◌, ◌≤◌, ◌<◌, ◌≡◌, ◌∙◌, refl, ap, sym, ◌⊎◌, inr, min, List, [], ◌∷◌, ◌++◌,
  arith, length, drop, sum, length-append, update, update_self,
}
use chain_testing.Prelude.Uint.{u64_max, sat_add}
use chain_testing.Qpow.History.{sum_loop, read_times}

-- The last `m` items of a list.
abbrev pub last_n : ℕ → List ℕ → List ℕ
last_n m xs = drop (length xs - m) xs

pub drop-append : (n : ℕ) (xs ys : List ℕ) → n ≤ length xs → drop n (xs ++ ys) ≡ drop n xs ++ ys
drop-append zero xs ys h = refl
drop-append (suc n) [] ys h = elim h [ ]
drop-append (suc n) (x ∷ xs) ys h = drop-append n xs ys (omega arith)

pub drop-drop : (a b k : ℕ) (xs : List ℕ) → a + b ≡ k → drop b (drop a xs) ≡ drop k xs
drop-drop zero b k xs e = let p : b ≡ k = omega arith in rw p
drop-drop (suc a) b zero xs e = absurd (omega arith)
drop-drop (suc a) zero (suc k) [] e = refl
drop-drop (suc a) (suc b) (suc k) [] e = refl
drop-drop (suc a) b (suc k) (x ∷ xs) e = drop-drop a b k xs (omega arith)

pub length-drop : (n : ℕ) (xs : List ℕ) → length (drop n xs) ≡ length xs - n
length-drop zero xs = omega arith
length-drop (suc n) [] = omega arith
length-drop (suc n) (x ∷ xs) = omega (arith, length-drop n xs)

-- Only the last `m` items matter for what comes after them.
pub last_n-append : (m : ℕ) (xs ys : List ℕ) → last_n m (last_n m xs ++ ys) ≡ last_n m (xs ++ ys)
last_n-append m xs ys =
    let a = length xs - m in
    let p : drop a xs ++ ys ≡ drop a (xs ++ ys) = sym (drop-append a xs ys (omega arith)) in
    rw p (drop-drop a _ _ (xs ++ ys) (omega (arith, length-drop a (xs ++ ys), length-append xs ys)))

pub read-append :
    (h : ℕ → ℕ) (n m i : ℕ) {k t : ℕ}
    → i + n ≡ k
    → n + m ≡ t
    → read_times h t i ≡ read_times h n i ++ read_times h m k
unfolding read_times
read-append h zero m i {k} {t} e f =
    let p : m ≡ t = omega arith in let q : i ≡ k = omega arith in rw (p, q)
read-append h (suc n) m i {k} {t = zero} e f = absurd (omega arith)
read-append h (suc n) m i {k} {t = suc t} e f =
    ap (λ r. h i ∷ r) (read-append h n m (i + 1) (omega arith) (omega arith))

pub read-update :
    (h : ℕ → ℕ) (j v n i : ℕ)
    → (j < i) ⊎ (i + n ≤ j)
    → read_times (update h j v) n i ≡ read_times h n i
unfolding read_times
read-update h j v zero i out = refl
read-update h j v (suc n) i out = ground (arith, read-update h j v n (i + 1))

pub read-one : (h : ℕ → ℕ) (i : ℕ) → read_times h 1 i ≡ h i ∷ []
unfolding read_times
read-one h i = refl

pub read-cons :
    (h : ℕ → ℕ) (n i : ℕ) (ys : List ℕ)
    → read_times h (suc n) i ++ ys ≡ h i ∷ (read_times h n (i + 1) ++ ys)
unfolding read_times
read-cons h n i ys = refl

pub length-read : (h : ℕ → ℕ) (n i : ℕ) → length (read_times h n i) ≡ n
unfolding read_times
length-read h zero i = refl
length-read h (suc n) i = omega (arith, length-read h n (i + 1))

-- Reading up to a fresh entry.
pub read-update_last :
    (h : ℕ → ℕ) (j v : ℕ) → read_times (update h j v) (j + 1) 0 ≡ read_times h j 0 ++ v ∷ []
read-update_last h j v =
    read-append (update h j v) j 1 0 {k = j} (omega arith) refl
    ∙ rw (read-update h j v j 0 (inr (omega arith)), read-one (update h j v) j, update_self h j v)

pub sum_loop-eq-sum :
    (h : ℕ → ℕ) (n i acc : ℕ)
    → acc ≤ u64_max
    → sum_loop h n i acc ≡ min (acc + sum (read_times h n i)) u64_max
unfolding sum_loop read_times
sum_loop-eq-sum h zero i acc fits = omega arith
sum_loop-eq-sum h (suc n) i acc fits =
    omega (arith, sum_loop-eq-sum h n (i + 1) (sat_add u64_max acc (h i)))

pub last_n-short : (m : ℕ) (xs : List ℕ) → length xs ≤ m → last_n m xs ≡ xs
last_n-short m xs h = let p : length xs - m ≡ 0 = omega arith in rw p

pub last_n-over : (m x : ℕ) (xs : List ℕ) → length xs ≡ m → last_n m (x ∷ xs) ≡ xs
last_n-over m x xs h = let p : suc (length xs) - m ≡ 1 = omega arith in rw p
