-- ===== src/Qpow/Window.antt =====
-- The ring buffer of block times, as a rotated list of the last times (`record_block_time` and
-- `get_block_time_sum` in pallets/qpow/src/lib.rs).
use native.Mathlib.Nat.{mod-eq_of_lt, mod_self}
use mathlib.Core.List.{append-nil, append_assoc}
use chain_testing.Prelude.Panic.{◌>>=◌}
use chain_testing.Prelude.{
  Option, some, ==_false, ℕ, zero, suc, ◌+◌, ◌-◌, ◌^◌, ◌≤◌, ◌<◌, ◌≡◌, ◌∙◌, refl, ap, sym, inl, inr,
  min, List, [], ◌∷◌, ◌++◌, arith, length, sum, sum-append, length-append, update, ltb, Bool-cases,
  ltb→lt,
}
use chain_testing.Prelude.Uint.{u32_max, u64_max, sat_add}
use chain_testing.Qpow.Types.{Config, State}
use chain_testing.Qpow.History.{store_block_time, record_block_time, get_block_time_sum, read_times}
use chain_testing.Qpow.Hooks.{empty_storage}
use chain_testing.Qpow.Times.{
  last_n, length-drop, last_n-append, read-append, read-update, read-one, read-cons, length-read,
  read-update_last, sum_loop-eq-sum, last_n-short, last_n-over,
}

-- The buffer holds the queue `q`: either it fills up from index 0, or it is full and the oldest
-- entry is at the index.
data Holds (c : Config) (s : State) (q : List ℕ) : Type 0 where
  filling :
      s.history_index ≡ s.history_size
      → s.history_size < c.block_time_history_size
      → q ≡ read_times s.block_time_history s.history_size 0
      → Holds c s q
  full :
      (rest : ℕ)
      → s.history_size ≡ c.block_time_history_size
      → s.history_index + suc rest ≡ c.block_time_history_size
      → q
        ≡ read_times s.block_time_history (suc rest) s.history_index
          ++ read_times s.block_time_history s.history_index 0
      → Holds c s q

-- Where the next entry goes, and how many there are then.
next_index :
    (c : Config) (t : ℕ) (s : State)
    → c.block_time_history_size < 2 ^ 32
    → s.history_index + 1 < c.block_time_history_size
    → (store_block_time c t s).history_index ≡ s.history_index + 1
unfolding store_block_time
next_index c t s fits h = mod-eq_of_lt (omega arith) ∙ omega arith

wrap_index :
    (c : Config) (t : ℕ) (s : State)
    → c.block_time_history_size < 2 ^ 32
    → s.history_index + 1 ≡ c.block_time_history_size
    → (store_block_time c t s).history_index ≡ 0
unfolding store_block_time
wrap_index c t s fits h =
    let p : sat_add u32_max s.history_index 1 ≡ c.block_time_history_size = omega arith in
    rw (p, mod_self)

next_size :
    (c : Config) (t : ℕ) (s : State)
    → c.block_time_history_size < 2 ^ 32
    → s.history_size ≤ c.block_time_history_size
    → (store_block_time c t s).history_size ≡ min (s.history_size + 1) c.block_time_history_size
unfolding store_block_time
next_size c t s fits h = ground arith

next_history :
    (c : Config) (t : ℕ) (s : State)
    → (store_block_time c t s).block_time_history ≡ update s.block_time_history s.history_index t
unfolding store_block_time
next_history c t s = refl

-- After the entry before index `i` was written, the buffer up to it.
first_part :
    (c : Config) (t : ℕ) (s : State) {i : ℕ}
    → s.history_index + 1 ≡ i
    → read_times (store_block_time c t s).block_time_history i 0
      ≡ read_times s.block_time_history s.history_index 0 ++ t ∷ []
first_part c t s {i} e =
    rw (next_history c t s, ← e) (read-update_last s.block_time_history s.history_index t)

-- From an empty second half.
wrapped :
    (c : Config) (t : ℕ) (s : State) (q : List ℕ)
    → c.block_time_history_size < 2 ^ 32
    → s.history_size ≤ c.block_time_history_size
    → c.block_time_history_size ≤ s.history_size + 1
    → s.history_index + 1 ≡ c.block_time_history_size
    → q ≡ read_times s.block_time_history s.history_index 0 ++ t ∷ []
    → Holds c (store_block_time c t s) q
unfolding read_times
wrapped c t s q fits le ge ix e =
    full s.history_index (omega (arith, next_size c t s fits le))
      (omega (arith, wrap_index c t s fits ix))
      (e
        ∙ rw (wrap_index c t s fits ix, append-nil)
            (sym (first_part c t s {i = suc s.history_index} (omega arith))))

-- A full queue loses its oldest item.
drop_oldest :
    (m t x : ℕ) {q : List ℕ} (w : List ℕ)
    → q ≡ x ∷ w
    → length w + 1 ≡ m
    → last_n m (q ++ t ∷ []) ≡ w ++ t ∷ []
drop_oldest m t x w e n =
    rw e (last_n-over m x (w ++ t ∷ []) (omega (arith, length-append w (t ∷ []))))

store_block_time-Holds :
    (c : Config) (t : ℕ) (s : State) (q : List ℕ)
    → c.block_time_history_size < 2 ^ 32
    → Holds c s q
    → Holds c (store_block_time c t s) (last_n c.block_time_history_size (q ++ t ∷ []))
store_block_time-Holds c t s q fits (filling e less r) =
    let n : length (q ++ t ∷ []) ≡ s.history_size + 1 = omega (
      arith,
      length-append q (t ∷ []),
      ap length r,
      length-read s.block_time_history s.history_size 0,
    ) in
    let p = last_n-short c.block_time_history_size (q ++ t ∷ []) (omega arith) in
    let r' : q ++ t ∷ [] ≡ read_times s.block_time_history s.history_index 0 ++ t ∷ [] =
      rw (r, e) in
    rw p (elim (Bool-cases (ltb (s.history_index + 1) c.block_time_history_size)) [
      | inl more ↦
          let i = next_index c t s fits (ltb→lt _ _ more) in
          let z = next_size c t s fits (omega arith) in
          let less' : s.history_index + 1 < c.block_time_history_size = ltb→lt _ _ more in
          filling (omega (arith, i, z)) (omega (arith, z, less'))
            (r' ∙ sym (first_part c t s (omega (arith, z, less'))))
      | inr last ↦ wrapped c t s _ fits (omega arith) (ground arith) (ground arith) r'
    ])
store_block_time-Holds c t s q fits (full zero e ix r) =
    let h = s.block_time_history in
    let p : last_n c.block_time_history_size (q ++ t ∷ [])
        ≡ read_times h s.history_index 0 ++ t ∷ [] =
      drop_oldest c.block_time_history_size t (h s.history_index) (read_times h s.history_index 0)
        (r ∙ rw (read-one h s.history_index)) (omega (arith, length-read h s.history_index 0)) in
    rw p (wrapped c t s _ fits (omega arith) (omega arith) (omega arith) refl)
store_block_time-Holds c t s q fits (full (suc rest) e ix r) =
    let h = s.block_time_history in
    let i = next_index c t s fits (omega arith) in
    let w = read_times h (suc rest) (s.history_index + 1) ++ read_times h s.history_index 0 in
    let p : last_n c.block_time_history_size (q ++ t ∷ []) ≡ w ++ t ∷ [] =
      drop_oldest c.block_time_history_size t (h s.history_index) w
        (r ∙ read-cons h (suc rest) s.history_index _)
        (omega (
          arith,
          length-append (read_times h (suc rest) (s.history_index + 1))
              (read_times h s.history_index 0),
          length-read h (suc rest) (s.history_index + 1),
          length-read h s.history_index 0,
        )) in
    rw p (
      full rest (omega (arith, next_size c t s fits (omega arith))) (omega (arith, i)) (
        rw i (
          rw
            (
              first_part c t s {i = s.history_index + 1} refl,
              next_history c t s,
              read-update h s.history_index t (suc rest) (s.history_index + 1) (inl (omega arith)),
            )
            (append_assoc (read_times h (suc rest) (s.history_index + 1))
              (read_times h s.history_index 0) (t ∷ [])))))

-- The queue is as long as the buffer's size says, and no longer than the buffer.
Holds-length :
    (c : Config) (s : State) (q : List ℕ)
    → Holds c s q
    → (length q ≡ s.history_size) × (length q ≤ c.block_time_history_size)
Holds-length c s q (filling e less r) =
    omega (arith, ap length r, length-read s.block_time_history s.history_size 0)
Holds-length c s q (full rest e ix r) =
    let h = s.block_time_history in
    omega (
      arith,
      ap length r,
      length-append (read_times h (suc rest) s.history_index) (read_times h s.history_index 0),
      length-read h (suc rest) s.history_index,
      length-read h s.history_index 0,
    )

-- The times of successive blocks.
unfoldable pub record_all : Config → List ℕ → State → Option State
record_all c [] s = some s
record_all c (t ∷ ts) s = record_block_time c t s >>= record_all c ts

record_all-Holds :
    (c : Config) (ts : List ℕ) (s : State) (q : List ℕ)
    → 0 < c.block_time_history_size
    → c.block_time_history_size < 2 ^ 32
    → Holds c s q
    → (s' : State) × (record_all c ts s ≡ some s')
      × Holds c s' (last_n c.block_time_history_size (q ++ ts))
unfolding record_all record_block_time
record_all-Holds c [] s q pos fits h =
    (s, refl, rw (append-nil, last_n-short c.block_time_history_size q (Holds-length c s q h).1) h)
record_all-Holds c (t ∷ ts) s q pos fits h =
    let m = c.block_time_history_size in
    let p : last_n m (last_n m (q ++ t ∷ []) ++ ts) ≡ last_n m (q ++ t ∷ ts) =
      last_n-append m (q ++ t ∷ []) ts ∙ rw (append_assoc q (t ∷ []) ts) in
    let (s', e, held) =
      record_all-Holds c ts (store_block_time c t s) (last_n m (q ++ t ∷ [])) pos fits
        (store_block_time-Holds c t s q fits h) in
    (s', rw (==_false m 0 (λ z. omega arith)) e, rw p at held)

Holds-sum :
    (c : Config) (s : State) (q : List ℕ)
    → Holds c s q
    → sum q ≡ sum (read_times s.block_time_history s.history_size 0)
Holds-sum c s q (filling e less r) = ap sum r
Holds-sum c s q (full rest e ix r) =
    let h = s.block_time_history in
    rw
      (
        r,
        read-append h s.history_index (suc rest) 0 {k = s.history_index} {t = s.history_size}
            (omega arith) (omega arith),
      )
      (omega (
        arith,
        sum-append (read_times h (suc rest) s.history_index) (read_times h s.history_index 0),
        sum-append (read_times h s.history_index 0) (read_times h (suc rest) s.history_index),
      ))

empty-Holds : (c : Config) → 0 < c.block_time_history_size → Holds c empty_storage []
unfolding read_times
empty-Holds c pos = filling refl pos refl

sum_of_held :
    (c : Config) (s : State) (q : List ℕ)
    → Holds c s q
    → 0 < length q
    → get_block_time_sum c s ≡ min (sum q) u64_max
unfolding get_block_time_sum
sum_of_held c s q h pos = ground (
  arith,
  Holds-length c s q h,
  Holds-sum c s q h,
  sum_loop-eq-sum s.block_time_history s.history_size 0 0 (omega arith),
)

-- For a history size of 32 bits that is not 0: from an empty history, the recording of at least one
-- block time does not panic, and then the sum that the retargeting reads is the sum of the last
-- `block_time_history_size` of them, or the largest u64 if that is less.
pub get_block_time_sum-record_all :
    (c : Config) (t : ℕ) (ts : List ℕ)
    → 0 < c.block_time_history_size
    → c.block_time_history_size < 2 ^ 32
    → (s : State) × (record_all c (t ∷ ts) empty_storage ≡ some s)
      × (get_block_time_sum c s ≡ min (sum (last_n c.block_time_history_size (t ∷ ts))) u64_max)
get_block_time_sum-record_all c t ts pos fits =
    let n = c.block_time_history_size in
    let (s, e, held) = record_all-Holds c (t ∷ ts) empty_storage [] pos fits (empty-Holds c pos) in
    (
      s,
      e,
      sum_of_held c s (last_n n (t ∷ ts)) held
          (omega (arith, length-drop (length (t ∷ ts) - n) (t ∷ ts))),
    )
