-- ===== src/Qpow/History.antt =====
-- The ring buffer of block times (pallets/qpow/src/lib.rs). A map without an entry reads 0.
use chain_testing.Prelude.{
  ℕ, zero, suc, Option, none, some, ◌+◌, ◌-◌, ◌/◌, ◌%◌, List, [], ◌∷◌, length, ltb, leb, ◌==◌,
  if◌then◌else◌, update,
}
use chain_testing.Prelude.Uint.{u32_max, u64_max, sat_add}
use chain_testing.Qpow.Types.{Config, State}

-- The writes of `record_block_time`.
unfoldable pub store_block_time : Config → ℕ → State → State
store_block_time c block_time s = record s {
  block_time_history = update s.block_time_history s.history_index block_time;
  history_index = sat_add u32_max s.history_index 1 % c.block_time_history_size;
  history_size =
      if ltb s.history_size c.block_time_history_size
      then sat_add u32_max s.history_size 1
      else c.block_time_history_size;
}

-- `record_block_time`, whose remainder panics for a history of size 0.
unfoldable pub record_block_time : Config → ℕ → State → Option State
unfolding store_block_time
record_block_time c block_time s =
    if c.block_time_history_size == 0 then none else some (store_block_time c block_time s)

-- `for i in i..i + n { sum = sum.saturating_add(history(i)) }`
unfoldable pub sum_loop : (ℕ → ℕ) → ℕ → ℕ → ℕ → ℕ
sum_loop history zero i sum = sum
sum_loop history (suc n) i sum = sum_loop history n (i + 1) (sat_add u64_max sum (history i))

unfoldable pub get_block_time_sum : Config → State → ℕ
unfolding sum_loop
get_block_time_sum c s =
    if s.history_size == 0
    then c.target_block_time
    else sum_loop s.block_time_history s.history_size 0 0

-- `for i in i..i + n { times.push(history(i)) }`
unfoldable pub read_times : (ℕ → ℕ) → ℕ → ℕ → List ℕ
read_times history zero i = []
read_times history (suc n) i = history i ∷ read_times history n (i + 1)

-- `sort` of the standard library
unfoldable pub insert_sorted : ℕ → List ℕ → List ℕ
insert_sorted x [] = x ∷ []
insert_sorted x (y ∷ ys) = if leb x y then x ∷ y ∷ ys else y ∷ insert_sorted x ys

unfoldable pub sort : List ℕ → List ℕ
unfolding insert_sorted
sort [] = []
sort (x ∷ xs) = insert_sorted x (sort xs)

-- An index within bounds; the code only reads such.
unfoldable pub get_or : List ℕ → ℕ → ℕ → ℕ
get_or [] i d = d
get_or (x ∷ xs) zero d = x
get_or (x ∷ xs) (suc i) d = get_or xs i d

unfoldable pub median : List ℕ → ℕ
unfolding get_or
median times =
    let mid = length times / 2 in
    if length times % 2 == 0
    then sat_add u64_max (get_or times (mid - 1) 0) (get_or times mid 0) / 2
    else get_or times mid 0

unfoldable pub get_median_block_time : Config → State → ℕ
unfolding read_times sort median
get_median_block_time c s =
    if s.history_size == 0
    then c.target_block_time
    else median (sort (read_times s.block_time_history s.history_size 0))
