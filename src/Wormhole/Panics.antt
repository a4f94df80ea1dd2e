-- ===== src/Wormhole/Panics.antt =====
-- When the public inputs are read past their end (pallets/wormhole/src/lib.rs).
use chain_testing.Prelude.{
  ℕ, zero, suc, ◌+◌, ◌≤◌, ◌<◌, ◌≡◌, ◌↔◌, refl, Option, none, some, List, [], ◌++◌, dec_lt, sym, ◌∙◌,
  lt→ltb, ltb-false, length, get_elem?, get_elem?-some, get_elem?-none, arith,
}
use chain_testing.Dispatch.{DispatchResult, done, refused, panicked, pallet_error, or_fail}
use chain_testing.Wormhole.Inputs.{
  WormholeError, WormholePublicInputs, invalid_public_inputs, copy_fields, from_fields, to_le_bytes,
}

-- Fields that are all there are copied.
pub copy_fields-some :
    (fields : List ℕ) (start count : ℕ)
    → start + count ≤ length fields
    → (bytes : List ℕ) × (copy_fields fields start count ≡ some bytes)
copy_fields-some fields start zero h = ([], refl)
copy_fields-some fields start (suc count) h =
    let (field, e) = get_elem?-some fields start (omega arith) in
    let (rest, er) = copy_fields-some fields (start + 1) count (omega arith) in
    (to_le_bytes field ++ rest, rw (e, er))

-- Fields that are not all there are a panic.
copy_fields-none :
    (fields : List ℕ) (start count : ℕ)
    → start ≤ length fields
    → length fields < start + count
    → copy_fields fields start count ≡ none
copy_fields-none fields start zero h k = absurd (omega arith)
copy_fields-none fields start (suc count) h k = elim (dec_lt start (length fields)) [
  | yes more ↦
      let (field, e) = get_elem?-some fields start more in
      let rest = copy_fields-none fields (start + 1) count (omega arith) (omega arith) in
      rw (e, rest)
  | no end ↦ rw (get_elem?-none fields start (omega arith))
]

-- The last step, which decodes the account, does not panic.
decode_returns :
    {A B : Type 0} (o : Option A) (e : WormholeError) (f : A → B)
    → or_fail o e (λ a. done (f a)) ≡ panicked
    → ⊥
decode_returns none e f h = cc
decode_returns (some a) e f h = cc

refused_returns :
    (e : WormholeError)
    → Path (DispatchResult WormholeError WormholePublicInputs) (refused (pallet_error e)) panicked
    → ⊥
refused_returns e h = cc

module _ (decode : List ℕ → Option ℕ) (fields : List ℕ) where
  from_fields_short :
      length fields < 16 → from_fields decode fields ≡ refused (pallet_error invalid_public_inputs)
  unfolding from_fields
  from_fields_short h = rw (lt→ltb _ 16 h)

  -- The fields before the storage root.
  record IsRead : Type 0 where
    nullifier : List ℕ
    account_bytes : List ℕ
    exit_amount : ℕ
    fee_amount : ℕ
    first : copy_fields fields 0 8 ≡ some nullifier
    second : copy_fields fields 8 4 ≡ some account_bytes
    third : get_elem? fields 12 ≡ some exit_amount
    fourth : get_elem? fields 13 ≡ some fee_amount

  read_head : 16 ≤ length fields → IsRead
  read_head h =
      let (nullifier, first) = copy_fields-some fields 0 8 (omega arith) in
      let (account_bytes, second) = copy_fields-some fields 8 4 (omega arith) in
      let (exit_amount, third) = get_elem?-some fields 12 (omega arith) in
      let (fee_amount, fourth) = get_elem?-some fields 13 (omega arith) in
      record {
        nullifier = nullifier;
        account_bytes = account_bytes;
        exit_amount = exit_amount;
        fee_amount = fee_amount;
        first = first;
        second = second;
        third = third;
        fourth = fourth;
      }

  from_fields_gap : 16 ≤ length fields → length fields < 18 → from_fields decode fields ≡ panicked
  unfolding from_fields
  from_fields_gap h k =
      let p = read_head h in
      let root = copy_fields-none fields 14 4 (omega arith) (omega arith) in
      rw (ltb-false (length fields) 16 h, p.first, p.second, p.third, p.fourth, root)

  from_fields_long : 18 ≤ length fields → from_fields decode fields ≡ panicked → ⊥
  unfolding from_fields
  from_fields_long h e =
      let p = read_head (omega arith) in
      let (root, er) = copy_fields-some fields 14 4 (omega arith) in
      decode_returns (decode p.account_bytes) invalid_public_inputs _ (
        rw (ltb-false (length fields) 16 (omega arith), p.first, p.second, p.third, p.fourth, er) at
          e)

  -- Reading the public inputs panics for 16 or 17 fields, which pass the check of the length, and
  -- for no other number of them.
  pub from_fields-panicked :
      from_fields decode fields ≡ panicked ↔ (16 ≤ length fields × length fields < 18)
  from_fields-panicked = (
    λ e. elim (dec_lt (length fields) 16) [
      | yes short ↦ absurd (refused_returns _ (sym (from_fields_short short) ∙ e))
      | no enough ↦ elim (dec_lt (length fields) 18) [
        | yes gap ↦ (omega arith, gap)
        | no long ↦ absurd (from_fields_long (omega arith) e)
      ]
    ],
    λ (h, k). from_fields_gap h k,
  )
