-- ===== src/Wormhole/Fields.antt =====
-- The field elements behind a nullifier (`from_fields` of pallets/wormhole/src/lib.rs).
use mathlib.Core.Path.{subst}
use chain_testing.Prelude.{
  ℕ, zero, suc, ◌+◌, ◌/◌, ◌^◌, ◌<◌, ◌≤◌, ℕ_discrete, ◌≡◌, sym, ap, ◌∙◌, Option, some, some_eq,
  Bool-cases, inl, inr, List, [], ◌∷◌, ◌++◌, ltb, length, All, get_elem?, arith,
}
use chain_testing.Prelude.Bytes.{div_lt}
use chain_testing.Prelude.Panic.{>>=-eq-some}
use chain_testing.Dispatch.{
  DispatchResult, refused, pallet_error, done, done_eq, or_panic_inv, or_fail_inv,
}
use chain_testing.Wormhole.Inputs.{
  WormholeError, WormholePublicInputs, invalid_public_inputs, low_bytes, copy_fields, from_fields,
}

∷-eq : {A : Type 0} {x y : A} {xs ys : List A} → x ∷ xs ≡ y ∷ ys → (x ≡ y) × (xs ≡ ys)
∷-eq e = (cc, cc)

-- Bytes of the same number of places determine the number, and what follows them.
low_bytes_injective :
    (k n m : ℕ) (xs ys : List ℕ)
    → n < 256 ^ k
    → m < 256 ^ k
    → low_bytes k n ++ xs ≡ low_bytes k m ++ ys
    → (n ≡ m) × (xs ≡ ys)
low_bytes_injective zero n m xs ys h h' e = (omega arith, e)
low_bytes_injective (suc k) n m xs ys h h' e =
    let (low, rest) = ∷-eq e in
    let (high, end) =
      low_bytes_injective k (n / 256) (m / 256) xs ys (div_lt k n h) (div_lt k m h') rest in
    (omega arith, end)

get_All : (P : ℕ → Type 0) (xs : List ℕ) (i : ℕ) {x : ℕ} → All P xs → get_elem? xs i ≡ some x → P x
get_All P [] i all e = absurd cc
get_All P (y ∷ ys) zero (p, _) e = subst P (some_eq e) p
get_All P (y ∷ ys) (suc i) (_, all) e = get_All P ys i all e

copy_fields_injective :
    (fields fields' : List ℕ) (start count i : ℕ) {bytes : List ℕ}
    → All (λ field. field < 2 ^ 64) fields
    → All (λ field. field < 2 ^ 64) fields'
    → copy_fields fields start count ≡ some bytes
    → copy_fields fields' start count ≡ some bytes
    → start ≤ i
    → i < start + count
    → get_elem? fields i ≡ get_elem? fields' i
copy_fields_injective fields fields' start zero i all all' e e' from h = absurd (omega arith)
copy_fields_injective fields fields' start (suc count) i all all' e e' from h =
    let (x, ex, rx) = >>=-eq-some (get_elem? fields start) _ e in
    let (y, ey, ry) = >>=-eq-some (get_elem? fields' start) _ e' in
    let (xs, exs, bx) = >>=-eq-some (copy_fields fields (start + 1) count) _ rx in
    let (ys, eys, by) = >>=-eq-some (copy_fields fields' (start + 1) count) _ ry in
    let (same, rest) =
      low_bytes_injective 8 x y xs ys (get_All _ fields start all ex)
        (get_All _ fields' start all' ey) (some_eq (bx ∙ sym by)) in
    elim (ℕ_discrete i start) [
      | yes here ↦ rw here (ex ∙ ap some same ∙ sym ey)
      | no later ↦
          copy_fields_injective fields fields' (start + 1) count i all all' (exs ∙ ap some rest) eys
            (omega arith) (omega arith)
    ]

not_done :
    {e : WormholeError} (p : WormholePublicInputs)
    → Path (DispatchResult WormholeError WormholePublicInputs) (refused (pallet_error e)) (done p)
    → ⊥
not_done p e = cc

-- The nullifier is copied from the first eight fields.
copies_nullifier :
    (decode : List ℕ → Option ℕ) (fields : List ℕ) {p : WormholePublicInputs}
    → from_fields decode fields ≡ done p
    → copy_fields fields 0 8 ≡ some p.nullifier
unfolding from_fields
copies_nullifier decode fields {p} e = elim (Bool-cases (ltb (length fields) 16)) [
  | inl short ↦ absurd (not_done p (rw short at e))
  | inr enough ↦
      let (nullifier, first, e1) = or_panic_inv (copy_fields fields 0 8) _ (rw enough at e) in
      let (account_bytes, _, e2) = or_panic_inv (copy_fields fields 8 4) _ e1 in
      let (exit_amount, _, e3) = or_panic_inv (get_elem? fields 12) _ e2 in
      let (fee_amount, _, e4) = or_panic_inv (get_elem? fields 13) _ e3 in
      let (root, _, e5) = or_panic_inv (copy_fields fields 14 4) _ e4 in
      let (exit_account, _, e6) = or_fail_inv (decode account_bytes) invalid_public_inputs _ e5 in
      first ∙ ap (λ (r : WormholePublicInputs). some r.nullifier) (done_eq e6)
]

-- Two proofs of the same nullifier have the same first eight public inputs, which the nullifier is
-- made of, where the public inputs are 64-bit numbers.
pub from_fields_nullifier :
    (decode : List ℕ → Option ℕ) (fields fields' : List ℕ) (i : ℕ) {p q : WormholePublicInputs}
    → All (λ field. field < 2 ^ 64) fields
    → All (λ field. field < 2 ^ 64) fields'
    → from_fields decode fields ≡ done p
    → from_fields decode fields' ≡ done q
    → p.nullifier ≡ q.nullifier
    → i < 8
    → get_elem? fields i ≡ get_elem? fields' i
from_fields_nullifier decode fields fields' i all all' e e' same h =
    copy_fields_injective fields fields' 0 8 i all all'
      (copies_nullifier decode fields e ∙ ap some same) (copies_nullifier decode fields' e')
      (omega arith) h
