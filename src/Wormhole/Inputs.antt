-- ===== src/Wormhole/Inputs.antt =====
-- The public inputs of a proof (`WormholePublicInputs::from_fields` of
-- pallets/wormhole/src/lib.rs). A field element is its canonical u64; a byte array is a list of
-- bytes; an index out of bounds panics.
use chain_testing.Prelude.{
  ℕ, zero, suc, ◌+◌, ◌/◌, ◌%◌, Option, some, List, [], ◌∷◌, ◌++◌, ltb, if◌then◌else◌, length,
  get_elem?,
}
use chain_testing.Prelude.Panic.{◌>>=◌}
use chain_testing.Dispatch.{DispatchResult, done, refused, pallet_error, or_fail, or_panic}

-- The pallet's errors.
pub data WormholeError : Type 0 where
  invalid_proof proof_deserialization_failed invalid_verification_key : WormholeError
  not_initialized already_initialized verification_failed : WormholeError
  verifier_not_found invalid_public_inputs nullifier_already_used : WormholeError

pub record WormholePublicInputs : Type 0 where
  pub nullifier : List ℕ
  pub exit_account : ℕ
  pub exit_amount : ℕ
  pub fee_amount : ℕ
  pub storage_root : List ℕ

-- The low bytes of a number, the lowest first.
abbrev pub low_bytes : ℕ → ℕ → List ℕ
low_bytes zero n = []
low_bytes (suc k) n = n % 256 ∷ low_bytes k (n / 256)

-- `u64::to_le_bytes`.
abbrev pub to_le_bytes : ℕ → List ℕ
to_le_bytes n = low_bytes 8 n

-- The loops that copy the bytes of `count` fields, from the field at `start` on.
abbrev pub copy_fields : List ℕ → ℕ → ℕ → Option (List ℕ)
copy_fields fields start zero = some []
copy_fields fields start (suc count) = get_elem? fields start >>= λ field.
    copy_fields fields (start + 1) count >>= λ rest. some (to_le_bytes field ++ rest)

-- `decode` is the decoding of an account.
unfoldable pub from_fields :
    (List ℕ → Option ℕ) → List ℕ → DispatchResult WormholeError WormholePublicInputs
from_fields decode fields =
    if ltb (length fields) 16
    then refused (pallet_error invalid_public_inputs)
    else or_panic (copy_fields fields 0 8) λ nullifier.
      or_panic (copy_fields fields 8 4) λ account_bytes.
        or_panic (get_elem? fields 12) λ exit_amount. or_panic (get_elem? fields 13) λ fee_amount.
          or_panic (copy_fields fields 14 4) λ storage_root.
            or_fail (decode account_bytes) invalid_public_inputs λ exit_account. done (record {
              nullifier = nullifier;
              exit_account = exit_account;
              exit_amount = exit_amount;
              fee_amount = fee_amount;
              storage_root = storage_root;
            })
