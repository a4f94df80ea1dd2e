-- ===== src/Wormhole/Tests.antt =====
-- The theorems on the wormhole pallet at a concrete circuit and concrete proofs.
use chain_testing.Prelude.{
  ℕ, ◌+◌, ◌≡◌, ◌≤◌, ◌<◌, ◌↔◌, refl, List, [], ◌∷◌, ◌++◌, Option, none, some, true, false, is_some,
  length, All, get_elem?, update,
}
use chain_testing.Dispatch.{unsigned, done, panicked}
use chain_testing.Wormhole.Inputs.{WormholePublicInputs, from_fields}
use chain_testing.Wormhole.Calls.{
  Circuit, Minting, Wormholes, proof_verified, insert, verify_wormhole_proof,
}
use chain_testing.Wormhole.Panics.{from_fields-panicked}
use chain_testing.Wormhole.Once.{Mints, stop, next, Distinct, IsProved, deposit_all, Mints-once}

abbrev decode : List ℕ → Option ℕ
decode bytes = get_elem? bytes 0

-- A proof of the nullifier n that pays 100 to account 7.
abbrev fields_of : ℕ → List ℕ
fields_of n = n ∷ 0 ∷ 0 ∷ 0 ∷ 0 ∷ 0 ∷ 0 ∷ 0 ∷ 7 ∷ 0 ∷ 0 ∷ 0 ∷ 100 ∷ 1 ∷ 9 ∷ 0 ∷ 0 ∷ 0 ∷ []

abbrev zeros : List ℕ
zeros = 0 ∷ 0 ∷ 0 ∷ 0 ∷ 0 ∷ 0 ∷ 0 ∷ []

abbrev inputs_of : ℕ → WormholePublicInputs
inputs_of n = record {
  nullifier =
      n ∷ zeros
      ++ (zeros
          ++ (zeros
              ++ (zeros
                  ++ (zeros
                      ++ (zeros ++ (zeros ++ (zeros ++ (0 ∷ 0 ∷ 0 ∷ 0 ∷ 0 ∷ 0 ∷ 0 ∷ []))))))));
  exit_account = 7;
  exit_amount = 100;
  fee_amount = 1;
  storage_root = 9 ∷ zeros ++ (zeros ++ (zeros ++ (zeros ++ (0 ∷ 0 ∷ 0 ∷ []))));
}

reads_2 : from_fields decode (fields_of 2) ≡ done (inputs_of 2)
unfolding from_fields
reads_2 = refl

reads_3 : from_fields decode (fields_of 3) ≡ done (inputs_of 3)
unfolding from_fields
reads_3 = refl

-- Sixteen fields pass the check of the length, and the reading of the storage root panics.
abbrev sixteen : List ℕ
sixteen = 2 ∷ 0 ∷ 0 ∷ 0 ∷ 0 ∷ 0 ∷ 0 ∷ 0 ∷ 7 ∷ 0 ∷ 0 ∷ 0 ∷ 100 ∷ 1 ∷ 9 ∷ 0 ∷ []

from_fields-panicked_example :
    from_fields decode sixteen ≡ panicked ↔ (16 ≤ length sixteen × length sixteen < 18)
from_fields-panicked_example = from_fields-panicked decode sixteen

sixteen-panicked : from_fields decode sixteen ≡ panicked
unfolding from_fields
sixteen-panicked = refl

-- The bytes of a proof are its fields, and the circuit accepts every proof.
abbrev circuit : Circuit (List ℕ)
circuit = record { from_bytes = λ b. some b; public_inputs = λ p. p; verify = λ p. true }

abbrev minting : Minting (ℕ → ℕ)
minting = record {
  decode = decode;
  balance_of = λ n. some n;
  deposit_creating = λ who amount bank. update bank who (bank who + amount);
}

abbrev genesis : Wormholes (ℕ → ℕ)
genesis = record { used_nullifiers = λ _. none; bank = λ _. 0; events = [] }

abbrev mint : ℕ → Wormholes (ℕ → ℕ) → Wormholes (ℕ → ℕ)
mint n s = record {
  used_nullifiers = insert s.used_nullifiers (inputs_of n).nullifier true;
  bank = update s.bank 7 (s.bank 7 + 100);
  events = proof_verified 100 ∷ s.events;
}

mints_2 :
    verify_wormhole_proof circuit minting unsigned (fields_of 2) genesis ≡ done (mint 2 genesis)
unfolding verify_wormhole_proof from_fields
mints_2 = refl

mints_3 :
    verify_wormhole_proof circuit minting unsigned (fields_of 3) (mint 2 genesis)
    ≡ done (mint 3 (mint 2 genesis))
unfolding verify_wormhole_proof from_fields
mints_3 = refl

run : Mints circuit minting genesis (inputs_of 3 ∷ inputs_of 2 ∷ []) (mint 3 (mint 2 genesis))
run =
    next
      (next stop unsigned (fields_of 2) (inputs_of 2)
        (record { proof = fields_of 2; parsed = refl; read = reads_2 }) mints_2)
      unsigned (fields_of 3) (inputs_of 3)
      (record { proof = fields_of 3; parsed = refl; read = reads_3 }) mints_3

Mints-once_example :
    Distinct circuit minting (inputs_of 3 ∷ inputs_of 2 ∷ [])
    × All
        (λ p. is_some (genesis.used_nullifiers p.nullifier) ≡ false)
        (inputs_of 3 ∷ inputs_of 2 ∷ [])
    × All (IsProved circuit minting) (inputs_of 3 ∷ inputs_of 2 ∷ [])
    × ((mint 3 (mint 2 genesis)).bank
        ≡ deposit_all circuit minting (inputs_of 3 ∷ inputs_of 2 ∷ []) genesis.bank)
Mints-once_example = Mints-once circuit minting run
