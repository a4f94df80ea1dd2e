-- ===== src/Signature/Tests.antt =====
-- The theorems on signatures at small arrays and a toy cipher.
use chain_testing.Prelude.{
  ℕ, ◌≡◌, ◌≢◌, ◌≤◌, ◌<◌, ◌⊎◌, ◌↔◌, refl, none, some, List, [], ◌∷◌, ◌++◌, Bool, true, length, ◌==◌,
  ==-self, ==_false, if◌then◌else◌,
}
use chain_testing.Signature.Bytes.{
  Arrays, SignatureWithPublic, parsed, invalid, panicked, total_len, parse_slice, try_from,
  signature_of, public_of,
}
use chain_testing.Signature.Scheme.{Ciphers, resonance, same_bytes, verify_signature, into_account}
use chain_testing.Signature.Pair.{ResonancePair, Keypairs, from_seed, public_key, sign, verify_pair}
use chain_testing.Signature.Parsing.{IsArrays, try_from-parse_slice}
use chain_testing.Signature.Authorised.{IsAuthorised, verify-IsAuthorised}
use chain_testing.Signature.Signing.{IsKeypairs, verify_pair-key, sign-verify_pair}

abbrev arrays : Arrays
arrays = record {
  signature_len = 2;
  public_len = 3;
  from_slice = λ n slice. if length slice == n then some slice else none;
}

arrays-IsArrays : IsArrays arrays
arrays-IsArrays = record {
  sliced = λ slice. rw (==-self (length slice)) refl;
  unsliced = λ n slice h. rw (==_false (length slice) n h) refl;
}

abbrev zeros : List ℕ
zeros = 0 ∷ 0 ∷ 0 ∷ 0 ∷ 0 ∷ 0 ∷ 0 ∷ 0 ∷ []

-- The signature of every message is that of its pair.
abbrev ciphers : Ciphers
ciphers = record {
  ed25519_verify = λ sig msg key. same_bytes sig key;
  sr25519_verify = λ sig msg key. same_bytes sig key;
  recover = λ sig hash. some sig;
  blake2_256 = λ bytes. bytes;
  poseidon = λ key. key ++ (5 ∷ zeros ++ (zeros ++ (zeros ++ (0 ∷ 0 ∷ 0 ∷ 0 ∷ []))));
  dilithium_verify = λ sig msg key. same_bytes sig (8 ∷ 9 ∷ []);
  default_key = [];
}

abbrev key : List ℕ
key = 1 ∷ 2 ∷ 3 ∷ []

abbrev keypairs : Keypairs
keypairs = record {
  seed_len = 1;
  keypair = λ seed. record { secret = seed; public = key };
  sign = λ pair message. some (8 ∷ 9 ∷ []);
}

keypairs-IsKeypairs : IsKeypairs arrays ciphers keypairs
keypairs-IsKeypairs = record {
  public_size = λ seed h. refl;
  signs = λ seed message h. (8 ∷ 9 ∷ [], refl, refl, refl);
}

abbrev signed : SignatureWithPublic
signed = record { bytes = 8 ∷ 9 ∷ key }

abbrev short : List ℕ
short = 8 ∷ []

abbrev seed : List ℕ
seed = 4 ∷ []

abbrev message : List ℕ
message = 6 ∷ []

try_from-parse_slice_example :
    (((length short ≡ total_len arrays)
        × (parse_slice arrays short ≡ parsed (record { bytes = short })))
      ⊎ ((length short ≢ total_len arrays) × (parse_slice arrays short ≡ invalid)))
    × (((length short < 2) × (try_from arrays short ≡ panicked))
        ⊎ ((2 ≤ length short) × (try_from arrays short ≡ parse_slice arrays short)))
try_from-parse_slice_example = try_from-parse_slice arrays arrays-IsArrays short

verify-IsAuthorised_example :
    (b : Bool) × (verify_signature arrays ciphers (resonance signed) [] (ciphers.poseidon key)
      ≡ some b)
    × ((b ≡ true) ↔ IsAuthorised arrays ciphers (resonance signed) [] (ciphers.poseidon key))
verify-IsAuthorised_example =
    verify-IsAuthorised arrays ciphers arrays-IsArrays (resonance signed) [] (ciphers.poseidon key)
      refl refl

sign-verify_pair_example :
    ((length seed < 1) × (from_seed arrays ciphers keypairs seed ≡ none))
    ⊎ ((pair : ResonancePair) × (public : List ℕ) × (made : SignatureWithPublic) × (from_seed arrays
            ciphers keypairs seed
          ≡ some pair)
        × (public_key arrays ciphers keypairs pair ≡ some public)
        × (sign arrays ciphers keypairs pair message ≡ some made)
        × (verify_pair arrays ciphers keypairs made message public ≡ some true))
sign-verify_pair_example =
    sign-verify_pair arrays ciphers keypairs arrays-IsArrays seed message keypairs-IsKeypairs

accepts : verify_pair arrays ciphers keypairs signed [] key ≡ some true
unfolding verify_pair verify_signature signature_of public_of into_account
accepts = refl

verify_pair-key_example :
    ((sig : List ℕ) × (sig ++ key ≡ signed.bytes) × (ciphers.dilithium_verify sig [] key ≡ true))
    ⊎ ((other : List ℕ) × (other ≢ key) × (ciphers.poseidon other ≡ ciphers.poseidon key))
verify_pair-key_example =
    verify_pair-key arrays ciphers keypairs arrays-IsArrays signed [] key refl accepts
