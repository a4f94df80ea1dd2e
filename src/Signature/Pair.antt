-- ===== src/Signature/Pair.antt =====
-- `ResonancePair` (dilithium-crypto/src/pair.rs and traits.rs), and the generation of its keys
-- (dilithium-crypto/hdwallet/src/lib.rs).
use chain_testing.Prelude.{ℕ, Option, none, some, List, Bool, ltb, if◌then◌else◌, length}
use chain_testing.Prelude.Panic.{◌>>=◌}
use chain_testing.Signature.Bytes.{Arrays, SignatureWithPublic, with_public}
use chain_testing.Signature.Scheme.{
  Ciphers, resonance, resonance_key, into_account, verify_signature,
}

pub record ResonancePair : Type 0 where
  pub secret : List ℕ
  pub public : List ℕ

-- `Keypair` of the Dilithium library: its keys from a seed, whose least length is `seed_len`, and
-- the signature of a message, if there is one.
pub record Keypairs : Type 0 where
  pub seed_len : ℕ
  pub keypair : List ℕ → ResonancePair
  pub sign : ResonancePair → List ℕ → Option (List ℕ)

module _ (arrays : Arrays) (ciphers : Ciphers) (keypairs : Keypairs) where
  unfoldable pub generate : List ℕ → Option ResonancePair
  generate entropy =
      if ltb (length entropy) keypairs.seed_len then none else some (keypairs.keypair entropy)

  -- `none` is the error of the generation.
  unfoldable pub from_seed : List ℕ → Option ResonancePair
  unfolding generate
  from_seed seed = generate seed >>= λ keypair.
      some (record { secret = keypair.secret; public = keypair.public })

  -- `ResonancePair::public`; here and below `none` is a panic.
  unfoldable pub public_key : ResonancePair → Option (List ℕ)
  public_key pair = arrays.from_slice arrays.public_len pair.public

  unfoldable pub sign : ResonancePair → List ℕ → Option SignatureWithPublic
  unfolding public_key
  sign pair message = keypairs.sign pair message >>= λ signature.
      arrays.from_slice arrays.signature_len signature >>= λ signature.
      public_key pair >>= λ public. with_public arrays signature public

  unfoldable pub verify_pair : SignatureWithPublic → List ℕ → List ℕ → Option Bool
  verify_pair sig message pubkey =
      verify_signature arrays ciphers (resonance sig) message
        (into_account arrays ciphers (resonance_key pubkey))
