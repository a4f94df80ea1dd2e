-- ===== src/Signature/Scheme.antt =====
-- `ResonanceSignatureScheme`, its check, and the accounts of `ResonanceSigner`
-- (dilithium-crypto/src/types.rs and traits.rs). The check is `none` where it panics.
use chain_testing.Prelude.{
  ℕ, Option, none, some, List, [], ◌∷◌, Bool, true, false, ◌==◌, ◌&&◌, if◌then◌else◌,
}
use chain_testing.Prelude.Panic.{◌>>=◌}
use chain_testing.Signature.Bytes.{Arrays, SignatureWithPublic, signature_of, public_of}

pub data SignatureScheme : Type 0 where
  ed25519 sr25519 ecdsa : List ℕ → SignatureScheme
  resonance : SignatureWithPublic → SignatureScheme

pub data Signer : Type 0 where
  ed25519_key sr25519_key ecdsa_key resonance_key : List ℕ → Signer

-- The functions of the libraries: the checks of a signature take it, the message and the key.
pub record Ciphers : Type 0 where
  pub ed25519_verify : List ℕ → List ℕ → List ℕ → Bool
  pub sr25519_verify : List ℕ → List ℕ → List ℕ → Bool
  pub recover : List ℕ → List ℕ → Option (List ℕ)
  pub blake2_256 : List ℕ → List ℕ
  pub poseidon : List ℕ → List ℕ
  pub dilithium_verify : List ℕ → List ℕ → List ℕ → Bool
  pub default_key : List ℕ

-- The equality of arrays.
abbrev pub same_bytes : List ℕ → List ℕ → Bool
same_bytes [] [] = true
same_bytes [] (y ∷ ys) = false
same_bytes (x ∷ xs) [] = false
same_bytes (x ∷ xs) (y ∷ ys) = (x == y) && same_bytes xs ys

-- `unwrap_or_default`.
abbrev pub key_or : Option (List ℕ) → List ℕ → List ℕ
key_or none key = key
key_or (some other) key = other

module _ (arrays : Arrays) (ciphers : Ciphers) where
  unfoldable pub into_account : Signer → List ℕ
  into_account (ed25519_key who) = who
  into_account (sr25519_key who) = who
  into_account (ecdsa_key who) = ciphers.blake2_256 who
  into_account (resonance_key who) = ciphers.poseidon who

  -- The 32 bytes of an account as a key.
  abbrev pub key_of : List ℕ → List ℕ
  key_of account = key_or (arrays.from_slice 32 account) ciphers.default_key

  abbrev pub recovered : Option (List ℕ) → List ℕ → Bool
  recovered none account = false
  recovered (some key) account = same_bytes (ciphers.blake2_256 key) account

  unfoldable pub verify_signature : SignatureScheme → List ℕ → List ℕ → Option Bool
  verify_signature (ed25519 sig) msg account =
      some (ciphers.ed25519_verify sig msg (key_of account))
  verify_signature (sr25519 sig) msg account =
      some (ciphers.sr25519_verify sig msg (key_of account))
  verify_signature (ecdsa sig) msg account =
      some (recovered (ciphers.recover sig (ciphers.blake2_256 msg)) account)
  verify_signature (resonance signed) msg account = public_of arrays signed >>= λ public.
      if same_bytes (ciphers.poseidon public) account
      then (signature_of arrays signed >>= λ sig. some (ciphers.dilithium_verify sig msg public))
      else some false
