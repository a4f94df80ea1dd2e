-- ===== src/Signature/Signing.antt =====
-- A signature that a pair makes is accepted for its key, and for no other one
-- (dilithium-crypto/src/pair.rs).
use chain_testing.Prelude.{
  and_both, ℕ, ◌≡◌, ◌≢◌, ◌≤◌, ◌<◌, ◌⊎◌, inl, inr, refl, sym, ap, ◌∙◌, none, some, some_eq, List,
  ◌++◌, Bool-cases, true, false, length, dec_lt, lt→ltb, ltb-false, arith,
}
use chain_testing.Signature.Bytes.{Arrays, SignatureWithPublic, total_len, signature_of, public_of}
use chain_testing.Signature.Scheme.{Ciphers, same_bytes, into_account}
use chain_testing.Signature.Pair.{
  ResonancePair, Keypairs, generate, from_seed, public_key, sign, verify_pair,
}
use chain_testing.Signature.Parsing.{IsArrays, slice_whole, with_public_lem, parts_of, parts_whole}
use chain_testing.Signature.Authorised.{same_bytes→eq, same_bytes_self, on_parts, verify-parts}

-- A key that was generated from a seed that is long enough has the length of its type, and signs every message with a signature of
-- the length of its type, which the check for the key accepts.
pub record IsKeypairs (arrays : Arrays) (ciphers : Ciphers) (keypairs : Keypairs) : Type 0 where
  pub public_size :
      (seed : List ℕ)
      → keypairs.seed_len ≤ length seed
      → length (keypairs.keypair seed).public ≡ arrays.public_len
  pub signs :
      (seed message : List ℕ)
      → keypairs.seed_len ≤ length seed
      → (sig : List ℕ) × (keypairs.sign (keypairs.keypair seed) message ≡ some sig)
        × (length sig ≡ arrays.signature_len)
        × (ciphers.dilithium_verify sig message (keypairs.keypair seed).public ≡ true)

different : (xs ys : List ℕ) → same_bytes xs ys ≡ false → xs ≢ ys
different xs ys apart e =
    let itself : same_bytes xs xs ≡ false = rw (← e) at apart in
    let equal = same_bytes_self xs in cc

module _ (arrays : Arrays) (ciphers : Ciphers) (keypairs : Keypairs) (laws : IsArrays arrays) where
  verify_pair-parts :
      (signed : SignatureWithPublic) (sig key message pubkey : List ℕ)
      → signature_of arrays signed ≡ some sig
      → public_of arrays signed ≡ some key
      → verify_pair arrays ciphers keypairs signed message pubkey
        ≡ some (on_parts arrays ciphers sig key message (ciphers.poseidon pubkey))
  unfolding verify_pair into_account
  verify_pair-parts signed sig key message pubkey s p =
      verify-parts arrays ciphers laws signed sig key message (ciphers.poseidon pubkey) s p

  -- A signature with a public key that is accepted for a public key has a Dilithium signature for
  -- this key, or the account of this key is that of another one: a collision of Poseidon.
  pub verify_pair-key :
      (signed : SignatureWithPublic) (message pubkey : List ℕ)
      → length signed.bytes ≡ total_len arrays
      → verify_pair arrays ciphers keypairs signed message pubkey ≡ some true
      → ((sig : List ℕ) × (sig ++ pubkey ≡ signed.bytes)
          × (ciphers.dilithium_verify sig message pubkey ≡ true))
        ⊎ ((key : List ℕ) × (key ≢ pubkey) × (ciphers.poseidon key ≡ ciphers.poseidon pubkey))
  verify_pair-key signed message pubkey whole e =
      let (sig, key, _, _, same, s, p) = parts_whole arrays laws signed whole in
      let verdict = verify_pair-parts signed sig key message pubkey s p in
      let (own, ok) =
        and_both (same_bytes (ciphers.poseidon key) (ciphers.poseidon pubkey))
          (ciphers.dilithium_verify sig message key) (some_eq (sym verdict ∙ e)) in
      elim (Bool-cases (same_bytes key pubkey)) [
        | inl equal ↦ let k = same_bytes→eq key pubkey equal in inl (sig, rw k at same, rw k at ok)
        | inr apart ↦ inr (
          key,
          λ k. different key pubkey apart k,
          same_bytes→eq (ciphers.poseidon key) (ciphers.poseidon pubkey) own,
        )
      ]

  -- A seed that is too short is refused. From every other seed there is a pair with a public key,
  -- which signs every message without a panic, and the signature is accepted for the message and
  -- the public key.
  pub sign-verify_pair :
      (seed message : List ℕ)
      → IsKeypairs arrays ciphers keypairs
      → ((length seed < keypairs.seed_len) × (from_seed arrays ciphers keypairs seed ≡ none))
        ⊎ ((pair : ResonancePair) × (key : List ℕ) × (signed : SignatureWithPublic) × (from_seed
                arrays ciphers keypairs seed
              ≡ some pair)
            × (public_key arrays ciphers keypairs pair ≡ some key)
            × (sign arrays ciphers keypairs pair message ≡ some signed)
            × (verify_pair arrays ciphers keypairs signed message key ≡ some true))
  unfolding from_seed generate public_key sign
  sign-verify_pair seed message good = elim (dec_lt (length seed) keypairs.seed_len) [
    | yes short ↦ inl (short, rw (lt→ltb (length seed) keypairs.seed_len short) refl)
    | no long ↦
        let pair = keypairs.keypair seed in
        let (sig, made, size, ok) = good.signs seed message (omega arith) in
        let wide = good.public_size seed (omega arith) in
        let (s, p) = parts_of arrays laws sig pair.public size wide in
        inr (
          pair,
          pair.public,
          record { bytes = sig ++ pair.public },
          rw (ltb-false (length seed) keypairs.seed_len (omega arith)) refl,
          slice_whole arrays laws arrays.public_len pair.public wide,
          rw
              (
                made,
                slice_whole arrays laws arrays.signature_len sig size,
                slice_whole arrays laws arrays.public_len pair.public wide,
              )
              (with_public_lem arrays laws sig pair.public size wide),
          verify_pair-parts (record { bytes = sig ++ pair.public }) sig pair.public message
                pair.public s p
              ∙ ap some (rw (same_bytes_self (ciphers.poseidon pair.public)) ok),
        )
  ]
