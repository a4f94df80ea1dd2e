-- ===== src/Signature/Authorised.antt =====
-- What the check of a signature promises (`Verify` of dilithium-crypto/src/traits.rs).
use native.Mathlib.Omega.{arith}
use chain_testing.Prelude.{
  and_both, ℕ, ◌≡◌, ◌↔◌, refl, sym, ◌∙◌, Option, none, some, some_eq, List, [], ◌∷◌, ◌++◌, Bool,
  true, false, length, ==→eq, ==-self, ◌==◌, ◌&&◌, if◌then◌else◌,
}
use chain_testing.Signature.Bytes.{Arrays, SignatureWithPublic, total_len, signature_of, public_of}
use chain_testing.Signature.Scheme.{
  SignatureScheme, ed25519, sr25519, ecdsa, resonance, ed25519_key, sr25519_key, ecdsa_key,
  resonance_key, Ciphers, same_bytes, recovered, into_account, key_of, verify_signature,
}
use chain_testing.Signature.Parsing.{IsArrays, slice_whole, parts_whole}

pub same_bytes→eq : (xs ys : List ℕ) → same_bytes xs ys ≡ true → xs ≡ ys
same_bytes→eq [] [] h = refl
same_bytes→eq [] (y ∷ ys) h = absurd cc
same_bytes→eq (x ∷ xs) [] h = absurd cc
same_bytes→eq (x ∷ xs) (y ∷ ys) h =
    let (head, tail) = and_both (x == y) (same_bytes xs ys) h in
    let same = ==→eq x y head in let rest = same_bytes→eq xs ys tail in cc

pub same_bytes_self : (xs : List ℕ) → same_bytes xs xs ≡ true
same_bytes_self [] = refl
same_bytes_self (x ∷ xs) = rw (==-self x) (same_bytes_self xs)

split : (a b : Bool) → (if a then some b else some false) ≡ some (a && b)
split true b = refl
split false b = refl

-- The parts of a list are determined by the length of the first one.
parts_unique : (a b c d : List ℕ) → length a ≡ length c → a ++ b ≡ c ++ d → (a ≡ c) × (b ≡ d)
parts_unique [] b [] d h e = (refl, e)
parts_unique [] b (x ∷ c) d h e = absurd (omega arith)
parts_unique (x ∷ a) b [] d h e = absurd (omega arith)
parts_unique (x ∷ a) b (y ∷ c) d h e =
    let head : x ≡ y = cc in
    let tail : a ++ b ≡ c ++ d = cc in
    let (p, q) = parts_unique a b c d (omega arith) tail in (cc, q)

-- A signature whose bytes have the length of its type.
abbrev pub IsWhole : Arrays → SignatureScheme → Type 0
IsWhole arrays (ed25519 sig) = Unit
IsWhole arrays (sr25519 sig) = Unit
IsWhole arrays (ecdsa sig) = Unit
IsWhole arrays (resonance signed) = length signed.bytes ≡ total_len arrays

module _ (arrays : Arrays) (ciphers : Ciphers) where
  -- A key of the scheme whose account it is, and which accepts the signature of the message.
  abbrev pub IsAuthorised : SignatureScheme → List ℕ → List ℕ → Type 0
  IsAuthorised (ed25519 sig) msg account =
      (key : List ℕ) × (into_account arrays ciphers (ed25519_key key) ≡ account)
      × (ciphers.ed25519_verify sig msg key ≡ true)
  IsAuthorised (sr25519 sig) msg account =
      (key : List ℕ) × (into_account arrays ciphers (sr25519_key key) ≡ account)
      × (ciphers.sr25519_verify sig msg key ≡ true)
  IsAuthorised (ecdsa sig) msg account =
      (key : List ℕ) × (into_account arrays ciphers (ecdsa_key key) ≡ account)
      × (ciphers.recover sig (ciphers.blake2_256 msg) ≡ some key)
  IsAuthorised (resonance signed) msg account =
      (sig : List ℕ) × (key : List ℕ) × (length sig ≡ arrays.signature_len)
      × (sig ++ key ≡ signed.bytes)
      × (into_account arrays ciphers (resonance_key key) ≡ account)
      × (ciphers.dilithium_verify sig msg key ≡ true)

  -- The verdict on the parts of a signature.
  abbrev pub on_parts : List ℕ → List ℕ → List ℕ → List ℕ → Bool
  on_parts sig key msg account =
      same_bytes (ciphers.poseidon key) account && ciphers.dilithium_verify sig msg key

  module _ (laws : IsArrays arrays) where
    key_of_account :
        (account : List ℕ) → length account ≡ 32 → key_of arrays ciphers account ≡ account
    key_of_account account h = rw (slice_whole arrays laws 32 account h) refl

    recovered_iff :
        (o : Option (List ℕ)) (account : List ℕ)
        → (recovered arrays ciphers o account ≡ true)
          ↔ ((key : List ℕ) × (ciphers.blake2_256 key ≡ account) × (o ≡ some key))
    recovered_iff none account = (λ e. absurd cc, λ (key, _, e). absurd cc)
    recovered_iff (some key) account = (
      λ e. (key, same_bytes→eq (ciphers.blake2_256 key) account e, refl),
      λ (other, e, f). let same : key ≡ other = some_eq f in rw (same, e) (same_bytes_self account),
    )

    on_parts_iff :
        (signed : SignatureWithPublic) (sig key msg account : List ℕ)
        → length sig ≡ arrays.signature_len
        → sig ++ key ≡ signed.bytes
        → (on_parts sig key msg account ≡ true) ↔ IsAuthorised (resonance signed) msg account
    unfolding into_account
    on_parts_iff signed sig key msg account size whole = (
      λ e.
          let (own, ok) =
            and_both (same_bytes (ciphers.poseidon key) account)
              (ciphers.dilithium_verify sig msg key) e in
          (sig, key, size, whole, same_bytes→eq (ciphers.poseidon key) account own, ok),
      λ (sig', key', size', whole', own, ok).
          let (s, k) = parts_unique sig key sig' key' (size ∙ sym size') (whole ∙ sym whole') in
          rw (s, k, own, same_bytes_self account) ok,
    )

    pub verify-parts :
        (signed : SignatureWithPublic) (sig key msg account : List ℕ)
        → signature_of arrays signed ≡ some sig
        → public_of arrays signed ≡ some key
        → verify_signature arrays ciphers (resonance signed) msg account
          ≡ some (on_parts sig key msg account)
    unfolding verify_signature
    verify-parts signed sig key msg account s p =
        rw (p, s)
          (split (same_bytes (ciphers.poseidon key) account) (ciphers.dilithium_verify sig msg key))

    -- On an account of 32 bytes and a signature of the length of its type, the check never panics,
    -- and it accepts exactly if there is a key of the scheme of the signature that has this account
    -- and that accepts the signature for the message; of a Dilithium signature it is the key that
    -- comes with it.
    pub verify-IsAuthorised :
        (scheme : SignatureScheme) (msg account : List ℕ)
        → IsWhole arrays scheme
        → length account ≡ 32
        → (b : Bool) × (verify_signature arrays ciphers scheme msg account ≡ some b)
          × ((b ≡ true) ↔ IsAuthorised scheme msg account)
    unfolding verify_signature into_account
    verify-IsAuthorised (ed25519 sig) msg account whole h = (
      ciphers.ed25519_verify sig msg (key_of arrays ciphers account),
      refl,
      (
        λ e. (account, refl, rw (key_of_account account h) at e),
        λ (key, same, e). rw (key_of_account account h, ← same) e,
      ),
    )
    verify-IsAuthorised (sr25519 sig) msg account whole h = (
      ciphers.sr25519_verify sig msg (key_of arrays ciphers account),
      refl,
      (
        λ e. (account, refl, rw (key_of_account account h) at e),
        λ (key, same, e). rw (key_of_account account h, ← same) e,
      ),
    )
    verify-IsAuthorised (ecdsa sig) msg account whole h = (
      recovered arrays ciphers (ciphers.recover sig (ciphers.blake2_256 msg)) account,
      refl,
      recovered_iff (ciphers.recover sig (ciphers.blake2_256 msg)) account,
    )
    verify-IsAuthorised (resonance signed) msg account whole h =
        let (sig, key, size, _, same, s, p) = parts_whole arrays laws signed whole in
        (
          on_parts sig key msg account,
          verify-parts signed sig key msg account s p,
          on_parts_iff signed sig key msg account size same,
        )
