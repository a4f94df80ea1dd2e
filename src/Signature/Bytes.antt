-- ===== src/Signature/Bytes.antt =====
-- The bytes of a signature with its public key (dilithium-crypto/src/types.rs, and its conversions
-- in traits.rs). A slice, a key and a signature are lists of bytes.
use chain_testing.Prelude.{
  ℕ, ◌+◌, Option, none, some, List, ◌++◌, leb, ◌==◌, if◌then◌else◌, length, take, drop,
}
use chain_testing.Prelude.Panic.{◌>>=◌}

-- The lengths of signatures and public keys, and the conversion of a slice to an array of so many
-- bytes, which `PublicBytes` and `SignatureBytes` have.
pub record Arrays : Type 0 where
  pub signature_len : ℕ
  pub public_len : ℕ
  pub from_slice : ℕ → List ℕ → Option (List ℕ)

pub record SignatureWithPublic : Type 0 where
  pub bytes : List ℕ

-- The result of a conversion of a slice: a value, an error, or a panic.
pub data Parsed (A : Type 0) : Type 0 where
  parsed : A → Parsed A
  invalid panicked : Parsed A

module _ {A B : Type 0} where
  -- The operator `?`, and `expect`.
  abbrev pub or_invalid : Option A → (A → Parsed B) → Parsed B
  or_invalid none rest = invalid
  or_invalid (some a) rest = rest a

  abbrev pub or_panic : Option A → (A → Parsed B) → Parsed B
  or_panic none rest = panicked
  or_panic (some a) rest = rest a

-- `copy_from_slice` into so many bytes, and the slices up to and from a position; `none` is a panic.
abbrev pub copied : ℕ → List ℕ → Option (List ℕ)
copied n slice = if length slice == n then some slice else none

abbrev pub slice_to : ℕ → List ℕ → Option (List ℕ)
slice_to n slice = if leb n (length slice) then some (take n slice) else none

abbrev pub slice_from : ℕ → List ℕ → Option (List ℕ)
slice_from n slice = if leb n (length slice) then some (drop n slice) else none

module _ (arrays : Arrays) where
  abbrev pub total_len : ℕ
  total_len = arrays.signature_len + arrays.public_len

  -- `ResonanceSignatureWithPublic::new`; `none` is a panic.
  unfoldable pub with_public : List ℕ → List ℕ → Option SignatureWithPublic
  with_public signature public = copied arrays.signature_len signature >>= λ front.
      copied arrays.public_len public >>= λ back. some (record { bytes = front ++ back })

  unfoldable pub signature_of : SignatureWithPublic → Option (List ℕ)
  signature_of signed =
      slice_to arrays.signature_len signed.bytes >>= arrays.from_slice arrays.signature_len

  unfoldable pub public_of : SignatureWithPublic → Option (List ℕ)
  public_of signed =
      slice_from arrays.signature_len signed.bytes >>= arrays.from_slice arrays.public_len

  -- The two parts of the slice, each an array.
  abbrev pub joined : List ℕ → List ℕ → Parsed SignatureWithPublic
  joined sig_bytes pub_bytes =
      or_invalid (arrays.from_slice arrays.signature_len sig_bytes) λ signature.
        or_invalid (arrays.from_slice arrays.public_len pub_bytes)
          λ public. or_panic (with_public signature public) parsed

  unfoldable pub from_bytes : List ℕ → Parsed SignatureWithPublic
  from_bytes bytes =
      if length bytes == total_len
      then (or_panic (slice_to arrays.signature_len bytes) λ sig_bytes.
          or_panic (slice_from arrays.signature_len bytes) λ pub_bytes. joined sig_bytes pub_bytes)
      else invalid

  -- `ByteArray::from_slice`.
  unfoldable pub parse_slice : List ℕ → Parsed SignatureWithPublic
  unfolding from_bytes
  parse_slice slice = if length slice == total_len then from_bytes slice else invalid

  -- `TryFrom<&[u8]>`: `split_at` panics behind the end.
  unfoldable pub try_from : List ℕ → Parsed SignatureWithPublic
  try_from slice =
      if leb arrays.signature_len (length slice)
      then joined (take arrays.signature_len slice) (drop arrays.signature_len slice)
      else panicked
