-- ===== src/Signature/Parsing.antt =====
-- The conversions of slices to signatures (dilithium-crypto/src/types.rs and traits.rs).
use chain_testing.Prelude.{
  ℕ, ◌≡◌, ◌≢◌, ◌≤◌, ◌<◌, ◌⊎◌, inl, inr, ◌∙◌, refl, sym, ap, none, some, List, ◌++◌, ◌==◌,
  ℕ_discrete, dec_lt, length, take, drop, length-append, length-take, length-drop, take-drop,
  take-append, drop-append, ==-self, ==_false, leb-true, leb-false, arith,
}
use chain_testing.Signature.Bytes.{
  Arrays, SignatureWithPublic, parsed, invalid, panicked, total_len, with_public, signature_of,
  public_of, joined, from_bytes, parse_slice, try_from,
}

-- A slice is converted to an array exactly if it has the length of the array.
pub record IsArrays (arrays : Arrays) : Type 0 where
  pub sliced : (slice : List ℕ) → arrays.from_slice (length slice) slice ≡ some slice
  pub unsliced : (n : ℕ) (slice : List ℕ) → length slice ≢ n → arrays.from_slice n slice ≡ none

module _ (arrays : Arrays) (laws : IsArrays arrays) where
  pub slice_whole :
      (n : ℕ) (slice : List ℕ) → length slice ≡ n → arrays.from_slice n slice ≡ some slice
  slice_whole n slice h = rw (← h) (laws.sliced slice)

  pub with_public_lem :
      (signature public : List ℕ)
      → length signature ≡ arrays.signature_len
      → length public ≡ arrays.public_len
      → with_public arrays signature public ≡ some (record { bytes = signature ++ public })
  unfolding with_public
  with_public_lem signature public h k =
      rw (h, k, ==-self arrays.signature_len, ==-self arrays.public_len) refl

  -- The parts of a signature with a public key are those that it was made of.
  pub parts_of :
      (signature public : List ℕ)
      → length signature ≡ arrays.signature_len
      → length public ≡ arrays.public_len
      → (signature_of arrays (record { bytes = signature ++ public }) ≡ some signature)
        × (public_of arrays (record { bytes = signature ++ public }) ≡ some public)
  unfolding signature_of public_of
  parts_of signature public h k =
      let long =
        leb-true arrays.signature_len (length (signature ++ public))
          (omega (arith, length-append signature public)) in
      (
        rw (long, ← h, take-append signature public) (laws.sliced signature),
        rw (long, ← h, drop-append signature public) (slice_whole arrays.public_len public k),
      )

  -- The parts of a signature of the right length.
  pub parts_whole :
      (signed : SignatureWithPublic)
      → length signed.bytes ≡ total_len arrays
      → (signature : List ℕ) × (public : List ℕ) × (length signature ≡ arrays.signature_len)
        × (length public ≡ arrays.public_len)
        × (signature ++ public ≡ signed.bytes)
        × (signature_of arrays signed ≡ some signature)
        × (public_of arrays signed ≡ some public)
  parts_whole signed h =
      let front = take arrays.signature_len signed.bytes in
      let back = drop arrays.signature_len signed.bytes in
      let k : length front ≡ arrays.signature_len =
        length-take arrays.signature_len signed.bytes (omega arith) in
      let l : length back ≡ arrays.public_len =
        omega (arith, length-drop arrays.signature_len signed.bytes (omega arith)) in
      let same : front ++ back ≡ signed.bytes = take-drop arrays.signature_len signed.bytes in
      let (p, q) = parts_of front back k l in
      (
        front,
        back,
        k,
        l,
        same,
        ap (λ (b : List ℕ). signature_of arrays (record { bytes = b })) (sym same) ∙ p,
        ap (λ (b : List ℕ). public_of arrays (record { bytes = b })) (sym same) ∙ q,
      )

  joined_whole :
      (front back : List ℕ)
      → length front ≡ arrays.signature_len
      → length back ≡ arrays.public_len
      → joined arrays front back ≡ parsed (record { bytes = front ++ back })
  joined_whole front back h k =
      rw
        (
          slice_whole arrays.signature_len front h,
          slice_whole arrays.public_len back k,
          with_public_lem front back h k,
        )
        refl

  joined_short :
      (front back : List ℕ)
      → length front ≡ arrays.signature_len
      → length back ≢ arrays.public_len
      → joined arrays front back ≡ invalid
  joined_short front back h k =
      rw (slice_whole arrays.signature_len front h, laws.unsliced arrays.public_len back k) refl

  -- The halves of data that is long enough.
  joined_halves :
      (slice : List ℕ)
      → length slice ≡ total_len arrays
      → joined arrays (take arrays.signature_len slice) (drop arrays.signature_len slice)
        ≡ parsed (record { bytes = slice })
  joined_halves slice h =
      let whole =
        joined_whole (take arrays.signature_len slice) (drop arrays.signature_len slice)
          (length-take arrays.signature_len slice (omega arith))
          (omega (arith, length-drop arrays.signature_len slice (omega arith))) in
      whole
      ∙ ap (λ (bytes : List ℕ). parsed (record { bytes = bytes }))
          (take-drop arrays.signature_len slice)

  pub parse_slice_whole :
      (slice : List ℕ)
      → length slice ≡ total_len arrays
      → parse_slice arrays slice ≡ parsed (record { bytes = slice })
  unfolding parse_slice from_bytes
  parse_slice_whole slice h =
      let long = leb-true arrays.signature_len (length slice) (omega arith) in
      let fits = ap (λ (n : ℕ). n == total_len arrays) h ∙ ==-self (total_len arrays) in
      rw (fits, long) (joined_halves slice h)

  parse_slice_short :
      (slice : List ℕ) → length slice ≢ total_len arrays → parse_slice arrays slice ≡ invalid
  unfolding parse_slice
  parse_slice_short slice h = rw (==_false (length slice) (total_len arrays) h) refl

  try_from_long :
      (slice : List ℕ)
      → arrays.signature_len ≤ length slice
      → try_from arrays slice ≡ parse_slice arrays slice
  unfolding try_from
  try_from_long slice h = elim (ℕ_discrete (length slice) (total_len arrays)) [
    | yes whole ↦
        rw (leb-true arrays.signature_len (length slice) h)
          (joined_halves slice whole ∙ sym (parse_slice_whole slice whole))
    | no short ↦ rw (leb-true arrays.signature_len (length slice) h) (
        joined_short (take arrays.signature_len slice) (drop arrays.signature_len slice)
          (length-take arrays.signature_len slice h)
          (λ e. short (omega (arith, length-drop arrays.signature_len slice h)))
        ∙ sym (parse_slice_short slice short))
  ]

  try_from_short :
      (slice : List ℕ) → length slice < arrays.signature_len → try_from arrays slice ≡ panicked
  unfolding try_from
  try_from_short slice h = rw (leb-false arrays.signature_len (length slice) h) refl

  -- Data that has exactly the bytes of a signature and a public key is parsed to these bytes, and
  -- all other data is invalid. The conversion from any data agrees with this, except that it panics
  -- on data that is shorter than a signature.
  pub try_from-parse_slice :
      (slice : List ℕ)
      → (((length slice ≡ total_len arrays)
            × (parse_slice arrays slice ≡ parsed (record { bytes = slice })))
          ⊎ ((length slice ≢ total_len arrays) × (parse_slice arrays slice ≡ invalid)))
        × (((length slice < arrays.signature_len) × (try_from arrays slice ≡ panicked))
            ⊎ ((arrays.signature_len ≤ length slice)
                × (try_from arrays slice ≡ parse_slice arrays slice)))
  try_from-parse_slice slice = (
    elim (ℕ_discrete (length slice) (total_len arrays)) [
      | yes whole ↦ inl (whole, parse_slice_whole slice whole)
      | no short ↦ inr (short, parse_slice_short slice short)
    ],
    elim (dec_lt (length slice) arrays.signature_len) [
      | yes short ↦ inl (short, try_from_short slice short)
      | no long ↦ inr (omega arith, try_from_long slice (omega arith))
    ],
  )
