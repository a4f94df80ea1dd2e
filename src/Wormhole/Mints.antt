-- ===== src/Wormhole/Mints.antt =====
-- What a successful call does (`verify_wormhole_proof` of pallets/wormhole/src/lib.rs).
use mathlib.Core.Path.{subst}
use chain_testing.Prelude.{
  ℕ, ◌≡◌, ◌∙◌, refl, sym, ap, List, [], ◌∷◌, Option, some, Bool, Bool-cases, true, false, not, inl,
  inr, some_eq, ==-self, is_some,
}
use chain_testing.Dispatch.{
  Origin, done, done_eq, ensure_inv, ensure_none_inv, or_fail_inv, or_refuse_inv, try_inv, not_inv,
}
use chain_testing.Wormhole.Inputs.{WormholePublicInputs, from_fields}
use chain_testing.Wormhole.Calls.{
  Circuit, Minting, Wormholes, same_bytes, insert, verify_wormhole_proof,
}

same_bytes_self : (xs : List ℕ) → same_bytes xs xs ≡ true
same_bytes_self [] = refl
same_bytes_self (x ∷ xs) = rw (==-self x, same_bytes_self xs)

-- An insertion keeps the other keys, and adds its own.
pub insert_keeps :
    (m : List ℕ → Option Bool) (key other : List ℕ)
    → is_some (m other) ≡ true
    → is_some (insert m key true other) ≡ true
insert_keeps m key other h = elim (Bool-cases (same_bytes other key)) [
  | inl same ↦ rw same
  | inr apart ↦ rw apart h
]

pub insert_self : (m : List ℕ → Option Bool) (key : List ℕ) → is_some (insert m key true key) ≡ true
insert_self m key = rw (same_bytes_self key)

module _ {Proof Bank : Type 0} (circuit : Circuit Proof) (minting : Minting Bank) where
  -- The public inputs of the proof in the bytes of a call.
  pub record Reads (proof_bytes : List ℕ) (p : WormholePublicInputs) : Type 0 where
    pub proof : Proof
    pub parsed : circuit.from_bytes proof_bytes ≡ some proof
    pub read : from_fields minting.decode (circuit.public_inputs proof) ≡ done p

  -- What one mint is: a verified proof of a new nullifier, and a deposit of its amount.
  pub record IsMint (p : WormholePublicInputs) (s s' : Wormholes Bank) : Type 0 where
    pub proof : Proof
    pub exit_balance : ℕ
    pub read : from_fields minting.decode (circuit.public_inputs proof) ≡ done p
    pub verified : circuit.verify proof ≡ true
    pub unused : is_some (s.used_nullifiers p.nullifier) ≡ false
    pub marked : s'.used_nullifiers ≡ insert s.used_nullifiers p.nullifier true
    pub amount : minting.balance_of p.exit_amount ≡ some exit_balance
    pub paid : s'.bank ≡ minting.deposit_creating p.exit_account exit_balance s.bank

  verify-IsMint :
      (origin : Origin) (proof_bytes : List ℕ) (s : Wormholes Bank) {s' : Wormholes Bank}
      → verify_wormhole_proof circuit minting origin proof_bytes s ≡ done s'
      → (p : WormholePublicInputs) × Reads proof_bytes p × IsMint p s s'
  unfolding verify_wormhole_proof
  verify-IsMint origin proof_bytes s {s'} e =
      let (_, e1) = ensure_none_inv origin _ e in
      let (proof, parsed, e2) = or_fail_inv (circuit.from_bytes proof_bytes) _ _ e1 in
      let (p, read, e3) = try_inv (from_fields minting.decode (circuit.public_inputs proof)) _ e2 in
      let (fresh, e4) = ensure_inv (not (is_some (s.used_nullifiers p.nullifier))) _ _ e3 in
      let (verified, e5) = ensure_inv (circuit.verify proof) _ _ e4 in
      let (exit_balance, amount, e6) = or_refuse_inv (minting.balance_of p.exit_amount) _ e5 in
      let end = done_eq e6 in
      (
        p,
        record { proof = proof; parsed = parsed; read = read },
        record {
          proof = proof;
          exit_balance = exit_balance;
          read = read;
          verified = verified;
          unused = not_inv _ fresh;
          marked = sym (ap (λ (t : Wormholes Bank). t.used_nullifiers) end);
          amount = amount;
          paid = sym (ap (λ (t : Wormholes Bank). t.bank) end);
        },
      )

  same_read :
      (proof_bytes : List ℕ) (p q : WormholePublicInputs)
      → Reads proof_bytes p
      → Reads proof_bytes q
      → p ≡ q
  same_read proof_bytes p q rp rq =
      let one : rp.proof ≡ rq.proof = some_eq (sym rp.parsed ∙ rq.parsed) in
      done_eq (
        sym rp.read
        ∙ ap (λ (proof : Proof). from_fields minting.decode (circuit.public_inputs proof)) one
        ∙ rq.read)

  -- A successful call is a mint of the public inputs of its proof.
  pub verify-mints :
      (origin : Origin) (proof_bytes : List ℕ) (p : WormholePublicInputs) (s : Wormholes Bank)
      {s' : Wormholes Bank}
      → Reads proof_bytes p
      → verify_wormhole_proof circuit minting origin proof_bytes s ≡ done s'
      → IsMint p s s'
  verify-mints origin proof_bytes p s {s'} reads e =
      let (q, reads', mint) = verify-IsMint origin proof_bytes s e in
      subst (λ r. IsMint r s s') (same_read proof_bytes q p reads' reads) mint
