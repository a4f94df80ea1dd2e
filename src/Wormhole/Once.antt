-- ===== src/Wormhole/Once.antt =====
-- The mints of a run of calls (`verify_wormhole_proof` of pallets/wormhole/src/lib.rs).
use chain_testing.Prelude.{
  ℕ, ◌≡◌, ◌≢◌, ◌∙◌, refl, ap, List, [], ◌∷◌, Option, none, some, Bool-cases, true, false, inl, inr,
  is_some, All, All-map,
}
use chain_testing.Dispatch.{Origin, done}
use chain_testing.Wormhole.Inputs.{WormholePublicInputs, from_fields}
use chain_testing.Wormhole.Mints.{insert_keeps, insert_self, Reads, IsMint, verify-mints}
use chain_testing.Wormhole.Calls.{Circuit, Minting, Wormholes, verify_wormhole_proof}

module _ {Proof Bank : Type 0} (circuit : Circuit Proof) (minting : Minting Bank) where
  -- Any number of successful calls, with the public inputs of their proofs, the last call first.
  pub data Mints (s : Wormholes Bank) : List WormholePublicInputs → Wormholes Bank → Type 0 where
    stop : Mints s [] s
    next :
        {log : List WormholePublicInputs} {t u : Wormholes Bank}
        → Mints s log t
        → (origin : Origin) (proof_bytes : List ℕ) (p : WormholePublicInputs)
        → Reads circuit minting proof_bytes p
        → verify_wormhole_proof circuit minting origin proof_bytes t ≡ done u
        → Mints s (p ∷ log) u

  -- No two of the proofs have the same nullifier.
  abbrev pub Distinct : List WormholePublicInputs → Type 0
  Distinct [] = Unit
  Distinct (p ∷ log) = All (λ q. q.nullifier ≢ p.nullifier) log × Distinct log

  -- The deposits of the proofs, each of the amount that its proof shows.
  abbrev pub deposit : Option ℕ → ℕ → Bank → Bank
  deposit none exit_account bank = bank
  deposit (some exit_balance) exit_account bank =
      minting.deposit_creating exit_account exit_balance bank

  abbrev pub deposit_all : List WormholePublicInputs → Bank → Bank
  deposit_all [] bank = bank
  deposit_all (p ∷ log) bank =
      deposit (minting.balance_of p.exit_amount) p.exit_account (deposit_all log bank)

  -- A proof that the circuit accepts shows these public inputs.
  abbrev pub IsProved : WormholePublicInputs → Type 0
  IsProved p =
      (proof : Proof) × (from_fields minting.decode (circuit.public_inputs proof) ≡ done p)
      × (circuit.verify proof ≡ true)

  -- Used nullifiers stay used.
  IsMint-used :
      (key : List ℕ) (p : WormholePublicInputs) (s s' : Wormholes Bank)
      → IsMint circuit minting p s s'
      → is_some (s.used_nullifiers key) ≡ true
      → is_some (s'.used_nullifiers key) ≡ true
  IsMint-used key p s s' mint h = rw mint.marked (insert_keeps s.used_nullifiers p.nullifier key h)

  Mints-used_before :
      (key : List ℕ) {s t : Wormholes Bank} {log : List WormholePublicInputs}
      → Mints s log t
      → is_some (s.used_nullifiers key) ≡ true
      → is_some (t.used_nullifiers key) ≡ true
  Mints-used_before key stop h = h
  Mints-used_before key (next {log} {t} {u} before origin proof_bytes p reads e) h =
      IsMint-used key p t u (verify-mints circuit minting origin proof_bytes p t reads e)
        (Mints-used_before key before h)

  Mints-used :
      {s t : Wormholes Bank} {log : List WormholePublicInputs}
      → Mints s log t
      → All (λ p. is_some (t.used_nullifiers p.nullifier) ≡ true) log
  Mints-used stop = tt
  Mints-used (next {log} {t} {u} before origin proof_bytes p reads e) =
      let mint = verify-mints circuit minting origin proof_bytes p t reads e in
      (
        rw mint.marked (insert_self t.used_nullifiers p.nullifier),
        All-map log (λ q. IsMint-used q.nullifier p t u mint) (Mints-used before),
      )

  -- A nullifier that is used is not that of a mint.
  other_nullifier :
      (key : List ℕ) (p : WormholePublicInputs) (s s' : Wormholes Bank)
      → IsMint circuit minting p s s'
      → is_some (s.used_nullifiers key) ≡ true
      → key ≢ p.nullifier
  other_nullifier key p s s' mint h same = let unused = mint.unused in cc

  unused_before :
      {s t : Wormholes Bank} {log : List WormholePublicInputs} (p : WormholePublicInputs)
      (u : Wormholes Bank)
      → Mints s log t
      → IsMint circuit minting p t u
      → is_some (s.used_nullifiers p.nullifier) ≡ false
  unused_before {s} {t} p u before mint =
      elim (Bool-cases (is_some (s.used_nullifiers p.nullifier))) [
        | inl used ↦
            let later = Mints-used_before p.nullifier before used in
            let unused = mint.unused in absurd cc
        | inr unused ↦ unused
      ]

  -- Over any run of successful calls: no two proofs have the same nullifier, none has a nullifier
  -- that was used before the run, each was accepted by the circuit, and the accounts are those of
  -- the start with one deposit for each proof, of the amount that it shows to the account that it
  -- shows.
  pub Mints-once :
      {s t : Wormholes Bank} {log : List WormholePublicInputs}
      → Mints s log t
      → Distinct log
        × All (λ p. is_some (s.used_nullifiers p.nullifier) ≡ false) log
        × All IsProved log
        × (t.bank ≡ deposit_all log s.bank)
  Mints-once stop = (tt, tt, tt, refl)
  Mints-once {s} (next {log} {t} {u} before origin proof_bytes p reads e) =
      let mint = verify-mints circuit minting origin proof_bytes p t reads e in
      let (distinct, unused, proved, bank) = Mints-once before in
      (
        (All-map log (λ q. other_nullifier q.nullifier p t u mint) (Mints-used before), distinct),
        (unused_before p u before mint, unused),
        ((mint.proof, mint.read, mint.verified), proved),
        rw mint.amount
            (mint.paid ∙ ap (minting.deposit_creating p.exit_account mint.exit_balance) bank),
      )
