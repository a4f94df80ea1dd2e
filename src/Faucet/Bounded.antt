-- ===== src/Faucet/Bounded.antt =====
-- The faucet fills accounts up to a limit (pallets/faucet/src/lib.rs).
use mathlib.Core.Path.{subst}
use chain_testing.Prelude.{
  ℕ, ◌+◌, ◌≡◌, ◌≤◌, ◌<◌, ◌⊎◌, inl, inr, sym, ap, Bool-cases, ltb, ltb→lt, share, ◌==◌, ==→eq, arith,
}
use chain_testing.Dispatch.{Origin, done, done_eq, or_refuse_inv}
use chain_testing.Faucet.Mint.{Faucet, Funds, mint_new_tokens}

-- What the pallet relies on in the currency: a payment adds at most its amount, to its receiver.
pub record IsFunds {Bank : Type 0} (funds : Funds Bank) : Type 0 where
  pub paid :
      (dest amount who : ℕ) (bank : Bank)
      → funds.free_balance who (funds.pay_new dest amount bank)
        ≤ funds.free_balance who bank + share dest who amount

module _ {Bank : Type 0} (funds : Funds Bank) where
  -- Successful calls of anybody, one after the other.
  pub data Mints (s : Faucet Bank) : Faucet Bank → Type 0 where
    begin : Mints s s
    mint :
        {t u : Faucet Bank}
        → Mints s t
        → (origin : Origin) (dest seed : ℕ) → mint_new_tokens funds origin dest seed t ≡ done u
        → Mints s u

  -- A balance that has not grown, or is below the limit and one payment.
  abbrev pub IsFilled : ℕ → Faucet Bank → Faucet Bank → Type 0
  IsFilled who s t =
      (funds.free_balance who t.bank ≤ funds.free_balance who s.bank)
      ⊎ (funds.free_balance who t.bank < funds.max_token_amount + funds.default_mint_amount)

  module _ (laws : IsFunds funds) where
    paid-IsFilled :
        (dest who : ℕ) (s t u : Faucet Bank)
        → funds.free_balance dest t.bank < funds.max_token_amount
        → u.bank ≡ funds.pay_new dest funds.default_mint_amount t.bank
        → IsFilled who s t
        → IsFilled who s u
    paid-IsFilled dest who s t u low pays before =
        let grows : funds.free_balance who u.bank
            ≤ funds.free_balance who t.bank + share dest who funds.default_mint_amount =
          rw pays (laws.paid dest funds.default_mint_amount who t.bank) in
        elim (Bool-cases (dest == who)) [
          | inl same ↦
              let own : dest ≡ who = ==→eq dest who same in
              let more = rw same at grows in let under = rw own at low in inr (omega arith)
          | inr apart ↦
              let same = rw apart at grows in
              elim before [ inl b ↦ inl (omega arith) | inr b ↦ inr (omega arith) ]
        ]

    mint-IsFilled :
        (origin : Origin) (dest seed who : ℕ) (s t u : Faucet Bank)
        → mint_new_tokens funds origin dest seed t ≡ done u
        → IsFilled who s t
        → IsFilled who s u
    unfolding mint_new_tokens
    mint-IsFilled origin dest seed who s t u e before =
        let (account, _, rest) = or_refuse_inv (funds.lookup dest) _ e in
        elim (Bool-cases (ltb (funds.free_balance account t.bank) funds.max_token_amount)) [
          | inl low ↦
              paid-IsFilled account who s t u
                (ltb→lt (funds.free_balance account t.bank) funds.max_token_amount low)
                (ap (λ (f : Faucet Bank). f.bank) (sym (done_eq (rw low at rest)))) before
          | inr full ↦ subst (IsFilled who s) (done_eq (rw full at rest)) before
        ]

    -- After any number of calls, whoever makes them, each account has either at most the free
    -- balance that it started with, or less than the largest amount and one payment together.
    pub Mints-IsFilled : {s t : Faucet Bank} → Mints s t → (who : ℕ) → IsFilled who s t
    Mints-IsFilled Mints.begin who = inl (omega arith)
    Mints-IsFilled {s} (Mints.mint {t} {u} before origin dest seed e) who =
        mint-IsFilled origin dest seed who s t u e (Mints-IsFilled before who)
