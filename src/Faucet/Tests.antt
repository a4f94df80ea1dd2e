-- ===== src/Faucet/Tests.antt =====
-- The theorems on the faucet at concrete accounts and texts.
use chain_testing.Prelude.{
  ℕ, ◌+◌, ◌≡◌, ◌≤◌, ◌<◌, ◌⊎◌, ◌↔◌, refl, List, [], ◌∷◌, none, some, true, is_some, length, update,
  update-add, share, arith,
}
use chain_testing.Dispatch.{unsigned, done}
use chain_testing.Faucet.Mint.{Faucet, Funds, tokens_minted, mint_new_tokens, validate_mint}
use chain_testing.Faucet.Bounded.{IsFunds, Mints, Mints-IsFilled}
use chain_testing.Faucet.Rpc.{Addresses, answer, request_tokens}
use chain_testing.Faucet.Requested.{Denotes, request_tokens_iff}

abbrev funds : Funds (ℕ → ℕ)
funds = record {
  max_token_amount = 10;
  default_mint_amount = 7;
  lookup = λ n. some n;
  free_balance = λ who bank. bank who;
  pay_new = λ dest amount bank. update bank dest (bank dest + amount);
}

exact : (a b : ℕ) → a ≡ b → a ≤ b
exact a b e = omega arith

funds-IsFunds : IsFunds funds
funds-IsFunds = record {
  paid = λ dest amount who bank.
      exact (update bank dest (bank dest + amount) who) (bank who + share dest who amount)
        (update-add bank dest amount who);
}

abbrev start : Faucet (ℕ → ℕ)
start = record { bank = λ who. 5; events = [] }

abbrev minted : Faucet (ℕ → ℕ)
minted = record { bank = update start.bank 3 12; events = tokens_minted 3 7 ∷ [] }

mints : mint_new_tokens funds unsigned 3 1 start ≡ done minted
unfolding mint_new_tokens
mints = refl

-- The account is full, and a further call changes nothing.
stays : mint_new_tokens funds unsigned 3 2 minted ≡ done minted
unfolding mint_new_tokens
stays = refl

Mints-IsFilled_example : (minted.bank 3 ≤ start.bank 3) ⊎ (minted.bank 3 < 10 + 7)
Mints-IsFilled_example =
    Mints-IsFilled funds funds-IsFunds
      (Mints.mint (Mints.mint Mints.begin unsigned 3 1 mints) unsigned 3 2 stays) 3

-- Every text behind 0x has 32 bytes, and no text is an SS58 address.
abbrev addresses : Addresses
addresses = record { hex_decode = λ text. some (32, length text); from_string = λ text. none }

abbrev text : List ℕ
text = 48 ∷ 120 ∷ 7 ∷ 8 ∷ []

request_tokens_iff_example :
    (request_tokens addresses 4 5 (λ block call. is_some (validate_mint 9 call)) text none
      ≡ answer true)
    ↔ ((account : ℕ) × Denotes addresses text account)
request_tokens_iff_example = request_tokens_iff addresses 4 5 9 text none
