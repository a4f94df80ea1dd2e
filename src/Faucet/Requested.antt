-- ===== src/Faucet/Requested.antt =====
-- Which addresses are accepted, and what a request submits (node/src/faucet.rs).
use chain_testing.Prelude.{
  and_both, ℕ, ◌≡◌, ◌≢◌, ◌⊎◌, ◌↔◌, inl, inr, refl, sym, ap, ◌∙◌, Option, Option-cases, none, some,
  some_eq, List, [], ◌∷◌, Bool-cases, true, is_some, ◌==◌, ◌&&◌, ==→eq,
}
use chain_testing.Faucet.Mint.{validate_mint}
use chain_testing.Faucet.Rpc.{
  strip_prefix, Answer, answer, address_error, Addresses, hex_account, string_account, with_account,
  parse_address, request_tokens,
}

no_account : {A : Type 0} {a : A} → none ≡ some a → ⊥
no_account e = cc

strip_some : (text rest : List ℕ) → strip_prefix text ≡ some rest → text ≡ 48 ∷ 120 ∷ rest
strip_some [] rest e = absurd cc
strip_some (x ∷ []) rest e = absurd cc
strip_some (x ∷ y ∷ tail) rest e = elim (Bool-cases ((x == 48) && (y == 120))) [
  | inl zero_x ↦
      let (p, q) = and_both (x == 48) (y == 120) zero_x in
      let first = ==→eq x 48 p in
      let second = ==→eq y 120 q in
      let same : tail ≡ rest = some_eq (rw zero_x at e) in rw (first, second, same) refl
  | inr other ↦ absurd (no_account (rw other at e))
]

module _ (addresses : Addresses) where
  -- The account that a text stands for: 32 bytes in hexadecimal digits behind 0x, or else SS58.
  abbrev pub Denotes : List ℕ → ℕ → Type 0
  Denotes text account =
      ((rest : List ℕ) × (text ≡ 48 ∷ 120 ∷ rest)
        × (addresses.hex_decode rest ≡ some (32, account)))
      ⊎ (((rest : List ℕ) → text ≢ 48 ∷ 120 ∷ rest) × (addresses.from_string text ≡ some account))

  hex_account_iff :
      (o : Option (ℕ × ℕ)) (account : ℕ)
      → (hex_account addresses o ≡ answer account) ↔ (o ≡ some (32, account))
  hex_account_iff none account = (λ e. absurd cc, λ e. absurd cc)
  hex_account_iff (some (size, n)) account = elim (Bool-cases (size == 32)) [
    | inl whole ↦
        rw whole
          (λ e. let n_is : n ≡ account = cc in let size_is = ==→eq size 32 whole in cc, λ e. cc)
    | inr other ↦ rw other (
      λ e. absurd cc,
      λ e.
          let size_is : size ≡ 32 = ap (λ (p : ℕ × ℕ). p.0) (some_eq e) in
          let itself : (size == 32) ≡ true = rw size_is in absurd cc,
    )
  ]

  string_account_iff :
      (o : Option ℕ) (account : ℕ)
      → (string_account addresses o ≡ answer account) ↔ (o ≡ some account)
  string_account_iff none account = (λ e. absurd cc, λ e. absurd cc)
  string_account_iff (some n) account = (λ e. cc, λ e. cc)

  pub parse_address_iff :
      (text : List ℕ) (account : ℕ)
      → (parse_address addresses text ≡ answer account) ↔ Denotes text account
  unfolding parse_address
  parse_address_iff text account = elim (Option-cases (strip_prefix text)) [
    | inl bare ↦
        let (to, from) = string_account_iff (addresses.from_string text) account in
        let apart : (rest : List ℕ) → text ≢ 48 ∷ 120 ∷ rest =
          λ rest e. no_account (sym bare ∙ ap strip_prefix e) in
        rw bare (
          λ e. inr (apart, to e),
          elim [ inl (rest, e, _) ↦ absurd (apart rest e) | inr (_, e) ↦ from e ],
        )
    | inr (rest, cut) ↦
        let whole = strip_some text rest cut in
        let (to, from) = hex_account_iff (addresses.hex_decode rest) account in
        rw cut (
          λ e. inl (rest, whole, to e),
          elim [
            | inl (other, e, found) ↦
                let same : rest ≡ other = some_eq (sym cut ∙ ap strip_prefix e) in
                from (rw same found)
            | inr (bare, _) ↦ absurd (bare rest whole)
          ],
        )
  ]

  answered :
      {text : List ℕ} (r : Answer ℕ)
      → ((account : ℕ) → (r ≡ answer account) ↔ Denotes text account)
      → (with_account addresses r (λ account. true) ≡ answer true)
        ↔ ((account : ℕ) × Denotes text account)
  answered (answer account) denotes = (λ e. (account, (denotes account).0 refl), λ (other, d). refl)
  answered (address_error e) denotes =
      (λ h. absurd cc, λ (other, d). let h = (denotes other).1 d in absurd cc)

  -- With a pool that takes exactly the calls that the check of unsigned calls finds valid at a
  -- block, a request is answered by a success exactly if its text stands for an account.
  pub request_tokens_iff :
      (best_hash seed number : ℕ) (text : List ℕ) (at : Option ℕ)
      → (request_tokens addresses best_hash seed
            (λ block call. is_some (validate_mint number call))
            text
            at
          ≡ answer true)
        ↔ ((account : ℕ) × Denotes text account)
  unfolding request_tokens validate_mint
  request_tokens_iff best_hash seed number text at =
      answered (parse_address addresses text) (parse_address_iff text)
