-- ===== src/Airdrop/Tests.antt =====
-- The theorems on the airdrops at a concrete tree, bank and run.
use chain_testing.Prelude.{
  ltb, ltb→lt, ◌<◌, ℕ, zero, suc, ◌+◌, ◌*◌, ◌-◌, ◌≤◌, ◌≡◌, ◌⊎◌, ◌∙◌, inl, inr, refl, sym, ap, [],
  ◌∷◌, Option, none, some, some_eq, Bool-cases, true, false, leb, leb→le, ==-self, ◌==◌,
  if◌then◌else◌, update, empty_map, arith,
}
use chain_testing.Dispatch.{done, refused, pallet_error, signed, unsigned}
use chain_testing.Airdrop.Merkle.{Blake2, calculate_parent_hash_blake2, verify_merkle_proof}
use chain_testing.Airdrop.Merkle.Tree.{
  Tree, leaf, node, root, Beside, here, left, Collision, verify_merkle_proof_complete,
  verify_merkle_proof_sound,
}
use chain_testing.Airdrop.Calls.{
  airdrop_created, airdrop_funded, airdrop_claimed, already_claimed, Currency, AirdropConfig,
  AirdropMetadata, Airdrops, create_airdrop, fund_airdrop, claim,
}
use chain_testing.Airdrop.Claims.{Runs, stop, next, by_create, by_fund, by_claim, total}
use chain_testing.Airdrop.Once.{claim-claim}
use chain_testing.Airdrop.Solvent.{IsCurrency, IsSolvent, Runs-IsSolvent}

abbrev blake2 : Blake2
blake2 = record {
  of_leaf = λ account amount. account * 1000 + amount;
  of_pair = λ a b. a * 10000000 + b;
}

-- Account 1 may claim 30, account 2 may claim 40.
abbrev tree : Tree
tree = node (leaf 1 30) (leaf 2 40)

path_1 : Beside blake2 1 30 tree (2040 ∷ [])
path_1 = left here

verify_merkle_proof_complete_example :
    verify_merkle_proof blake2 1 30 (root blake2 tree) (2040 ∷ []) ≡ true
verify_merkle_proof_complete_example = verify_merkle_proof_complete blake2 1 30 path_1

verified : verify_merkle_proof blake2 2 40 (root blake2 tree) (1030 ∷ []) ≡ true
unfolding verify_merkle_proof
verified = refl

verify_merkle_proof_sound_example : Beside blake2 2 40 tree (1030 ∷ []) ⊎ Collision blake2
verify_merkle_proof_sound_example = verify_merkle_proof_sound blake2 tree (1030 ∷ []) 2 40 verified

-- A bank of the balances of all accounts, which only knows transfers between different accounts.
abbrev move : (ℕ → ℕ) → ℕ → ℕ → ℕ → ℕ → ℕ
move bank from to amount who =
    if who == to then bank to + amount else (if who == from then bank from - amount else bank who)

abbrev transfer : ℕ → ℕ → ℕ → (ℕ → ℕ) → Option (ℕ → ℕ)
transfer from to amount bank =
    if from == to
    then none
    else (if leb amount (bank from) then some (move bank from to amount) else none)

-- The existential deposit is 5; a vested transfer takes a smaller rest with it.
abbrev reaped : ℕ → Option (ℕ → ℕ) → Option (ℕ → ℕ)
reaped from none = none
reaped from (some bank) = some (update bank from 0)

abbrev vested_transfer : ℕ → ℕ → ℕ → (ℕ → ℕ) → Option (ℕ → ℕ)
vested_transfer from to amount bank =
    if ltb (bank from) (amount + 5)
    then reaped from (transfer from to amount bank)
    else transfer from to amount bank

abbrev currency : Currency (ℕ → ℕ)
currency = record {
  transfer = transfer;
  vested_transfer = λ from to amount per_block start bank. vested_transfer from to amount bank;
}

abbrev balance : (ℕ → ℕ) → ℕ → ℕ
balance bank who = bank who

target : (from to amount : ℕ) (b : ℕ → ℕ) → move b from to amount to ≡ b to + amount
target from to amount b = rw (==-self to)

source :
    (from to amount : ℕ) (b : ℕ → ℕ)
    → (from == to) ≡ false
    → move b from to amount from ≡ b from - amount
source from to amount b apart = rw (apart, ==-self from)

no_bank : (b : ℕ → ℕ) → none ≡ some b → ⊥
no_bank b e = cc

moved :
    (from to amount : ℕ) (b b' : ℕ → ℕ)
    → transfer from to amount b ≡ some b'
    → ((from == to) ≡ false) × (leb amount (b from) ≡ true) × (move b from to amount ≡ b')
moved from to amount b b' e = elim (Bool-cases (from == to)) [
  | inl same ↦ absurd (no_bank b' (rw same at e))
  | inr apart ↦ elim (Bool-cases (leb amount (b from))) [
    | inl ok ↦ (apart, ok, some_eq (rw (apart, ok) at e))
    | inr short ↦ absurd (no_bank b' (rw (apart, short) at e))
  ]
]

spent_lem :
    (from to amount : ℕ) (b b' : ℕ → ℕ)
    → transfer from to amount b ≡ some b'
    → b from ≤ b' from + amount
spent_lem from to amount b b' e =
    let (apart, enough, m) = moved from to amount b b' e in
    let rest : b' from ≡ b from - amount =
      ap (λ (f : ℕ → ℕ). f from) (sym m) ∙ source from to amount b apart in
    let covered = leb→le amount (b from) enough in omega arith

vested_lem :
    (from to amount : ℕ) (b b' : ℕ → ℕ)
    → vested_transfer from to amount b ≡ some b'
    → (b from ≤ b' from + amount) ⊎ (b from < amount + 5)
vested_lem from to amount b b' e = elim (Bool-cases (ltb (b from) (amount + 5))) [
  | inl low ↦ inr (ltb→lt (b from) (amount + 5) low)
  | inr high ↦ inl (spent_lem from to amount b b' (rw high at e))
]

currency-IsCurrency : IsCurrency currency balance 5
currency-IsCurrency = record {
  received = λ from to amount b b' e apart.
      let (_, _, m) = moved from to amount b b' e in
      ap (λ (f : ℕ → ℕ). f to) (sym m) ∙ target from to amount b;
  spent = λ from to amount b b' e. spent_lem from to amount b b' e;
  vested = λ from to amount per_block start b b' e. vested_lem from to amount b b' e;
}

abbrev config : AirdropConfig
config = record {
  account_id = 99;
  block_number_to_balance = λ n. n;
  balance_max = 1000000;
  block_max = 1000000;
}

abbrev genesis : Airdrops (ℕ → ℕ)
genesis = record {
  airdrop_info = empty_map;
  claimed = λ _ _. false;
  next_airdrop_id = 0;
  bank = λ who. 100;
  events = [];
}

abbrev drop_of : ℕ → AirdropMetadata
drop_of balance = record {
  merkle_root = root blake2 tree;
  creator = 1;
  balance = balance;
  vesting_period = none;
  vesting_delay = none;
}

-- A run: account 1 creates an airdrop and funds it with 50, and claims 30 of it.
abbrev created : Airdrops (ℕ → ℕ)
created = record genesis {
  airdrop_info = update empty_map 0 (some (drop_of 0));
  next_airdrop_id = 1;
  events = airdrop_created 0 (drop_of 0) ∷ [];
}

abbrev funded : Airdrops (ℕ → ℕ)
funded = record created {
  airdrop_info = update created.airdrop_info 0 (some (drop_of 50));
  bank = move created.bank 1 99 50;
  events = airdrop_funded 0 50 ∷ created.events;
}

abbrev paid : Airdrops (ℕ → ℕ)
paid = record funded {
  airdrop_info = update funded.airdrop_info 0 (some (drop_of 20));
  claimed = update funded.claimed 0 (update (funded.claimed 0) 1 true);
  bank = move funded.bank 99 1 30;
  events = airdrop_claimed 0 1 30 ∷ funded.events;
}

creates :
    create_airdrop blake2 currency config (signed 1) (root blake2 tree) none none genesis
    ≡ done created
unfolding create_airdrop
creates = refl

funds : fund_airdrop blake2 currency config (signed 1) 0 50 created ≡ done funded
unfolding fund_airdrop
funds = refl

claims : claim blake2 currency config 5 unsigned 0 1 30 (2040 ∷ []) funded ≡ done paid
unfolding claim verify_merkle_proof calculate_parent_hash_blake2
claims = refl

run : Runs blake2 currency config genesis paid
run =
    next
      (next (next stop (by_create (signed 1) (root blake2 tree) none none creates))
        (by_fund 1 0 50 (λ e. omega arith) funds))
      (by_claim 5 unsigned 0 1 30 (2040 ∷ []) claims)

claim-claim_example :
    claim blake2 currency config 6 unsigned 0 1 30 (2040 ∷ []) paid
    ≡ refused (pallet_error already_claimed)
claim-claim_example =
    claim-claim blake2 currency config 5 6 0 1 30 30 unsigned (2040 ∷ []) (2040 ∷ []) funded claims
      stop

genesis_total : (n : ℕ) → total n genesis.airdrop_info ≡ 0
genesis_total zero = refl
genesis_total (suc n) = omega (arith, genesis_total n)

genesis-IsSolvent : IsSolvent blake2 currency config balance 5 currency-IsCurrency genesis
genesis-IsSolvent n = let empty = genesis_total n in omega arith

Runs-IsSolvent_example : total 3 paid.airdrop_info + 5 ≤ balance paid.bank 99
Runs-IsSolvent_example =
    Runs-IsSolvent blake2 currency config balance 5 currency-IsCurrency run genesis-IsSolvent 3
