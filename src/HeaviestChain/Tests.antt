-- ===== src/HeaviestChain/Tests.antt =====
-- The theorems on client/consensus/qpow/src/chain_management.rs on a node with a fork.
use mathlib.Core.Path.{subst}
use chain_testing.Prelude.{
  ℕ, zero, suc, ◌+◌, ◌≤◌, ◌≡◌, refl, sym, ap, ◌∙◌, [], ◌∷◌, All, Option, none, some, Bool, true,
  false, update, update-ne, arith,
}
use chain_testing.HeaviestChain.Client.{Header, Result, ok, Client}
use chain_testing.HeaviestChain.Ancestor.{find_common_ancestor_and_depth}
use chain_testing.HeaviestChain.Ancestor.Lowest.{
  Has, Chain, IsLowest, header_eq, find_common_ancestor_and_depth-IsLowest,
}
use chain_testing.HeaviestChain.Select.{best_chain, find_best_chain}
use chain_testing.HeaviestChain.Select.Heaviest.{IsNode}
use chain_testing.HeaviestChain.Select.Chosen.{IsSelected, best_chain-IsSelected}
use chain_testing.HeaviestChain.Select.Fresh.{find_best_chain-heaviest}
use chain_testing.HeaviestChain.Finality.{
  IsFinalization, finalize_canonical_at_depth, finalize_canonical_at_depth-depth,
}

abbrev block : ℕ → ℕ → ℕ → Header
block hash number parent_hash = record { hash = hash; number = number; parent_hash = parent_hash }

-- Genesis 1, the best block 2 on it, and a fork from 1 by 3 and 4.
abbrev headers : ℕ → Result (Option Header)
headers zero = ok none
headers (suc zero) = ok (some (block 1 0 0))
headers (suc (suc zero)) = ok (some (block 2 1 1))
headers (suc (suc (suc zero))) = ok (some (block 3 1 1))
headers (suc (suc (suc (suc zero)))) = ok (some (block 4 2 3))
headers (suc (suc (suc (suc (suc n))))) = ok none

abbrev client : Client (ℕ → Bool)
client = record {
  header = headers;
  leaves = ok (2 ∷ 4 ∷ []);
  best_hash = 2;
  finalized_number = 0;
  hash_at = λ n. ok (some (n + 1));
  get_total_work = λ h. ok (h + 10);
  get_max_reorg_depth = λ _. ok 1;
  get_aux = λ h s. ok (s h);
  insert_aux = λ h s. ok (update s h true);
  finalize_block = λ h s. ok s;
}

ok_same : {A : Type 0} {a b : A} → ok a ≡ ok b → a ≡ b
ok_same e = cc

no_header : {header : Header} → ok none ≡ ok (some header) → ⊥
no_header e = cc

hash_of : {a b : Header} → ok (some a) ≡ ok (some b) → b.hash ≡ a.hash
hash_of e = ap (λ (t : Header). t.hash) (sym (header_eq e))

named : (h : ℕ) (header : Header) → Has client h header → header.hash ≡ h
named zero header e = absurd (no_header e)
named (suc zero) header e = hash_of e
named (suc (suc zero)) header e = hash_of e
named (suc (suc (suc zero))) header e = hash_of e
named (suc (suc (suc (suc zero)))) header e = hash_of e
named (suc (suc (suc (suc (suc n))))) header e = absurd (no_header e)

down_1 : Chain client 1 0 1
down_1 = (refl, (block 1 0 0, refl, refl))

down_2 : Chain client 1 1 2
down_2 = (block 2 1 1, refl, refl, down_1)

down_3 : Chain client 1 1 3
down_3 = (block 3 1 1, refl, refl, down_1)

down_4 : Chain client 1 2 4
down_4 = (block 4 2 3, refl, refl, down_3)

at_height :
    (h : ℕ) {a b : Header}
    → ok (some a) ≡ ok (some b)
    → Chain client 1 a.number h
    → Chain client 1 b.number h
at_height h e = subst (λ (t : Header). Chain client 1 t.number h) (header_eq e)

chains : (h : ℕ) (header : Header) → Has client h header → Chain client 1 header.number h
chains zero header e = absurd (no_header e)
chains (suc zero) header e = at_height 1 e down_1
chains (suc (suc zero)) header e = at_height 2 e down_2
chains (suc (suc (suc zero))) header e = at_height 3 e down_3
chains (suc (suc (suc (suc zero)))) header e = at_height 4 e down_4
chains (suc (suc (suc (suc (suc n))))) header e = absurd (no_header e)

abbrev work : ℕ → ℕ
work h = h + 10

client-IsNode : IsNode client 1 1 work
client-IsNode = record {
  named = named;
  chains = chains;
  works = λ h. refl;
  limits = λ h. refl;
  reads = λ h s. (s h, refl);
  writes = λ h s. (update s h true, refl);
  keeps = λ h k s s' e ne.
      ap (λ (t : ℕ → Bool). ok (t h)) (sym (ok_same e)) ∙ ap ok (update-ne s k h true ne);
}

find_common_ancestor_and_depth-IsLowest_example :
    IsLowest client
      (block 2 1 1)
      (block 4 2 3)
      (find_common_ancestor_and_depth client (block 2 1 1) (block 4 2 3))
find_common_ancestor_and_depth-IsLowest_example =
    find_common_ancestor_and_depth-IsLowest client 1 (block 2 1 1) (block 4 2 3) down_2 down_4

abbrev nothing : ℕ → Bool
nothing h = false

best_chain-IsSelected_example :
    (best : Header) × (s' : ℕ → Bool) × (best_chain client nothing ≡ (ok best, s'))
    × IsSelected client 1 1 work client-IsNode (block 2 1 1) (2 ∷ 4 ∷ []) (block 2 1 1) nothing best
best_chain-IsSelected_example =
    best_chain-IsSelected client 1 1 work client-IsNode (block 2 1 1) 2 (4 ∷ []) nothing refl
      (λ e. omega arith) refl ((block 2 1 1, refl), ((block 4 2 3, refl), tt))

find_best_chain-heaviest_example :
    (best : Header) × (find_best_chain client (2 ∷ 4 ∷ []) ≡ ok best)
    × All (λ l. work l ≤ work best.hash) (2 ∷ 4 ∷ [])
find_best_chain-heaviest_example =
    find_best_chain-heaviest client 1 1 work client-IsNode 2 (4 ∷ [])
      ((block 2 1 1, refl), ((block 4 2 3, refl), tt)) (omega arith)

-- The best block 2 lies right over genesis, and is finalized itself under the limit 1.
finalize_canonical_at_depth-depth_example :
    IsFinalization client 1 1 nothing (finalize_canonical_at_depth client nothing)
finalize_canonical_at_depth-depth_example =
    finalize_canonical_at_depth-depth client (block 2 1 1) 1 nothing (λ e. omega arith) refl refl
