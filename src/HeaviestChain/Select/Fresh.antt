-- ===== src/HeaviestChain/Select/Fresh.antt =====
-- The choice without a best block (`find_best_chain`,
-- client/consensus/qpow/src/chain_management.rs).
use native.Mathlib.Nat.{le_refl}
use chain_testing.Prelude.{
  ℕ, ◌≤◌, ◌<◌, ◌≡◌, refl, sym, ap, List, [], ◌∷◌, All, some, inl, inr, ltb, ltb→lt, lt→ltb,
  Bool-cases, arith, true, false,
}
use chain_testing.HeaviestChain.Client.{Header, Client, ok}
use chain_testing.HeaviestChain.Ancestor.Lowest.{Has}
use chain_testing.HeaviestChain.Select.{calculate_chain_work, find_best_loop, find_best_chain}
use chain_testing.HeaviestChain.Select.Heaviest.{IsNode}

not_less : (a b : ℕ) → ltb a b ≡ false → b ≤ a
not_less a b h = ground arith

module _ {Store : Type 0} (client : Client Store) (genesis limit : ℕ) (work : ℕ → ℕ)
    (node : IsNode client genesis limit work) where
  find_best_loop-lem :
      (leaves : List ℕ) (best : Header)
      → All (λ l. (header : Header) × Has client l header) leaves
      → (best' : Header) × (find_best_loop client leaves (some best) (work best.hash)
          ≡ ok (some best'))
        × (work best.hash ≤ work best'.hash)
        × All (λ l. work l ≤ work best'.hash) leaves
  unfolding find_best_loop calculate_chain_work
  find_best_loop-lem [] best known = (best, refl, le_refl _, tt)
  find_best_loop-lem (leaf ∷ leaves) best ((header, hl), known) =
      let name : work leaf ≡ work header.hash = ap work (sym (node.named leaf header hl)) in
      elim (Bool-cases (ltb (work best.hash) (work header.hash))) [
        | inl more ↦
            let (best', run, less, all) = find_best_loop-lem leaves header known in
            let up : work best.hash < work header.hash = ltb→lt _ _ more in
            (best', rw (hl, node.works header.hash, more) run, omega arith, (omega arith, all))
        | inr kept ↦
            let (best', run, less, all) = find_best_loop-lem leaves best known in
            let down : work header.hash ≤ work best.hash = not_less _ _ kept in
            (best', rw (hl, node.works header.hash, kept) run, less, (omega arith, all))
      ]

  -- On a node as `IsNode` says, among leaves whose headers are known, the first of positive work,
  -- `find_best_chain` returns a head of at least the work of each of them.
  pub find_best_chain-heaviest :
      (leaf : ℕ) (leaves : List ℕ)
      → All (λ l. (header : Header) × Has client l header) (leaf ∷ leaves)
      → 0 < work leaf
      → (best : Header) × (find_best_chain client (leaf ∷ leaves) ≡ ok best)
        × All (λ l. work l ≤ work best.hash) (leaf ∷ leaves)
  unfolding find_best_chain find_best_loop calculate_chain_work
  find_best_chain-heaviest leaf leaves ((header, hl), known) pos =
      let name : work leaf ≡ work header.hash = ap work (sym (node.named leaf header hl)) in
      let more : ltb 0 (work header.hash) ≡ true = lt→ltb 0 (work header.hash) (omega arith) in
      let (best', run, less, all) = find_best_loop-lem leaves header known in
      (best', rw (hl, node.works header.hash, more, run), (omega arith, all))
