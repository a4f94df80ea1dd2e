-- ===== src/HeaviestChain/Select/Chosen.antt =====
-- The head that `best_chain` returns (client/consensus/qpow/src/chain_management.rs).
use mathlib.Core.Path.{subst, subst₂}
use native.Mathlib.Nat.{le_refl, le_trans}
use chain_testing.Prelude.{
  ℕ, ◌≤◌, ◌≡◌, ◌≢◌, ◌⊎◌, ◌∙◌, refl, sym, ap, inl, inr, List, [], ◌∷◌, All, false, Bool-cases, ◌==◌,
  ==→eq, ==_false, arith,
}
use chain_testing.HeaviestChain.Client.{
  Header, Client, ok, >>=-ok, ◌>>=◌, lift, map_err, failed_leaves, pure,
}
use chain_testing.HeaviestChain.Ancestor.Lowest.{Has, header_eq}
use chain_testing.HeaviestChain.Select.{
  calculate_chain_work, consider, consider_all, best_from, select, best_chain,
}
use chain_testing.HeaviestChain.Select.Heaviest.{IsNode, Within, IsStep, consider-IsStep}

-- A number among those of a list.
abbrev pub Among : ℕ → List ℕ → Type 0
Among x [] = ⊥
Among x (y ∷ ys) = (x ≡ y) ⊎ Among x ys

ne_of_test : (a b : ℕ) → (a == b) ≡ false → a ≢ b
ne_of_test a b h e = ground arith

All-map : {P Q : ℕ → Type 0} (xs : List ℕ) → ((x : ℕ) → P x → Q x) → All P xs → All Q xs
All-map [] f h = tt
All-map (x ∷ xs) f (p, h) = (f x p, All-map xs f h)

module _ {Store : Type 0} (client : Client Store) (genesis limit : ℕ) (work : ℕ → ℕ)
    (node : IsNode client genesis limit work) where
  -- `best'` has at least the work of every leaf that forks off `current` within the limit and is
  -- not ignored in the store `s`.
  abbrev pub Beats : Header → Store → Header → ℕ → Type 0
  Beats current s best' leaf =
      (header : Header)
      → Has client leaf header
      → Within client genesis limit work node current header
      → client.get_aux leaf s ≡ ok false
      → work leaf ≤ work best'.hash

  -- The head selected among the leaves, from a best head so far.
  pub record IsSelected (current : Header) (leaves : List ℕ) (best : Header) (s : Store)
      (best' : Header) : Type 0 where
    pub heavier : work best.hash ≤ work best'.hash
    pub origin :
        (best' ≡ best)
        ⊎ (Among best'.hash leaves
            × Has client best'.hash best'
            × Within client genesis limit work node current best')
    pub beats : All (Beats current s best') leaves

  -- Where the head comes from, after a first leaf and the others.
  join_origin :
      (current : Header) (leaf : ℕ) (leaves : List ℕ) (header best best₁ best₂ : Header)
      (s s₁ : Store)
      → Has client leaf header
      → IsStep client genesis limit work node current leaf header best s s₁ best₁
      → IsSelected current leaves best₁ s₁ best₂
      → (best₂ ≡ best)
        ⊎ (Among best₂.hash (leaf ∷ leaves)
            × Has client best₂.hash best₂
            × Within client genesis limit work node current best₂)
  join_origin current leaf leaves header best best₁ best₂ s s₁ hl step rest = elim rest.origin [
    | inr (a, h, w) ↦ inr (inr a, h, w)
    | inl e ↦ elim step.from [
      | inl e' ↦ inl (e ∙ e')
      | inr (e', w) ↦
          let same : header ≡ best₂ = sym (e ∙ e') in
          let name : best₂.hash ≡ leaf =
            ap (λ (t : Header). t.hash) (e ∙ e') ∙ node.named leaf header hl in
          inr (
            inl name,
            subst₂ (Has client) (sym name) same hl,
            subst (Within client genesis limit work node current) same w,
          )
    ]
  ]

  -- A leaf within the limit that is not ignored is still not ignored after another leaf.
  still_fresh :
      (current : Header) (leaf leaf' : ℕ) (header header' best best₁ : Header) (s s₁ : Store)
      → Has client leaf header
      → Has client leaf' header'
      → IsStep client genesis limit work node current leaf header best s s₁ best₁
      → Within client genesis limit work node current header'
      → client.get_aux leaf' s ≡ ok false
      → client.get_aux leaf' s₁ ≡ ok false
  still_fresh current leaf leaf' header header' best best₁ s s₁ hl hl' step w fresh =
      elim (Bool-cases (leaf' == leaf)) [
        | inr apart ↦ step.others leaf' (ne_of_test leaf' leaf apart) ∙ fresh
        | inl same ↦
            let e : header' ≡ header =
              header_eq (sym hl' ∙ ap client.header (==→eq leaf' leaf same) ∙ hl) in
            ap (client.get_aux leaf')
              (step.kept (subst (Within client genesis limit work node current) e w))
            ∙ fresh
      ]

  heavier_head :
      (current : Header) (leaf : ℕ) (header best best₁ best₂ : Header) (s s₁ : Store)
      → Has client leaf header
      → IsStep client genesis limit work node current leaf header best s s₁ best₁
      → work best₁.hash ≤ work best₂.hash
      → Beats current s best₂ leaf
  heavier_head current leaf header best best₁ best₂ s s₁ hl step more header' hl' w fresh =
      let e : header' ≡ header = header_eq (sym hl' ∙ hl) in
      let b = step.beats (subst (Within client genesis limit work node current) e w) fresh in
      let n : work leaf ≡ work header.hash = ap work (sym (node.named leaf header hl)) in
      omega (arith, b, n)

  consider_all-IsSelected :
      (current : Header) (leaves : List ℕ) (best : Header) (s : Store)
      → Has client current.hash current
      → All (λ leaf. (header : Header) × Has client leaf header) leaves
      → (best' : Header) × (s' : Store) × (consider_all client current leaves
            (best, work best.hash)
            s
          ≡ (ok (best', work best'.hash), s'))
        × IsSelected current leaves best s best'
  unfolding consider_all
  consider_all-IsSelected current [] best s hc known =
      (best, s, refl, record { heavier = le_refl _; origin = inl refl; beats = tt })
  consider_all-IsSelected current (leaf ∷ leaves) best s hc ((header, hl), known) =
      let (best₁, s₁, run₁, step) =
        consider-IsStep client genesis limit work node current leaf best header s hc hl in
      let (best₂, s₂, run₂, rest) = consider_all-IsSelected current leaves best₁ s₁ hc known in
      (
        best₂,
        s₂,
        >>=-ok (consider client current leaf (best, work best.hash))
              (consider_all client current leaves) run₁
            ∙ run₂,
        record {
          heavier = le_trans step.heavier rest.heavier;
          origin = join_origin current leaf leaves header best best₁ best₂ s s₁ hl step rest;
          beats = (
            heavier_head current leaf header best best₁ best₂ s s₁ hl step rest.heavier,
            All-map leaves
                (λ leaf' b header' hl' w fresh. b header' hl' w (
                  still_fresh current leaf leaf' header header' best best₁ s s₁ hl hl' step w
                    fresh))
                rest.beats,
          );
        },
      )

  -- With a best block the selection goes on to the loop over the leaves.
  select_known :
      (current : Header) (leaf : ℕ) (leaves : List ℕ) (s : Store)
      → client.best_hash ≢ 0
      → Has client client.best_hash current
      → select client (leaf ∷ leaves) s
        ≡ (consider_all client current (leaf ∷ leaves) (current, work current.hash) >>= λ b.
              pure b.0)
            s
  unfolding select best_from calculate_chain_work
  select_known current leaf leaves s nonzero hc =
      rw (==_false client.best_hash 0 nonzero, hc, node.works current.hash)

  -- On a node as `IsNode` says, with a best block and at least one leaf, all of whose headers are
  -- known, `best_chain` returns a head with at least the work of the best block, which is that
  -- block or a leaf that forks off within the limit, and which has at least the work of every leaf
  -- that forks off within the limit and is not ignored.
  pub best_chain-IsSelected :
      (current : Header) (leaf : ℕ) (leaves : List ℕ) (s : Store)
      → client.leaves ≡ ok (leaf ∷ leaves)
      → client.best_hash ≢ 0
      → Has client client.best_hash current
      → All (λ l. (header : Header) × Has client l header) (leaf ∷ leaves)
      → (best : Header) × (s' : Store) × (best_chain client s ≡ (ok best, s'))
        × IsSelected current (leaf ∷ leaves) current s best
  unfolding best_chain
  best_chain-IsSelected current leaf leaves s el nonzero hc known =
      let name : client.best_hash ≡ current.hash = sym (node.named client.best_hash current hc) in
      let (best, s', run, sel) =
        consider_all-IsSelected current (leaf ∷ leaves) current s
          (subst (λ h. Has client h current) name hc) known in
      (
        best,
        s',
        >>=-ok (lift (map_err failed_leaves client.leaves)) (select client)
              (ap (λ r. (map_err failed_leaves r, s)) el)
            ∙ select_known current leaf leaves s nonzero hc
            ∙ >>=-ok (consider_all client current (leaf ∷ leaves) (current, work current.hash))
                (λ b. pure b.0) run,
        sel,
      )
