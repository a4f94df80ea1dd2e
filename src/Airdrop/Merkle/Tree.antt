-- ===== src/Airdrop/Merkle/Tree.antt =====
-- Which proofs verify against the root of a Merkle tree (pallets/merkle-airdrop/src/lib.rs).
use chain_testing.Prelude.{
  ℕ, ℕ_discrete, ◌≤◌, ◌≡◌, ◌≢◌, ◌⊎◌, ◌∙◌, inl, inr, refl, sym, ap, List, [], ◌∷◌, ◌++◌, Bool-cases,
  true, false, ltb, ltb-false, ==→eq, ==-self, if◌then◌else◌, arith,
}
use chain_testing.Airdrop.Merkle.{Blake2, calculate_parent_hash_blake2, climb, verify_merkle_proof}

-- A tree of the accounts with their amounts.
pub data Tree : Type 0 where
  leaf : ℕ → ℕ → Tree
  node : Tree → Tree → Tree

below : (a b : ℕ) → ltb a b ≡ true → a ≤ b
below a b h = ground arith

level : (a b : ℕ) → ltb a b ≡ false → ltb b a ≡ false → a ≡ b
level a b h k = ground arith

last_of :
    (path : List ℕ) → (path ≡ []) ⊎ ((init : List ℕ) × (last : ℕ) × (path ≡ init ++ (last ∷ [])))
last_of [] = inl refl
last_of (x ∷ path) = elim (last_of path) [
  | inl e ↦ inr ([], x, ap (λ p. x ∷ p) e)
  | inr (init, last, e) ↦ inr (x ∷ init, last, ap (λ p. x ∷ p) e)
]

orders :
    (x e y f a b c d : ℕ)
    → a ≡ c
    → b ≡ d
    → ((a ≡ x) × (b ≡ e)) ⊎ ((a ≡ e) × (b ≡ x))
    → ((c ≡ y) × (d ≡ f)) ⊎ ((c ≡ f) × (d ≡ y))
    → ((x ≡ y) × (e ≡ f)) ⊎ ((x ≡ f) × (e ≡ y))
orders x e y f a b c d u v o o' = grind arith

module _ (blake2 : Blake2) where
  abbrev parent : ℕ → ℕ → ℕ
  parent = calculate_parent_hash_blake2 blake2

  abbrev pub root : Tree → ℕ
  root (leaf account amount) = blake2.of_leaf account amount
  root (node l r) = calculate_parent_hash_blake2 blake2 (root l) (root r)

  -- The account with the amount is a leaf of the tree, and these are the hashes beside its path.
  pub data Beside (account amount : ℕ) : Tree → List ℕ → Type 0 where
    here : Beside account amount (leaf account amount) []
    left :
        {l r : Tree} {path : List ℕ}
        → Beside account amount l path
        → Beside account amount (node l r) (path ++ (root r ∷ []))
    right :
        {l r : Tree} {path : List ℕ}
        → Beside account amount r path
        → Beside account amount (node l r) (path ++ (root l ∷ []))

  -- Two different inputs of the hash function with the same hash.
  pub data Collision : Type 0 where
    leaves : (a m b n : ℕ) → (a ≢ b) ⊎ (m ≢ n) → blake2.of_leaf a m ≡ blake2.of_leaf b n → Collision
    pairs : (a b c d : ℕ) → (a ≢ c) ⊎ (b ≢ d) → blake2.of_pair a b ≡ blake2.of_pair c d → Collision
    mixed : (a m c d : ℕ) → blake2.of_leaf a m ≡ blake2.of_pair c d → Collision

  parent_comm : (a b : ℕ) → parent a b ≡ parent b a
  unfolding calculate_parent_hash_blake2
  parent_comm a b = elim (Bool-cases (ltb a b)) [
    | inl less ↦ rw (less, ltb-false b a (below a b less))
    | inr more ↦ elim (Bool-cases (ltb b a)) [
      | inl less ↦ rw (more, less)
      | inr same ↦ let e : a ≡ b = level a b more same in rw e
    ]
  ]

  -- One step of the loop hashes the two hashes, in whichever order.
  step_lem : (x e : ℕ) → (if ltb x e then parent x e else parent e x) ≡ parent x e
  step_lem x e = elim (Bool-cases (ltb x e)) [
    | inl less ↦ rw less
    | inr more ↦ rw (more, parent_comm e x)
  ]

  climb_snoc :
      (path : List ℕ) (x e : ℕ) → climb blake2 x (path ++ (e ∷ [])) ≡ parent (climb blake2 x path) e
  unfolding climb
  climb_snoc [] x e = step_lem x e
  climb_snoc (y ∷ path) x e = climb_snoc path _ e

  climb-Beside :
      (a m : ℕ) {t : Tree} {path : List ℕ}
      → Beside a m t path
      → climb blake2 (blake2.of_leaf a m) path ≡ root t
  unfolding climb
  climb-Beside a m here = refl
  climb-Beside a m (left {l} {r} {path} b) =
      climb_snoc path (blake2.of_leaf a m) (root r)
      ∙ ap (λ h. parent h (root r)) (climb-Beside a m b)
  climb-Beside a m (right {l} {r} {path} b) =
      climb_snoc path (blake2.of_leaf a m) (root l)
      ∙ ap (λ h. parent h (root l)) (climb-Beside a m b)
      ∙ parent_comm (root r) (root l)

  -- The hash of a parent is the hash of its children in one of the two orders.
  parent_pair :
      (x e : ℕ)
      → (c d : ℕ) × (parent x e ≡ blake2.of_pair c d) × (((c ≡ x) × (d ≡ e)) ⊎ ((c ≡ e) × (d ≡ x)))
  unfolding calculate_parent_hash_blake2
  parent_pair x e = elim (Bool-cases (ltb x e)) [
    | inl less ↦ (x, e, rw less, inl (refl, refl))
    | inr more ↦ (e, x, rw more, inr (refl, refl))
  ]

  same_pair :
      (a b c d : ℕ) → blake2.of_pair a b ≡ blake2.of_pair c d → ((a ≡ c) × (b ≡ d)) ⊎ Collision
  same_pair a b c d e = elim (ℕ_discrete a c) [
    | no ne ↦ inr (pairs a b c d (inl ne) e)
    | yes p ↦ elim (ℕ_discrete b d) [ no ne ↦ inr (pairs a b c d (inr ne) e) | yes q ↦ inl (p, q) ]
  ]

  -- Two parents with one hash have the same children, in one of the two orders.
  same_children :
      (x e y f : ℕ)
      → parent x e ≡ parent y f
      → (((x ≡ y) × (e ≡ f)) ⊎ ((x ≡ f) × (e ≡ y))) ⊎ Collision
  same_children x e y f same =
      let (a, b, p, o) = parent_pair x e in
      let (c, d, q, o') = parent_pair y f in
      elim (same_pair a b c d (sym p ∙ same ∙ q)) [
        | inr clash ↦ inr clash
        | inl (u, v) ↦ inl (orders x e y f a b c d u v o o')
      ]

  same_leaf :
      (a m b n : ℕ) → blake2.of_leaf a m ≡ blake2.of_leaf b n → Beside a m (leaf b n) [] ⊎ Collision
  same_leaf a m b n e = elim (ℕ_discrete a b) [
    | no ne ↦ inr (leaves a m b n (inl ne) e)
    | yes p ↦ elim (ℕ_discrete m n) [
      | no ne ↦ inr (leaves a m b n (inr ne) e)
      | yes q ↦ inl (rw (← p, ← q) here)
    ]
  ]

  extend :
      (a m : ℕ) (l r : Tree) (init : List ℕ) (x e : ℕ)
      → ((x ≡ root l) × (e ≡ root r)) ⊎ ((x ≡ root r) × (e ≡ root l))
      → (x ≡ root l → Beside a m l init ⊎ Collision)
      → (x ≡ root r → Beside a m r init ⊎ Collision)
      → Beside a m (node l r) (init ++ (e ∷ [])) ⊎ Collision
  extend a m l r init x e (inl (p, q)) f g = elim (f p) [
    | inl b ↦ inl (rw q (left b))
    | inr clash ↦ inr clash
  ]
  extend a m l r init x e (inr (p, q)) f g = elim (g p) [
    | inl b ↦ inl (rw q (right b))
    | inr clash ↦ inr clash
  ]

  -- The last step of the loop.
  last_step :
      (x : ℕ) (path init : List ℕ) (last : ℕ) {top : ℕ}
      → path ≡ init ++ (last ∷ [])
      → climb blake2 x path ≡ top
      → parent (climb blake2 x init) last ≡ top
  last_step x path init last p e = sym (climb_snoc init x last) ∙ ap (climb blake2 x) (sym p) ∙ e

  climb_sound :
      (t : Tree) (a m : ℕ) (path : List ℕ)
      → climb blake2 (blake2.of_leaf a m) path ≡ root t
      → Beside a m t path ⊎ Collision
  unfolding climb
  climb_sound (leaf b n) a m path e = elim (last_of path) [
    | inl empty ↦
        let f : blake2.of_leaf a m ≡ blake2.of_leaf b n =
          ap (climb blake2 (blake2.of_leaf a m)) (sym empty) ∙ e in
        rw empty (same_leaf a m b n f)
    | inr (init, last, p) ↦
        let (c, d, q, _) = parent_pair (climb blake2 (blake2.of_leaf a m) init) last in
        inr (mixed b n c d (sym (last_step _ path init last p e) ∙ q))
  ]
  climb_sound (node l r) a m path e = elim (last_of path) [
    | inl empty ↦
        let f : blake2.of_leaf a m ≡ parent (root l) (root r) =
          ap (climb blake2 (blake2.of_leaf a m)) (sym empty) ∙ e in
        let (c, d, q, _) = parent_pair (root l) (root r) in inr (mixed a m c d (f ∙ q))
    | inr (init, last, p) ↦
        elim (same_children _ last (root l) (root r) (last_step _ path init last p e)) [
          | inr clash ↦ inr clash
          | inl o ↦ rw p (
              extend a m l r init _ last o (λ f. climb_sound l a m init f)
                (λ f. climb_sound r a m init f))
        ]
  ]

  -- The hashes beside the path from a leaf are a proof of the leaf for the root of its tree.
  pub verify_merkle_proof_complete :
      {t : Tree} {path : List ℕ} (account amount : ℕ)
      → Beside account amount t path
      → verify_merkle_proof blake2 account amount (root t) path ≡ true
  unfolding verify_merkle_proof
  verify_merkle_proof_complete account amount b = rw (climb-Beside account amount b, ==-self)

  -- A proof that verifies for the root of a tree consists of the hashes beside the path from a leaf
  -- with that account and amount, or there are two different inputs of the hash function with the
  -- same hash.
  pub verify_merkle_proof_sound :
      (t : Tree) (path : List ℕ) (account amount : ℕ)
      → verify_merkle_proof blake2 account amount (root t) path ≡ true
      → Beside account amount t path ⊎ Collision
  unfolding verify_merkle_proof
  verify_merkle_proof_sound t path account amount e =
      climb_sound t account amount path (==→eq _ _ e)
