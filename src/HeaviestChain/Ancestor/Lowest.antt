-- ===== src/HeaviestChain/Ancestor/Lowest.antt =====
-- Chains of headers, their common ancestors, and `find_common_ancestor_and_depth` on them
-- (client/consensus/qpow/src/chain_management.rs).
use mathlib.Core.Path.{subst}
use chain_testing.Prelude.{
  ℕ, zero, suc, ◌+◌, ◌-◌, ◌≤◌, ◌<◌, ◌≡◌, ◌≢◌, ◌∙◌, refl, sym, ap, inl, inr, some, min, max, arith,
  Bool-cases, ==_false, ==→eq, ==-self, ◌==◌, true, false,
}
use chain_testing.HeaviestChain.Client.{Header, Client, Result, ok}
use chain_testing.HeaviestChain.Ancestor.{
  parent_of, descend_both, descend_competing, descend_current, find_common_ancestor_and_depth,
}

pub header_eq : {a b : Header} → ok (some a) ≡ ok (some b) → a ≡ b
header_eq e = cc

differ : (a b : ℕ) → (a == b) ≡ false → a ≢ b
differ a b h e = ground arith

module _ {Store : Type 0} (client : Client Store) where
  -- The block `h` has the header `header`.
  abbrev pub Has : ℕ → Header → Type 0
  Has h header = client.header h ≡ ok (some header)

  -- The block `h` stands at height `n` of a chain that goes back to the block `genesis`.
  abbrev pub Chain : ℕ → ℕ → ℕ → Type 0
  Chain genesis zero h = (h ≡ genesis) × ((header : Header) × Has h header × (header.number ≡ 0))
  Chain genesis (suc n) h =
      (header : Header) × Has h header
      × (header.number ≡ suc n)
      × Chain genesis n header.parent_hash

  -- The block `a` is the k-th block below `h`.
  abbrev pub Back : ℕ → ℕ → ℕ → Type 0
  Back zero h a = h ≡ a
  Back (suc k) h a = (header : Header) × Has h header × Back k header.parent_hash a

  parent_of-Has :
      (h : ℕ) (header : Header) → Has h header → parent_of client h ≡ ok header.parent_hash
  unfolding parent_of
  parent_of-Has h header e = rw e

  -- What a descent from equal heights finds.
  abbrev Meets : ℕ → ℕ → ℕ → ℕ → Result (ℕ × ℕ) → Type 0
  Meets n c p d r =
      (f k : ℕ) × (r ≡ ok (f, d + k))
      × Back k c f
      × Back k p f
      × ((k' x : ℕ) → Back k' c x → Back k' p x → k ≤ k')

  same_parent : (h : ℕ) (a b : Header) → Has h a → Has h b → a.parent_hash ≡ b.parent_hash
  same_parent h a b p q = ap (λ (t : Header). t.parent_hash) (header_eq (sym p ∙ q))

  Back-next : (k h x : ℕ) (a : Header) → Has h a → Back (suc k) h x → Back k a.parent_hash x
  Back-next k h x a p (b, q, rest) = rw (same_parent h a b p q) rest

  both_met : (n c p d : ℕ) → (c == p) ≡ true → descend_both client n c p d ≡ ok (c, d)
  unfolding descend_both
  both_met zero c p d h = rw h
  both_met (suc n) c p d h = rw h

  both_step :
      (n c p d : ℕ) (hc hp : Header)
      → (c == p) ≡ false
      → Has c hc
      → Has p hp
      → descend_both client (suc n) c p d
        ≡ descend_both client n hc.parent_hash hp.parent_hash (d + 1)
  unfolding descend_both
  both_step n c p d hc hp h a b = rw (h, parent_of-Has c hc a, parent_of-Has p hp b)

  lower_least :
      (c p k : ℕ) (a b : Header)
      → (c == p) ≡ false
      → Has c a
      → Has p b
      → ((k' x : ℕ) → Back k' a.parent_hash x → Back k' b.parent_hash x → k ≤ k')
      → (k' x : ℕ) → Back k' c x
      → Back k' p x
      → suc k ≤ k'
  lower_least c p k a b apart ha hb least zero x bc bp = absurd (differ c p apart (bc ∙ sym bp))
  lower_least c p k a b apart ha hb least (suc k') x bc bp =
      let under = least k' x (Back-next k' c x a ha bc) (Back-next k' p x b hb bp) in omega arith

  -- A meeting one block down is a meeting.
  lower :
      (n c p d : ℕ) (a b : Header)
      → (c == p) ≡ false
      → Has c a
      → Has p b
      → Meets n a.parent_hash b.parent_hash
          (d + 1)
          (descend_both client n a.parent_hash b.parent_hash (d + 1))
      → Meets (suc n) c p d (descend_both client (suc n) c p d)
  lower n c p d a b apart ha hb (f, k, e, ka, kb, least) = (
    f,
    suc k,
    both_step n c p d a b apart ha hb ∙ e ∙ ap (λ (t : ℕ). ok (f, t)) (omega arith),
    (a, ha, ka),
    (b, hb, kb),
    lower_least c p k a b apart ha hb least,
  )

  both_now : (n c p d : ℕ) → (c == p) ≡ true → Meets n c p d (descend_both client n c p d)
  both_now n c p d met = (
    c,
    0,
    both_met n c p d met ∙ ap (λ (t : ℕ). ok (c, t)) (omega arith),
    refl,
    sym (==→eq c p met),
    λ k' x _ _. omega arith,
  )

  descend_both-Meets :
      (genesis n c p d : ℕ)
      → Chain genesis n c
      → Chain genesis n p
      → Meets n c p d (descend_both client n c p d)
  descend_both-Meets genesis zero c p d hc hp =
      both_now zero c p d (rw (hc.0, hp.0) (==-self genesis))
  descend_both-Meets genesis (suc n) c p d (a, ha, na, ca) (b, hb, nb, cb) =
      let below = descend_both-Meets genesis n a.parent_hash b.parent_hash (d + 1) ca cb in
      elim (Bool-cases (c == p)) [
        | inl met ↦ both_now (suc n) c p d met
        | inr apart ↦ lower n c p d a b apart ha hb below
      ]

  -- A block stands at one height.
  Chain-number :
      (genesis n h : ℕ) → Chain genesis n h → (header : Header) × Has h header × (header.number ≡ n)
  Chain-number genesis zero h (_, (header, e, z)) = (header, e, z)
  Chain-number genesis (suc n) h (header, e, z, _) = (header, e, z)

  Chain-height : (genesis m n h : ℕ) → Chain genesis m h → Chain genesis n h → m ≡ n
  Chain-height genesis m n h a b =
      let (x, hx, nx) = Chain-number genesis m h a in
      let (y, hy, ny) = Chain-number genesis n h b in
      sym nx ∙ ap (λ (t : Header). t.number) (header_eq (sym hx ∙ hy)) ∙ ny

  Back-append : (i j t h x y : ℕ) → t ≡ i + j → Back i h x → Back j x y → Back t h y
  Back-append zero j t h x y e a b = let p : t ≡ j = omega arith in rw (p, a) b
  Back-append (suc i) j zero h x y e a b = absurd (omega arith)
  Back-append (suc i) j (suc t) h x y e (a, ha, ra) b =
      (a, ha, Back-append i j t a.parent_hash x y (omega arith) ra b)

  Back-split : (i j t h x y : ℕ) → t ≡ i + j → Back i h x → Back t h y → Back j x y
  Back-split zero j t h x y e a b = let p : t ≡ j = omega arith in rw (← p, ← a) b
  Back-split (suc i) j zero h x y e a b = absurd (omega arith)
  Back-split (suc i) j (suc t) h x y e (a, ha, ra) b =
      Back-split i j t a.parent_hash x y (omega arith) ra (Back-next t h y a ha b)

  -- The first two loops bring the taller chain down to the other's height.
  descend_competing-lem :
      (genesis rounds n m p d : ℕ) (next : ℕ → ℕ → Result (ℕ × ℕ))
      → m ≡ rounds + n
      → Chain genesis m p
      → (p' : ℕ) × (descend_competing client rounds p d next ≡ next p' (d + rounds))
        × Back rounds p p'
        × Chain genesis n p'
  unfolding descend_competing
  descend_competing-lem genesis zero n m p d next e h =
      let q : m ≡ n = omega arith in (p, ap (next p) (omega arith), refl, rw q at h)
  descend_competing-lem genesis (suc rounds) n zero p d next e h = absurd (omega arith)
  descend_competing-lem genesis (suc rounds) n (suc m) p d next e (a, ha, na, ca) =
      let (p', run, back, low) =
        descend_competing-lem genesis rounds n m a.parent_hash (d + 1) next (omega arith) ca in
      (p', rw (parent_of-Has p a ha) (run ∙ ap (next p') (omega arith)), (a, ha, back), low)

  descend_current-lem :
      (genesis rounds n m l c p d : ℕ) (next : ℕ → ℕ → Result (ℕ × ℕ))
      → m ≡ rounds + n
      → Chain genesis m c
      → Chain genesis l p
      → (0 < rounds → l ≤ n)
      → (c' : ℕ) × (descend_current client rounds c p d next ≡ next c' (d + rounds))
        × Back rounds c c'
        × Chain genesis n c'
  unfolding descend_current
  descend_current-lem genesis zero n m l c p d next e h hp above =
      let q : m ≡ n = omega arith in (c, ap (next c) (omega arith), refl, rw q at h)
  descend_current-lem genesis (suc rounds) n zero l c p d next e h hp above = absurd (omega arith)
  descend_current-lem genesis (suc rounds) n (suc m) l c p d next e (a, ha, na, ca) hp above =
      let (c', run, back, low) =
        descend_current-lem genesis rounds n m l a.parent_hash p (d + 1) next (omega arith) ca hp
          (λ _. above (omega arith)) in
      let apart : (c == p) ≡ false = ==_false c p λ same.
        let hc : Chain genesis (suc m) c = (a, ha, na, ca) in
        let z = Chain-height genesis (suc m) l p (subst (Chain genesis (suc m)) same hc) hp in
        let low : l ≤ n = above (omega arith) in absurd (omega (arith, z)) in
      (c', rw (apart, parent_of-Has c a ha) (run ∙ ap (next c') (omega arith)), (a, ha, back), low)

  -- What the search for the common ancestor of `c` and `p` finds: a block `f`, `i` below the one and
  -- `j` below the other, the larger of which is the depth, and no common ancestor is higher.
  pub record IsLowest (c p : Header) (r : Result (ℕ × ℕ)) : Type 0 where
    pub fork : ℕ
    pub i : ℕ
    pub j : ℕ
    pub returned : r ≡ ok (fork, max i j)
    pub below_current : Back i c.hash fork
    pub below_competing : Back j p.hash fork
    pub level : c.number + j ≡ p.number + i
    pub lowest :
        (i' j' x : ℕ)
        → Back i' c.hash x
        → Back j' p.hash x
        → c.number + j' ≡ p.number + i'
        → (i ≤ i') × (j ≤ j')

  -- On two blocks of one chain of headers down to a genesis block, the search ends without an error,
  -- at the lowest common ancestor; the depth is that of the block that stands higher above it.
  pub find_common_ancestor_and_depth-IsLowest :
      (genesis : ℕ) (c p : Header)
      → Chain genesis c.number c.hash
      → Chain genesis p.number p.hash
      → IsLowest c p (find_common_ancestor_and_depth client c p)
  unfolding find_common_ancestor_and_depth
  find_common_ancestor_and_depth-IsLowest genesis c p hc hp =
      let n = min c.number p.number in
      let r = c.number - p.number in
      let q = p.number - c.number in
      elim (Bool-cases (c.hash == p.hash)) [
        | inl same ↦ record {
          fork = c.hash;
          i = 0;
          j = 0;
          returned = rw same;
          below_current = refl;
          below_competing = sym (==→eq c.hash p.hash same);
          level = omega (
            arith,
            Chain-height genesis c.number p.number p.hash
                (subst (Chain genesis c.number) (==→eq c.hash p.hash same) hc) hp,
          );
          lowest = λ i' j' x _ _ _. (omega arith, omega arith);
        }
        | inr apart ↦
            let next₂ =
              λ (current competing' depth' : ℕ). descend_both client n current competing' depth' in
            let next₁ =
              λ (current depth : ℕ). descend_competing client q p.hash depth (next₂ current) in
            let (c', run₁, back₁, low₁) =
              descend_current-lem genesis r n c.number p.number c.hash p.hash 0 next₁ (omega arith)
                hc hp (λ h. omega arith) in
            let (p', run₂, back₂, low₂) =
              descend_competing-lem genesis q n p.number p.hash (0 + r) (next₂ c') (omega arith)
                hp in
            let (f, k, run₃, back₃, back₄, least) =
              descend_both-Meets genesis n c' p' (0 + r + q) low₁ low₂ in
            record {
              fork = f;
              i = r + k;
              j = q + k;
              returned = rw apart (run₁ ∙ run₂ ∙ run₃ ∙ ap (λ (t : ℕ). ok (f, t)) (omega arith));
              below_current = Back-append r k (r + k) c.hash c' f refl back₁ back₃;
              below_competing = Back-append q k (q + k) p.hash p' f refl back₂ back₄;
              level = omega arith;
              lowest = λ i' j' x bi bj e.
                  let at_current = Back-split r (i' - r) i' c.hash c' x (omega arith) back₁ bi in
                  let at_competing = Back-split q (i' - r) j' p.hash p' x (omega arith) back₂ bj in
                  let under = least (i' - r) x at_current at_competing in
                  (omega arith, omega arith);
            }
      ]
