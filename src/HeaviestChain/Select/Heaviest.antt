-- ===== src/HeaviestChain/Select/Heaviest.antt =====
-- What `best_chain` selects (client/consensus/qpow/src/chain_management.rs).
use mathlib.Core.Path.{subst}
use native.Mathlib.Nat.{le_refl, le_of_eq, le_trans}
use chain_testing.Prelude.{
  ℕ, ◌≤◌, ◌<◌, ◌≡◌, ◌≢◌, ◌⊎◌, ◌∙◌, refl, sym, ap, inl, inr, Bool, true, false, leb, ltb, ◌==◌,
  Bool-cases, ==→eq, arith, ltb→lt, leb→le,
}
use chain_testing.HeaviestChain.Client.{Header, Client, ok, >>=-ok, pure}
use chain_testing.HeaviestChain.Ancestor.{find_common_ancestor_and_depth}
use chain_testing.HeaviestChain.Ancestor.Lowest.{
  Has, Chain, find_common_ancestor_and_depth-IsLowest,
}
use chain_testing.HeaviestChain.Select.{
  calculate_chain_work, is_chain_ignored, add_ignored_chain, choose, weigh, consider,
}

-- A node whose headers form chains down to one genesis block, whose runtime answers with the work
-- `work` and the limit `limit`, and whose auxiliary store keeps what is written to it.
pub record IsNode {Store : Type 0} (client : Client Store) (genesis limit : ℕ) (work : ℕ → ℕ)
    : Type 0 where
  pub named : (h : ℕ) (header : Header) → Has client h header → header.hash ≡ h
  pub chains :
      (h : ℕ) (header : Header) → Has client h header → Chain client genesis header.number h
  pub works : (h : ℕ) → client.get_total_work h ≡ ok (work h)
  pub limits : (h : ℕ) → client.get_max_reorg_depth h ≡ ok limit
  pub reads : (h : ℕ) (s : Store) → (b : Bool) × (client.get_aux h s ≡ ok b)
  pub writes : (h : ℕ) (s : Store) → (s' : Store) × (client.insert_aux h s ≡ ok s')
  pub keeps :
      (h k : ℕ) (s s' : Store)
      → client.insert_aux k s ≡ ok s'
      → h ≢ k
      → client.get_aux h s' ≡ client.get_aux h s

ok_eq : {A : Type 0} {a b : A} → ok a ≡ ok b → a ≡ b
ok_eq e = cc

not_fresh : {b : Bool} → ok b ≡ ok false → b ≡ true → ⊥
not_fresh e h = cc

less_of_leb : (a b : ℕ) → leb a b ≡ false → b ≤ a
less_of_leb a b h = ground arith

far_of_leb : (d limit : ℕ) → leb d limit ≡ false → limit < d
far_of_leb d limit h = ground arith

module _ {Store : Type 0} (client : Client Store) (genesis limit : ℕ) (work : ℕ → ℕ)
    (node : IsNode client genesis limit work) where
  -- The block of this header forks off the current best chain within the limit.
  abbrev pub Within : Header → Header → Type 0
  Within current header =
      (f d : ℕ) × (find_common_ancestor_and_depth client current header ≡ ok (f, d)) × (d ≤ limit)

  choose-lem :
      (best header : Header)
      → work best.hash ≤ work header.hash
      → (best' : Header) × (choose client (best, work best.hash) header (work header.hash)
          ≡ (best', work best'.hash))
        × ((best' ≡ best) ⊎ (best' ≡ header))
        × (work header.hash ≤ work best'.hash)
  unfolding choose
  choose-lem best header more = elim (Bool-cases (work header.hash == work best.hash)) [
    | inr apart ↦ (header, rw apart, inr refl, le_refl _)
    | inl same ↦
        let e : work header.hash ≡ work best.hash = ==→eq _ _ same in
        elim (Bool-cases (ltb best.number header.number)) [
          | inl taller ↦ (header, rw (same, taller, e), inr refl, le_refl _)
          | inr short ↦ (best, rw (same, short), inl refl, le_of_eq e)
        ]
  ]

  -- What the loop knows after a leaf: the head with its work, where it came from, and what became of
  -- the ignored chains.
  pub record IsStep (current : Header) (leaf : ℕ) (header best : Header) (s s' : Store)
      (best' : Header) : Type 0 where
    pub heavier : work best.hash ≤ work best'.hash
    pub from : (best' ≡ best) ⊎ ((best' ≡ header) × Within current header)
    pub beats :
        Within current header
        → client.get_aux leaf s ≡ ok false
        → work header.hash ≤ work best'.hash
    pub others : (h : ℕ) → h ≢ leaf → client.get_aux h s' ≡ client.get_aux h s
    pub kept : Within current header → s' ≡ s

  add_ignored_chain-lem :
      (leaf : ℕ) (s : Store)
      → (s' : Store) × (add_ignored_chain client leaf s ≡ (ok tt, s'))
        × ((h : ℕ) → h ≢ leaf → client.get_aux h s' ≡ client.get_aux h s)
  unfolding add_ignored_chain
  add_ignored_chain-lem leaf s =
      let (s', e) = node.writes leaf s in
      (s', rw (e, add_ignored_chain), λ h apart. node.keeps h leaf s s' e apart)

  -- A head beyond the limit is no head within it.
  beyond :
      (current header : Header) {f d : ℕ}
      → find_common_ancestor_and_depth client current header ≡ ok (f, d)
      → limit < d
      → ¬ Within current header
  beyond current header {f} {d} found far (f', d', e, near) =
      let same : d ≡ d' = ap (λ (t : ℕ × ℕ). t.1) (ok_eq (sym found ∙ e)) in omega (arith, same)

  ignored-IsStep :
      (current : Header) (leaf : ℕ) (header best : Header) (s s' : Store)
      → ((h : ℕ) → h ≢ leaf → client.get_aux h s' ≡ client.get_aux h s)
      → ¬ Within current header
      → IsStep current leaf header best s s' best
  ignored-IsStep current leaf header best s s' others far = record {
    heavier = le_refl _;
    from = inl refl;
    beats = λ near _. absurd (far near);
    others = others;
    kept = λ near. absurd (far near);
  }

  chosen :
      (current header best best' : Header)
      → Within current header
      → (best' ≡ best) ⊎ (best' ≡ header)
      → (best' ≡ best) ⊎ ((best' ≡ header) × Within current header)
  chosen current header best best' near (inl e) = inl e
  chosen current header best best' near (inr e) = inr (e, near)

  weigh-IsStep :
      (current : Header) (leaf : ℕ) (best header : Header) (s : Store) (f d : ℕ)
      → find_common_ancestor_and_depth client current header ≡ ok (f, d)
      → (best' : Header) × (s' : Store) × (weigh client current leaf
            (best, work best.hash)
            header
            (work header.hash)
            limit
            s
          ≡ (ok (best', work best'.hash), s'))
        × IsStep current leaf header best s s' best'
  unfolding weigh
  weigh-IsStep current leaf best header s f d found =
      elim (Bool-cases (leb (work best.hash) (work header.hash))) [
        | inl more ↦ elim (Bool-cases (leb d limit)) [
          | inl near ↦
              let (best', run, who, beats) = choose-lem best header (leb→le _ _ more) in
              (
                best',
                s,
                rw (more, found, near, run),
                record {
                  heavier = le_trans (leb→le _ _ more) beats;
                  from = chosen current header best best' (f, d, found, leb→le d limit near) who;
                  beats = λ _ _. beats;
                  others = λ _ _. refl;
                  kept = λ _. refl;
                },
              )
          | inr far ↦
              let (s', run, others) = add_ignored_chain-lem leaf s in
              (
                best,
                s',
                rw (more, found, far)
                    (>>=-ok (add_ignored_chain client leaf) (λ _. pure (best, work best.hash)) run),
                ignored-IsStep current leaf header best s s' others
                    (beyond current header found (far_of_leb d limit far)),
              )
        ]
        | inr less ↦ elim (Bool-cases (ltb limit d)) [
          | inl far ↦
              let (s', run, others) = add_ignored_chain-lem leaf s in
              (
                best,
                s',
                rw (less, found, far)
                    (>>=-ok (add_ignored_chain client leaf) (λ _. pure (best, work best.hash)) run),
                ignored-IsStep current leaf header best s s' others
                    (beyond current header found (ltb→lt limit d far)),
              )
          | inr near ↦ (
            best,
            s,
            rw (less, found, near),
            record {
              heavier = le_refl _;
              from = inl refl;
              beats = λ _ _. less_of_leb _ _ less;
              others = λ _ _. refl;
              kept = λ _. refl;
            },
          )
        ]
      ]

  pub consider-IsStep :
      (current : Header) (leaf : ℕ) (best header : Header) (s : Store)
      → Has client current.hash current
      → Has client leaf header
      → (best' : Header) × (s' : Store) × (consider client current leaf (best, work best.hash) s
          ≡ (ok (best', work best'.hash), s'))
        × IsStep current leaf header best s s' best'
  unfolding consider is_chain_ignored calculate_chain_work
  consider-IsStep current leaf best header s hc hl = elim (Bool-cases (leaf == best.hash)) [
    | inl same ↦
        let e : header.hash ≡ best.hash = node.named leaf header hl ∙ ==→eq leaf best.hash same in
        (
          best,
          s,
          rw same,
          record {
            heavier = le_refl _;
            from = inl refl;
            beats = λ _ _. le_of_eq (ap work e);
            others = λ _ _. refl;
            kept = λ _. refl;
          },
        )
    | inr apart ↦
        let (b, read) = node.reads leaf s in
        elim (Bool-cases b) [
          | inl ignored ↦ (
            best,
            s,
            rw (apart, read, ignored),
            record {
              heavier = le_refl _;
              from = inl refl;
              beats = λ _ fresh. absurd (not_fresh (sym read ∙ fresh) ignored);
              others = λ _ _. refl;
              kept = λ _. refl;
            },
          )
          | inr fresh ↦
              let low =
                find_common_ancestor_and_depth-IsLowest client genesis current header
                  (node.chains current.hash current hc)
                  (subst (Chain client genesis header.number) (sym (node.named leaf header hl))
                    (node.chains leaf header hl)) in
              let (best', s', run, step) =
                weigh-IsStep current leaf best header s low.fork _ low.returned in
              (
                best',
                s',
                rw (apart, read, fresh, hl, node.works header.hash, node.limits best.hash) run,
                step,
              )
        ]
  ]
