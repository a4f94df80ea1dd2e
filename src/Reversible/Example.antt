-- ===== src/Reversible/Example.antt =====
-- A concrete scheduler, preimage store and bank, for the tests of the reversible transfers
-- (pallets/reversible-transfers/src/lib.rs).
use chain_testing.Prelude.{
  update-add, update-share, share, ℕ, zero, suc, ◌+◌, ◌-◌, ◌*◌, ◌≡◌, ◌∙◌, refl, sym, ap, Option,
  none, some, some_eq, Bool, true, false, not, leb, leb→le, ltb, ◌==◌, [], empty_map, ==→eq,
  if◌then◌else◌, arith, update, Map,
}
use chain_testing.Dispatch.{DispatchResult, done, refused, panicked}
use chain_testing.Reversible.Types.{
  ReversibleConfig, ReversibleError, Reversibles, RuntimeCall, transfer_keep_alive,
  execute_transfer_call, Substrate,
}
use chain_testing.Reversible.Ledger.{IsSubstrate}
use chain_testing.Reversible.Stuck.{IsScheduler}

-- Two numbers as one.
abbrev pub pair : ℕ → ℕ → ℕ
pair zero b = 2 * b + 1
pair (suc a) b = 2 * pair a b

pair_injective : (a b a' b' : ℕ) → pair a b ≡ pair a' b' → (a ≡ a') × (b ≡ b')
pair_injective zero b zero b' e = (omega arith, omega arith)
pair_injective zero b (suc a') b' e = absurd (omega arith)
pair_injective (suc a) b zero b' e = absurd (omega arith)
pair_injective (suc a) b (suc a') b' e =
    let (same, equal) = pair_injective a b a' b' (omega arith) in (omega arith, equal)

abbrev pub encode : RuntimeCall → ℕ
encode (transfer_keep_alive dest amount) = 2 * pair dest amount
encode (execute_transfer_call tx_id) = 2 * tx_id + 1

encode_injective : (call call' : RuntimeCall) → encode call ≡ encode call' → call ≡ call'
encode_injective (transfer_keep_alive d a) (transfer_keep_alive d' a') e =
    let (dest, amount) = pair_injective d a d' a' (omega arith) in rw (dest, amount) refl
encode_injective (transfer_keep_alive d a) (execute_transfer_call t') e = absurd (omega arith)
encode_injective (execute_transfer_call t) (transfer_keep_alive d' a') e = absurd (omega arith)
encode_injective (execute_transfer_call t) (execute_transfer_call t') e =
    let same : t ≡ t' = omega arith in ap execute_transfer_call same

pub record World : Type 0 where
  pub free : ℕ → ℕ
  pub held : ℕ → ℕ
  pub tasks : ℕ → Bool
  pub preimages : Map RuntimeCall

abbrev pub guarded : {A : Type 0} → Bool → A → Option A
guarded b a = if b then some a else none

guarded_inv : {A : Type 0} (b : Bool) (a a' : A) → guarded b a ≡ some a' → (b ≡ true) × (a ≡ a')
guarded_inv true a a' e = (refl, some_eq e)
guarded_inv false a a' e = absurd cc

-- A stored call, if it has the number that it is looked up by.
abbrev pub checked : Option RuntimeCall → ℕ → World → Option (RuntimeCall × World)
checked none bounded w = none
checked (some call) bounded w = guarded (encode call == bounded) (call, w)

abbrev pub gain : (ℕ → ℕ) → ℕ → ℕ → ℕ → ℕ
gain balance who amount = update balance who (balance who + amount)

abbrev pub lose : (ℕ → ℕ) → ℕ → ℕ → ℕ → ℕ
lose balance who amount = update balance who (balance who - amount)

-- A transfer keeps its sender alive: it leaves something.
abbrev pub send : RuntimeCall → ℕ → World → Option World
send (transfer_keep_alive dest amount) from w =
    guarded (ltb amount (w.free from))
      (record w { free = gain (lose w.free from amount) dest amount })
send (execute_transfer_call tx_id) from w = none

abbrev pub substrate : Substrate World
substrate = record {
  tx_id_of = λ who call. pair who (encode call);
  task_name = λ tx_id count. some (pair tx_id count);
  bound = λ call w.
      some (encode call, record w { preimages = update w.preimages (encode call) (some call) });
  realize = λ bounded w. checked (w.preimages bounded) bounded w;
  schedule_named = λ name at origin call w.
      guarded (not (w.tasks name)) (record w { tasks = update w.tasks name true });
  cancel_named = λ name w. guarded (w.tasks name) (record w { tasks = update w.tasks name false });
  hold = λ who amount w.
      guarded (leb amount (w.free who))
        (record w { free = lose w.free who amount; held = gain w.held who amount });
  release = λ who amount w.
      guarded (leb amount (w.held who))
        (record w { free = gain w.free who amount; held = lose w.held who amount });
  transfer_on_hold = λ who reverser amount w.
      guarded (leb amount (w.held who))
        (record w { free = gain w.free reverser amount; held = lose w.held who amount });
  dispatch = send;
}

checked_inv :
    (o : Option RuntimeCall) (bounded : ℕ) (w : World) (call : RuntimeCall) (w' : World)
    → checked o bounded w ≡ some (call, w')
    → (encode call ≡ bounded) × (w ≡ w')
checked_inv none bounded w call w' e = absurd cc
checked_inv (some kept) bounded w call w' e =
    let (known, same) = guarded_inv (encode kept == bounded) (kept, w) (call, w') e in
    (
      sym (ap (λ (r : RuntimeCall × World). encode r.0) same) ∙ ==→eq _ _ known,
      ap (λ (r : RuntimeCall × World). r.1) same,
    )

pub substrate-IsSubstrate : IsSubstrate substrate (λ w. w.held)
substrate-IsSubstrate = record {
  same_id = λ who who' dest dest' amount amount' e.
      let (own, call) = pair_injective _ _ _ _ e in
      let (same, equal) = pair_injective dest amount dest' amount' (omega arith) in
      (own, same, equal);
  content = λ call call' bounded w w' v v' e e'.
      let (realized, _) = checked_inv (v.preimages bounded) bounded v call' v' e' in
      encode_injective call' call (realized ∙ sym (ap (λ (r : ℕ × World). r.0) (some_eq e)));
  bound_held = λ call bounded w w' who e. sym (ap (λ (r : ℕ × World). r.1.held who) (some_eq e));
  realize_held = λ call bounded w w' who e.
      let (_, same) = checked_inv (w.preimages bounded) bounded w call w' e in
      sym (ap (λ (v : World). v.held who) same);
  schedule_held = λ name at origin call who w w' e.
      let (_, same) = guarded_inv _ _ w' e in ap (λ (v : World). v.held who) (sym same);
  cancel_held = λ name who w w' e.
      let (_, same) = guarded_inv _ _ w' e in ap (λ (v : World). v.held who) (sym same);
  dispatch_held = λ dest amount from who w w' e.
      let (_, same) = guarded_inv _ _ w' e in ap (λ (v : World). v.held who) (sym same);
  hold_held = λ owner amount who w w' e.
      let (_, same) = guarded_inv _ _ w' e in
      ap (λ (v : World). v.held who) (sym same) ∙ update-add w.held owner amount who;
  release_held = λ owner amount who w w' e.
      let (enough, same) = guarded_inv _ _ w' e in
      ap (λ (v : World). v.held who + share owner who amount) (sym same)
      ∙ update-share w.held owner amount who (leb→le amount (w.held owner) enough);
  transfer_held = λ owner reverser amount who w w' e.
      let (enough, same) = guarded_inv _ _ w' e in
      ap (λ (v : World). v.held who + share owner who amount) (sym same)
      ∙ update-share w.held owner amount who (leb→le amount (w.held owner) enough);
}

absent : (b : Bool) {A : Type 0} (a : A) → b ≡ false → guarded b a ≡ none
absent false a h = refl
absent true a h = absurd cc

pub substrate-IsScheduler : IsScheduler substrate (λ w. w.tasks)
substrate-IsScheduler = record {
  cancel_missing = λ name w h. absent (w.tasks name) _ h;
  realize_task = λ bounded name call w w' e.
      let (_, same) = checked_inv (w.preimages bounded) bounded w call w' e in
      sym (ap (λ (v : World). v.tasks name) same);
  release_task = λ owner amount name w w' e.
      let (_, same) = guarded_inv _ _ w' e in ap (λ (v : World). v.tasks name) (sym same);
  dispatch_task = λ call from name w w' e. sent call from name w w' e;
}
  where
    sent :
        (call : RuntimeCall) (from name : ℕ) (w w' : World)
        → send call from w ≡ some w'
        → w'.tasks name ≡ w.tasks name
    sent (transfer_keep_alive dest amount) from name w w' e =
        let (_, same) = guarded_inv _ _ w' e in ap (λ (v : World). v.tasks name) (sym same)
    sent (execute_transfer_call tx_id) from name w w' e = absurd cc

abbrev pub config : ReversibleConfig
config = record {
  max_pending_per_account = 3;
  default_delay = 10;
  min_delay_period = 2;
  account_id = 99;
  block_max = 1000;
}

abbrev pub held : World → ℕ → ℕ
held w = w.held

abbrev pub held_task : World → ℕ → Bool
held_task w = w.tasks

abbrev pub genesis : Reversibles World
genesis = record {
  reversible_accounts = empty_map;
  pending_transfers = empty_map;
  account_pending_index = λ _. 0;
  world = record { free = λ _. 100; held = λ _. 0; tasks = λ _. false; preimages = empty_map };
  events = [];
}

-- The state after a call that succeeds.
abbrev pub after :
    DispatchResult ReversibleError (Reversibles World) → Reversibles World → Reversibles World
after (done t) s = t
after (refused e) s = s
after panicked s = s
