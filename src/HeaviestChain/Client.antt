-- ===== src/HeaviestChain/Client.antt =====
-- What the chain selection calls, and its errors
-- (client/consensus/qpow/src/chain_management.rs). The client, its backend, its auxiliary store and
-- the runtime are Substrate's: a parameter.
use chain_testing.Prelude.{ℕ, List, Option, none, some, Bool, ◌≡◌, ap}

-- A header as the code reads it; hashes are numbers, and the default hash is 0.
pub record Header : Type 0 where
  pub hash : ℕ
  pub number : ℕ
  pub parent_hash : ℕ

-- `sp_consensus::Error::Other` by its text; `panicked` is the panic of an `expect`.
pub data Error : Type 0 where
  blockchain_error missing_header missing_best_header no_common_ancestor : Error
  failed_work failed_leaves no_leaves no_valid_chain : Error
  failed_read_ignored failed_add_ignored : Error
  failed_hash no_block_at failed_finalize panicked : Error

pub data Result (A : Type 0) : Type 0 where
  ok : A → Result A
  err : Error → Result A

-- A call that may change the store, which keeps what was written before an error.
abbrev pub Action : Type 0 → Type 0 → Type 0
Action Store A = Store → Result A × Store

abbrev pub continue_with :
    {Store A B : Type 0} → Result A × Store → (A → Action Store B) → Result B × Store
continue_with (ok a, s) f = f a s
continue_with (err e, s) f = (err e, s)

infixl 5 ◌>>=◌
abbrev pub ◌>>=◌ : {Store A B : Type 0} → Action Store A → (A → Action Store B) → Action Store B
◌>>=◌ m f s = continue_with (m s) f

-- A call that succeeds is followed by the rest, at the store that it leaves.
pub >>=-ok :
    {Store A B : Type 0} (m : Action Store A) (f : A → Action Store B) {s s' : Store} {a : A}
    → m s ≡ (ok a, s')
    → (m >>= f) s ≡ f a s'
>>=-ok m f e = ap (λ r. continue_with r f) e

module _ {Store : Type 0} where
  abbrev pub lift : {A : Type 0} → Result A → Action Store A
  lift r s = (r, s)

  abbrev pub pure : {A : Type 0} → A → Action Store A
  pure a s = (ok a, s)

-- `map_err` keeps a value and names the error; `ok_or_else` names a missing value.
abbrev pub map_err : {A : Type 0} → Error → Result A → Result A
map_err e (ok a) = ok a
map_err e (err _) = err e

abbrev pub ok_or : {A : Type 0} → Error → Result (Option A) → Result A
ok_or e (ok none) = err e
ok_or e (ok (some a)) = ok a
ok_or e (err f) = err f

-- `?`
abbrev pub and_then : {A B : Type 0} → Result A → (A → Result B) → Result B
and_then (ok a) f = f a
and_then (err e) f = err e

-- The calls of `self.client`, `self.backend` and the runtime.
pub record Client (Store : Type 0) : Type 0 where
  pub header : ℕ → Result (Option Header)
  pub leaves : Result (List ℕ)
  pub best_hash : ℕ
  pub finalized_number : ℕ
  pub hash_at : ℕ → Result (Option ℕ)
  pub get_total_work : ℕ → Result ℕ
  pub get_max_reorg_depth : ℕ → Result ℕ
  pub get_aux : ℕ → Store → Result Bool
  pub insert_aux : ℕ → Store → Result Store
  pub finalize_block : ℕ → Store → Result Store
