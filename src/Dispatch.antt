-- ===== src/Dispatch.antt =====
-- Calls of a FRAME pallet: their origin, their result, and the early returns of their bodies.
-- A call that ends in an error leaves no change, as the frame rolls it back, and a panic aborts the
-- whole block.
use chain_testing.Prelude.{
  ℕ, ◌≡◌, ◌≢◌, refl, Option, none, some, Bool, true, false, not, if◌then◌else◌,
}

-- Who sends a call: an account, nobody (an unsigned call), or the root.
pub data Origin : Type 0 where
  signed : ℕ → Origin
  unsigned root_origin : Origin

-- An error of the frame's check of the origin, of another pallet, or of the pallet itself.
pub data DispatchError (E : Type 0) : Type 0 where
  bad_origin frame_error : DispatchError E
  pallet_error : E → DispatchError E

pub data DispatchResult (E A : Type 0) : Type 0 where
  done : A → DispatchResult E A
  refused : DispatchError E → DispatchResult E A
  panicked : DispatchResult E A

module _ {E A : Type 0} where
  -- `ensure!`.
  abbrev pub ensure : Bool → E → DispatchResult E A → DispatchResult E A
  ensure b e rest = if b then rest else refused (pallet_error e)

  abbrev pub ensure_signed : Origin → (ℕ → DispatchResult E A) → DispatchResult E A
  ensure_signed (signed who) rest = rest who
  ensure_signed unsigned rest = refused bad_origin
  ensure_signed root_origin rest = refused bad_origin

  abbrev pub ensure_none : Origin → DispatchResult E A → DispatchResult E A
  ensure_none (signed who) rest = refused bad_origin
  ensure_none unsigned rest = rest
  ensure_none root_origin rest = refused bad_origin

  pub done_eq : {a b : A} → Path (DispatchResult E A) (done a) (done b) → a ≡ b
  done_eq e = cc

  pub ensure_inv :
      (b : Bool) (e : E) (rest : DispatchResult E A) {a : A}
      → ensure b e rest ≡ done a
      → (b ≡ true) × (rest ≡ done a)
  ensure_inv true e rest h = (refl, h)
  ensure_inv false e rest h = absurd cc

  pub ensure_signed_inv :
      (origin : Origin) (rest : ℕ → DispatchResult E A) {a : A}
      → ensure_signed origin rest ≡ done a
      → (who : ℕ) × (origin ≡ signed who) × (rest who ≡ done a)
  ensure_signed_inv (signed who) rest h = (who, refl, h)
  ensure_signed_inv unsigned rest h = absurd cc
  ensure_signed_inv root_origin rest h = absurd cc

  pub ensure_none_inv :
      (origin : Origin) (rest : DispatchResult E A) {a : A}
      → ensure_none origin rest ≡ done a
      → (origin ≡ unsigned) × (rest ≡ done a)
  ensure_none_inv (signed who) rest h = absurd cc
  ensure_none_inv unsigned rest h = (refl, h)
  ensure_none_inv root_origin rest h = absurd cc

module _ {E A B : Type 0} where
  -- `ok_or` with `?`.
  abbrev pub or_fail : Option A → E → (A → DispatchResult E B) → DispatchResult E B
  or_fail none e rest = refused (pallet_error e)
  or_fail (some a) e rest = rest a

  -- `?` on a call of another pallet, where `none` is its error.
  abbrev pub or_refuse : Option A → (A → DispatchResult E B) → DispatchResult E B
  or_refuse none rest = refused frame_error
  or_refuse (some a) rest = rest a

  -- Code that panics at `none`: an index, an `unwrap`.
  abbrev pub or_panic : Option A → (A → DispatchResult E B) → DispatchResult E B
  or_panic none rest = panicked
  or_panic (some a) rest = rest a

  -- `?` on a function of the pallet.
  abbrev pub try : DispatchResult E A → (A → DispatchResult E B) → DispatchResult E B
  try (done a) rest = rest a
  try (refused e) rest = refused e
  try panicked rest = panicked

  pub try_inv :
      (r : DispatchResult E A) (rest : A → DispatchResult E B) {b : B}
      → try r rest ≡ done b
      → (a : A) × (r ≡ done a) × (rest a ≡ done b)
  try_inv (done a) rest h = (a, refl, h)
  try_inv (refused e) rest h = absurd cc
  try_inv panicked rest h = absurd cc

  pub or_panic_inv :
      (o : Option A) (rest : A → DispatchResult E B) {b : B}
      → or_panic o rest ≡ done b
      → (a : A) × (o ≡ some a) × (rest a ≡ done b)
  or_panic_inv none rest h = absurd cc
  or_panic_inv (some a) rest h = (a, refl, h)

  pub or_fail_inv :
      (o : Option A) (e : E) (rest : A → DispatchResult E B) {b : B}
      → or_fail o e rest ≡ done b
      → (a : A) × (o ≡ some a) × (rest a ≡ done b)
  or_fail_inv none e rest h = absurd cc
  or_fail_inv (some a) e rest h = (a, refl, h)

  pub or_refuse_inv :
      (o : Option A) (rest : A → DispatchResult E B) {b : B}
      → or_refuse o rest ≡ done b
      → (a : A) × (o ≡ some a) × (rest a ≡ done b)
  or_refuse_inv none rest h = absurd cc
  or_refuse_inv (some a) rest h = (a, refl, h)

pub not_inv : (b : Bool) → not b ≡ true → b ≡ false
not_inv true h = absurd cc
not_inv false h = refl

-- Code that does not panic.
abbrev pub Returns : {E A : Type 0} → DispatchResult E A → Type 0
Returns r = r ≢ panicked

module _ {E A : Type 0} where
  pub done-Returns : (a : A) → Path (DispatchResult E A) (done a) panicked → ⊥
  done-Returns a e = cc

  pub ensure-Returns :
      (b : Bool) (error : E) (rest : DispatchResult E A)
      → Returns rest
      → Returns (ensure b error rest)
  ensure-Returns true error rest h = h
  ensure-Returns false error rest h = λ e. cc

  pub ensure_signed-Returns :
      (origin : Origin) (rest : ℕ → DispatchResult E A)
      → ((who : ℕ) → Returns (rest who))
      → Returns (ensure_signed origin rest)
  ensure_signed-Returns (signed who) rest h = h who
  ensure_signed-Returns unsigned rest h = λ e. cc
  ensure_signed-Returns root_origin rest h = λ e. cc

module _ {E A B : Type 0} where
  pub or_fail-Returns :
      (o : Option A) (error : E) (rest : A → DispatchResult E B)
      → ((a : A) → Returns (rest a))
      → Returns (or_fail o error rest)
  or_fail-Returns none error rest h = λ e. cc
  or_fail-Returns (some a) error rest h = h a

  pub or_refuse-Returns :
      (o : Option A) (rest : A → DispatchResult E B)
      → ((a : A) → Returns (rest a))
      → Returns (or_refuse o rest)
  or_refuse-Returns none rest h = λ e. cc
  or_refuse-Returns (some a) rest h = h a

  pub try-Returns :
      (r : DispatchResult E A) (rest : A → DispatchResult E B)
      → Returns r
      → ((a : A) → Returns (rest a))
      → Returns (try r rest)
  try-Returns (done a) rest returns h = h a
  try-Returns (refused error) rest returns h = λ e. cc
  try-Returns panicked rest returns h = λ e. returns refl
