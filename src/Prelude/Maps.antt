-- ===== src/Prelude/Maps.antt =====
-- Storage maps as functions: `Map V` for a map with an optional value, a plain function for one
-- with a default. Keys are numbers that stand for the encoded keys, which are only compared.
use Prim.Native.Nat.{ℕ, ◌+◌, ◌-◌, ◌≤◌}
use mathlib.Core.Path.{◌≡◌}
use mathlib.Core.Logic.{◌≢◌, inl, inr}
use mathlib.Core.Bool.{Bool, true, false}
use mathlib.Core.Option.{Option, none, some}
use native.Mathlib.Omega.{arith}
use chain_testing.Prelude.Tests.{◌==◌, if◌then◌else◌, Bool-cases, ==→eq, ==-self}

-- `StorageMap::insert` of a map with a default value.
abbrev pub update {ℓ} : {V : Type ℓ} → (ℕ → V) → ℕ → V → ℕ → V
update m k v j = if j == k then v else m j

abbrev pub Map {ℓ} : Type ℓ → Type ℓ
Map V = ℕ → Option V

abbrev pub is_some {ℓ} : {V : Type ℓ} → Option V → Bool
is_some none = false
is_some (some v) = true

abbrev pub empty_map {ℓ} : {V : Type ℓ} → Map V
empty_map k = none

-- What an account has of an amount of an owner.
abbrev pub share : ℕ → ℕ → ℕ → ℕ
share owner who n = if owner == who then n else 0

pub update_self {ℓ} : {V : Type ℓ} (m : ℕ → V) (k : ℕ) (v : V) → update m k v k ≡ v
update_self m k v = ground arith

pub update-ne {ℓ} : {V : Type ℓ} (m : ℕ → V) (k j : ℕ) (v : V) → j ≢ k → update m k v j ≡ m j
update-ne m k j v h = ground arith

==-swap : (a b : ℕ) → (a == b) ≡ false → (b == a) ≡ false
==-swap a b h = ground arith

-- A value that is raised or lowered at one key.
pub update-add : (m : ℕ → ℕ) (k n j : ℕ) → update m k (m k + n) j ≡ m j + share k j n
update-add m k n j = elim (Bool-cases (j == k)) [
  | inl same ↦ let e = ==→eq j k same in rw (e, ==-self k)
  | inr apart ↦ rw (apart, ==-swap j k apart) (omega arith)
]

pub update-sub : (m : ℕ → ℕ) (k n j : ℕ) → update m k (m k - n) j ≡ m j - share k j n
update-sub m k n j = elim (Bool-cases (j == k)) [
  | inl same ↦ let e = ==→eq j k same in rw (e, ==-self k)
  | inr apart ↦ rw (apart, ==-swap j k apart) (omega arith)
]

-- What is taken from a value that has enough is missing there.
pub update-share : (m : ℕ → ℕ) (k n j : ℕ) → n ≤ m k → update m k (m k - n) j + share k j n ≡ m j
update-share m k n j h = elim (Bool-cases (j == k)) [
  | inl same ↦ let e = ==→eq j k same in rw (e, ==-self k) (omega arith)
  | inr apart ↦ rw (apart, ==-swap j k apart) (omega arith)
]
