-- ===== src/Prelude/Bytes.antt =====
-- Byte arrays: the big-endian bytes of a number, and the number that bytes spell.
use Prim.Native.Nat.{ℕ, zero, suc, ◌+◌, ◌*◌, ◌/◌, ◌%◌, ◌^◌, ◌<◌}
use mathlib.Core.Path.{◌≡◌, refl, ◌∙◌}
use mathlib.Core.List.{List, [], ◌∷◌, ◌++◌}
use native.Mathlib.Omega.{arith}
use chain_testing.Prelude.Lists.{length, length-append}

-- The last bytes of a number, as many as the first argument says.
abbrev pub big_bytes : ℕ → ℕ → List ℕ
big_bytes zero n = []
big_bytes (suc k) n = big_bytes k (n / 256) ++ (n % 256 ∷ [])

abbrev pub from_bytes : ℕ → List ℕ → ℕ
from_bytes acc [] = acc
from_bytes acc (b ∷ bytes) = from_bytes (acc * 256 + b) bytes

-- `U512::from_big_endian`.
abbrev pub from_big_endian : List ℕ → ℕ
from_big_endian bytes = from_bytes 0 bytes

pub length-big_bytes : (k n : ℕ) → length (big_bytes k n) ≡ k
length-big_bytes zero n = refl
length-big_bytes (suc k) n =
    let rest = length-big_bytes k (n / 256) in
    length-append (big_bytes k (n / 256)) (n % 256 ∷ []) ∙ omega arith

from_bytes-append :
    (acc b : ℕ) (bytes : List ℕ)
    → from_bytes acc (bytes ++ (b ∷ [])) ≡ from_bytes acc bytes * 256 + b
from_bytes-append acc b [] = refl
from_bytes-append acc b (x ∷ bytes) = from_bytes-append (acc * 256 + x) b bytes

-- A number that loses its last byte loses one place.
pub div_lt : (k n : ℕ) → n < 256 ^ suc k → n / 256 < 256 ^ k
div_lt k n h = let e : 256 ^ suc k ≡ 256 ^ k * 256 = grind arith in omega arith

-- A number is spelled by its bytes, if there are enough of them.
pub from_big_endian-big_bytes : (k n : ℕ) → n < 256 ^ k → from_big_endian (big_bytes k n) ≡ n
from_big_endian-big_bytes zero n h = omega arith
from_big_endian-big_bytes (suc k) n h =
    let rest = from_big_endian-big_bytes k (n / 256) (div_lt k n h) in
    from_bytes-append 0 (n % 256) (big_bytes k (n / 256)) ∙ omega arith
