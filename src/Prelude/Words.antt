-- ===== src/Prelude/Words.antt =====
-- `u128` and `u64` arithmetic with its overflow checks, and little-endian bytes.
use Prim.Native.Nat.{ℕ, zero, suc, ◌+◌, ◌-◌, ◌*◌, ◌/◌, ◌%◌, ◌^◌}
use Prim.Native.Char.{code}
use Prim.Native.String.{String}
use Prim.Native.Nat.{◌≤◌, ◌<◌}
use mathlib.Core.Path.{◌≡◌, refl}
use native.Mathlib.Omega.{arith}
use native.Mathlib.Nat.{pow-suc}
use mathlib.Core.Option.{Option, none, some}
use mathlib.Core.List.{List, [], ◌∷◌, ◌++◌}
use logos_execution_zone.Prelude.Tests.{leb, if◌then◌else◌}

abbrev pub u128_max : ℕ
u128_max = 2 ^ 128 - 1

abbrev pub u64_max : ℕ
u64_max = 2 ^ 64 - 1

-- `a.checked_add(b)` on `u128`
abbrev pub checked_add : ℕ → ℕ → Option ℕ
checked_add a b = if leb (a + b) u128_max then some (a + b) else none

-- `a.checked_sub(b)`
abbrev pub checked_sub : ℕ → ℕ → Option ℕ
checked_sub a b = if leb b a then some (a - b) else none

-- `a.checked_mul(b)` on `u128`
abbrev pub checked_mul : ℕ → ℕ → Option ℕ
checked_mul a b = if leb (a * b) u128_max then some (a * b) else none

-- `a + b`, `a - b` and `a * b` on `u128` in a build without overflow checks
unfoldable pub wrapping_add : ℕ → ℕ → ℕ
wrapping_add a b = (a + b) % 2 ^ 128

unfoldable pub wrapping_sub : ℕ → ℕ → ℕ
wrapping_sub a b = (a + 2 ^ 128 - b) % 2 ^ 128

unfoldable pub wrapping_mul : ℕ → ℕ → ℕ
wrapping_mul a b = (a * b) % 2 ^ 128

pub wrapping_add_exact : (a b : ℕ) → a + b ≤ u128_max → wrapping_add a b ≡ a + b
unfolding wrapping_add
wrapping_add_exact a b h = omega arith

pub wrapping_sub_exact : (a b : ℕ) → b ≤ a → a ≤ u128_max → wrapping_sub a b ≡ a - b
unfolding wrapping_sub
wrapping_sub_exact a b h k = omega arith

pub wrapping_mul_exact : (a b : ℕ) → a * b ≤ u128_max → wrapping_mul a b ≡ a * b
unfolding wrapping_mul
wrapping_mul_exact a b h = omega arith

-- The lowest `w` bytes of `n`, least significant first.
unfoldable pub le_bytes : ℕ → ℕ → List ℕ
le_bytes zero n = []
le_bytes (suc w) n = (n % 256) ∷ le_bytes w (n / 256)

-- The bytes of an ASCII literal.
abbrev pub codes : String → List ℕ
codes String.[] = []
codes (String.◌∷◌ c s) = code c ∷ codes s

-- The number of little-endian bytes.
unfoldable pub number_of_bytes : List ℕ → ℕ
number_of_bytes [] = 0
number_of_bytes (byte ∷ bytes) = byte + 256 * number_of_bytes bytes

quotient_below : (w n : ℕ) → n < 256 ^ suc w → n / 256 < 256 ^ w
quotient_below w n h =
    let power : 256 ^ suc w ≡ 256 ^ w * 256 = pow-suc 256 w in omega (arith, power)

pub number_of_bytes-le_bytes : (w n : ℕ) → n < 256 ^ w → number_of_bytes (le_bytes w n) ≡ n
unfolding number_of_bytes le_bytes
number_of_bytes-le_bytes zero n h = omega arith
number_of_bytes-le_bytes (suc w) n h =
    omega (arith, number_of_bytes-le_bytes w (n / 256) (quotient_below w n h))

-- `read_exact` of `w` bytes: these and the rest, if there are so many.
unfoldable pub read_exact : ℕ → List ℕ → Option (List ℕ × List ℕ)
read_exact zero bytes = some ([], bytes)
read_exact (suc w) [] = none
read_exact (suc w) (byte ∷ bytes) = elim (read_exact w bytes) [
  | none ↦ none
  | some (taken, rest) ↦ some (byte ∷ taken, rest)
]

pub read_exact-le_bytes :
    (w n : ℕ) (rest : List ℕ) → read_exact w (le_bytes w n ++ rest) ≡ some (le_bytes w n, rest)
unfolding read_exact le_bytes
read_exact-le_bytes zero n rest = refl
read_exact-le_bytes (suc w) n rest = rw (read_exact-le_bytes w (n / 256) rest) refl
