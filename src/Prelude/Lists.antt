-- ===== src/Prelude/Lists.antt =====
-- Lists measured by native numbers, lists as sets of identifiers, and pairwise predicates.
use Prim.Native.Nat.{ℕ, zero, suc, ◌+◌, ◌≤◌}
use mathlib.Core.Path.{◌≡◌, refl, ap}
use mathlib.Core.Bool.{Bool, true, false, ◌&&◌, ◌||◌}
use mathlib.Core.List.{List, [], ◌∷◌, ◌++◌, map}
use mathlib.Core.Option.{Option, none, some}
use native.Mathlib.Omega.{arith}
use logos_execution_zone.Prelude.Tests.{◌==◌, if◌then◌else◌}

module _ {ℓ} {A : Type ℓ} where
  abbrev pub length : List A → ℕ
  length [] = 0
  length (x ∷ xs) = suc (length xs)

  abbrev pub get_elem? : List A → ℕ → Option A
  get_elem? [] i = none
  get_elem? (x ∷ xs) zero = some x
  get_elem? (x ∷ xs) (suc i) = get_elem? xs i

  abbrev pub set : List A → ℕ → A → List A
  set [] i v = []
  set (x ∷ xs) zero v = v ∷ xs
  set (x ∷ xs) (suc i) v = x ∷ set xs i v

  abbrev pub take : ℕ → List A → List A
  take zero xs = []
  take (suc n) [] = []
  take (suc n) (x ∷ xs) = x ∷ take n xs

  abbrev pub drop : ℕ → List A → List A
  drop zero xs = xs
  drop (suc n) [] = []
  drop (suc n) (x ∷ xs) = drop n xs

  abbrev pub replicate : ℕ → A → List A
  replicate zero a = []
  replicate (suc n) a = a ∷ replicate n a

  abbrev pub filter : (A → Bool) → List A → List A
  filter p [] = []
  filter p (x ∷ xs) = if p x then x ∷ filter p xs else filter p xs

  abbrev pub all : (A → Bool) → List A → Bool
  all p [] = true
  all p (x ∷ xs) = p x && all p xs

  abbrev pub All {κ} : (A → Type κ) → List A → Type κ
  All P [] = Unit
  All P (x ∷ xs) = P x × All P xs

  pub length-append : (xs ys : List A) → length (xs ++ ys) ≡ length xs + length ys
  length-append [] ys = omega arith
  length-append (x ∷ xs) ys = omega (arith, length-append xs ys)

module _ {ℓ κ} {A : Type ℓ} {B : Type κ} where
  -- The pairs of two lists of the same length all satisfy `P`.
  abbrev pub AllPairs : (A → B → Type 0) → List A → List B → Type 0
  AllPairs P [] [] = Unit
  AllPairs P [] (y ∷ ys) = ⊥
  AllPairs P (x ∷ xs) [] = ⊥
  AllPairs P (x ∷ xs) (y ∷ ys) = P x y × AllPairs P xs ys

  pub length-map : (xs : List A) (f : A → B) → length (map f xs) ≡ length xs
  length-map [] f = refl
  length-map (x ∷ xs) f = ap suc (length-map xs f)

-- A list of identifiers as a set.
abbrev pub contains : List ℕ → ℕ → Bool
contains [] a = false
contains (x ∷ xs) a = (x == a) || contains xs a

-- `iter().collect::<HashSet<_>>().len()`: the number of distinct members.
abbrev pub n_unique : List ℕ → ℕ
n_unique [] = 0
n_unique (x ∷ xs) = if contains xs x then n_unique xs else suc (n_unique xs)

abbrev pub IsUnique : List ℕ → Type 0
IsUnique [] = Unit
IsUnique (x ∷ xs) = (contains xs x ≡ false) × IsUnique xs

pub n_unique-le-length : (xs : List ℕ) → n_unique xs ≤ length xs
n_unique-le-length [] = omega arith
n_unique-le-length (x ∷ xs) = ground (arith, n_unique-le-length xs)

pub IsUnique-of_count : (xs : List ℕ) → n_unique xs ≡ length xs → IsUnique xs
IsUnique-of_count [] h = tt
IsUnique-of_count (x ∷ xs) h = ground (arith, n_unique-le-length xs, IsUnique-of_count xs)

pub count_of_IsUnique : (xs : List ℕ) → IsUnique xs → n_unique xs ≡ length xs
count_of_IsUnique [] h = refl
count_of_IsUnique (x ∷ xs) h = ground (arith, count_of_IsUnique xs h.1)
