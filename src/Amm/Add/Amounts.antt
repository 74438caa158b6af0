-- ===== src/Amm/Add/Amounts.antt =====
-- The amounts of a deposit and the liquidity tokens that are minted for them.
use logos_execution_zone.Prelude.{
  ℕ, ◌%◌, ◌^◌, ◌⊎◌, inl, inr, Bool-cases, subst, ltb, ◌+◌, ◌*◌, ◌/◌, ◌≤◌, ◌<◌, ◌≡◌, refl, ok, not,
  arith, >>=-eq-ok, assert, ◌>>◌, leb, ◌==◌, wrapping_mul, u128_max,
}
use logos_execution_zone.Amm.Core.{PoolDefinition, divide}
use logos_execution_zone.Amm.Arithmetic.{quotient_bounds}
use logos_execution_zone.Amm.Add.{limit, min, actual_amounts, payable_lp}
use native.Mathlib.Nat.{mul-le-mul_left}

wrapping_mul-le : (a b : ℕ) → wrapping_mul a b ≤ a * b
unfolding wrapping_mul
wrapping_mul-le a b = omega arith

-- A quotient of a product that may have wrapped around.
divide-le : (a b c : ℕ) {q : ℕ} → divide (wrapping_mul a b) c ≡ ok q → (q * c ≤ a * b) × (0 < c)
divide-le a b c {q} h =
    let positive : 0 < c = ground arith in
    let e : q ≡ wrapping_mul a b / c = ground arith in
    let below = wrapping_mul-le a b in
    let (low, high) = quotient_bounds (wrapping_mul a b) c positive in
    (rw e (omega arith), positive)

limit-le : (ideal most : ℕ) → (limit ideal most ≤ ideal) × (limit ideal most ≤ most)
limit-le ideal most = ground arith

min-le : (a b : ℕ) → (min a b ≤ a) × (min a b ≤ b)
min-le a b = ground arith

below : (a b c d : ℕ) → a ≤ b → b * c ≤ d → a * c ≤ d
below a b c d h k = grind arith

-- The lesser of two numbers.
abbrev pub IsLesser : (x y z : ℕ) → Type 0
IsLesser x y z = (z ≤ x) × (z ≤ y) × ((z ≡ x) ⊎ (z ≡ y))

limit-IsLesser : (ideal most : ℕ) → IsLesser ideal most (limit ideal most)
limit-IsLesser ideal most = elim (Bool-cases (ltb most ideal)) [
  | inl e ↦ rw e (ground arith, ground arith, inr refl)
  | inr e ↦ rw e (ground arith, ground arith, inl refl)
]

min-IsLesser : (a b : ℕ) → IsLesser a b (min a b)
min-IsLesser a b = elim (Bool-cases (leb a b)) [
  | inl e ↦ rw e (ground arith, ground arith, inl refl)
  | inr e ↦ rw e (ground arith, ground arith, inr refl)
]

-- The quotient of a product that wraps around in 128 bits.
divide_quotient : (a b c : ℕ) {q : ℕ} → divide (wrapping_mul a b) c ≡ ok q → q ≡ a * b % 2 ^ 128 / c
unfolding wrapping_mul
divide_quotient a b c h = ground arith

-- The amounts respect the limits of the user and the ratio of the reserves.
abbrev pub AreActual : PoolDefinition → (max_a max_b : ℕ) → (ℕ × ℕ) → Type 0
AreActual p max_a max_b amounts =
    (amounts.0 ≤ max_a)
    × (amounts.1 ≤ max_b)
    × (0 < amounts.0)
    × (0 < amounts.1)
    × (amounts.0 * p.reserve_b ≤ p.reserve_a * max_b)
    × (amounts.1 * p.reserve_a ≤ p.reserve_b * max_a)

actual_of_ideal :
    (p : PoolDefinition) (max_a max_b ideal_a ideal_b : ℕ) {amounts : ℕ × ℕ}
    → (assert {E = ⊥}
          (leb (limit ideal_a max_a) max_a)
          "Actual trade amounts cannot exceed max_amounts"
        >> assert (leb (limit ideal_b max_b) max_b) "Actual trade amounts cannot exceed max_amounts"
        >> assert (not (limit ideal_a max_a == 0)) "A trade amount is 0"
        >> assert (not (limit ideal_b max_b == 0)) "A trade amount is 0"
        >> ok (limit ideal_a max_a, limit ideal_b max_b))
      ≡ ok amounts
    → ideal_a * p.reserve_b ≤ p.reserve_a * max_b
    → ideal_b * p.reserve_a ≤ p.reserve_b * max_a
    → AreActual p max_a max_b amounts
actual_of_ideal p max_a max_b ideal_a ideal_b {amounts} h pa pb =
    let e : amounts.0 ≡ limit ideal_a max_a = ground arith in
    let f : amounts.1 ≡ limit ideal_b max_b = ground arith in
    let some_a : 0 < amounts.0 = ground arith in
    let some_b : 0 < amounts.1 = ground arith in
    let (la, ma) = limit-le ideal_a max_a in
    let (lb, mb) = limit-le ideal_b max_b in
    (
      rw e ma,
      rw f mb,
      some_a,
      some_b,
      below amounts.0 ideal_a p.reserve_b _ (rw e la) pa,
      below amounts.1 ideal_b p.reserve_a _ (rw f lb) pb,
    )

pub actual_amounts-AreActual :
    (p : PoolDefinition) (max_a max_b : ℕ) {amounts : ℕ × ℕ}
    → actual_amounts p max_a max_b ≡ ok amounts
    → AreActual p max_a max_b amounts
unfolding actual_amounts
actual_amounts-AreActual p max_a max_b {amounts} h =
    let (ideal_a, ra, h5) = >>=-eq-ok (divide (wrapping_mul p.reserve_a max_b) p.reserve_b) _ h in
    let (ideal_b, rb, h6) = >>=-eq-ok (divide (wrapping_mul p.reserve_b max_a) p.reserve_a) _ h5 in
    let pa = (divide-le p.reserve_a max_b p.reserve_b ra).0 in
    let pb = (divide-le p.reserve_b max_a p.reserve_a rb).0 in
    actual_of_ideal p max_a max_b ideal_a ideal_b h6 pa pb

-- Each amount is the lesser of its limit and of what the ratio of the reserves gives for the limit of
-- the other.
abbrev pub AreExact : PoolDefinition → (max_a max_b : ℕ) → (ℕ × ℕ) → Type 0
AreExact p max_a max_b amounts =
    IsLesser (p.reserve_a * max_b % 2 ^ 128 / p.reserve_b) max_a amounts.0
    × IsLesser (p.reserve_b * max_a % 2 ^ 128 / p.reserve_a) max_b amounts.1

-- The minted tokens are the lesser of the shares in the two reserves.
abbrev pub IsMinted : PoolDefinition → (a b delta_lp : ℕ) → Type 0
IsMinted p a b delta_lp =
    IsLesser (p.liquidity_pool_supply * a % 2 ^ 128 / p.reserve_a)
      (p.liquidity_pool_supply * b % 2 ^ 128 / p.reserve_b) delta_lp

pub actual_amounts_exact :
    (p : PoolDefinition) (max_a max_b : ℕ) {amounts : ℕ × ℕ}
    → actual_amounts p max_a max_b ≡ ok amounts
    → AreExact p max_a max_b amounts
unfolding actual_amounts
actual_amounts_exact p max_a max_b {amounts} h =
    let (ideal_a, ra, h5) = >>=-eq-ok (divide (wrapping_mul p.reserve_a max_b) p.reserve_b) _ h in
    let (ideal_b, rb, h6) = >>=-eq-ok (divide (wrapping_mul p.reserve_b max_a) p.reserve_a) _ h5 in
    let e : amounts.0 ≡ limit ideal_a max_a = ground arith in
    let f : amounts.1 ≡ limit ideal_b max_b = ground arith in
    (
      subst (λ x. IsLesser x max_a amounts.0) (divide_quotient p.reserve_a max_b p.reserve_b ra)
          (rw e (limit-IsLesser ideal_a max_a)),
      subst (λ x. IsLesser x max_b amounts.1) (divide_quotient p.reserve_b max_a p.reserve_a rb)
          (rw f (limit-IsLesser ideal_b max_b)),
    )

pub payable_lp_exact :
    (p : PoolDefinition) (a b min_lp : ℕ) {delta_lp : ℕ}
    → payable_lp p a b min_lp ≡ ok delta_lp
    → IsMinted p a b delta_lp
unfolding payable_lp
payable_lp_exact p a b min_lp {delta_lp} h =
    let (share_a, sa, h11) =
      >>=-eq-ok (divide (wrapping_mul p.liquidity_pool_supply a) p.reserve_a) _ h in
    let (share_b, sb, h12) =
      >>=-eq-ok (divide (wrapping_mul p.liquidity_pool_supply b) p.reserve_b) _ h11 in
    let e : delta_lp ≡ min share_a share_b = ground arith in
    subst (λ y. IsLesser (p.liquidity_pool_supply * a % 2 ^ 128 / p.reserve_a) y delta_lp)
      (divide_quotient p.liquidity_pool_supply b p.reserve_b sb)
      (subst (λ x. IsLesser x share_b delta_lp)
        (divide_quotient p.liquidity_pool_supply a p.reserve_a sa)
        (rw e (min-IsLesser share_a share_b)))

payable_of_shares :
    (p : PoolDefinition) (a b min_lp share_a share_b : ℕ) {delta_lp : ℕ}
    → (assert {E = ⊥} (not (min share_a share_b == 0)) "Payable LP must be nonzero"
        >> assert
            (leb min_lp (min share_a share_b))
            "Payable LP is less than provided minimum LP amount"
        >> ok (min share_a share_b))
      ≡ ok delta_lp
    → share_a * p.reserve_a ≤ p.liquidity_pool_supply * a
    → share_b * p.reserve_b ≤ p.liquidity_pool_supply * b
    → (0 < delta_lp)
      × (min_lp ≤ delta_lp)
      × (delta_lp * p.reserve_a ≤ p.liquidity_pool_supply * a)
      × (delta_lp * p.reserve_b ≤ p.liquidity_pool_supply * b)
payable_of_shares p a b min_lp share_a share_b {delta_lp} h pa pb =
    let e : delta_lp ≡ min share_a share_b = ground arith in
    let nonzero : 0 < delta_lp = ground arith in
    let enough : min_lp ≤ delta_lp = ground arith in
    let (xa, xb) = min-le share_a share_b in
    (
      nonzero,
      enough,
      below delta_lp share_a p.reserve_a _ (rw e xa) pa,
      below delta_lp share_b p.reserve_b _ (rw e xb) pb,
    )

-- The minted tokens are some, enough, and at most the share of either reserve.
abbrev pub IsPayable : PoolDefinition → (a b min_lp delta_lp : ℕ) → Type 0
IsPayable p a b min_lp delta_lp =
    (0 < delta_lp)
    × (min_lp ≤ delta_lp)
    × (delta_lp * p.reserve_a ≤ p.liquidity_pool_supply * a)
    × (delta_lp * p.reserve_b ≤ p.liquidity_pool_supply * b)

pub payable_lp-IsPayable :
    (p : PoolDefinition) (a b min_lp : ℕ) {delta_lp : ℕ}
    → payable_lp p a b min_lp ≡ ok delta_lp
    → IsPayable p a b min_lp delta_lp
unfolding payable_lp
payable_lp-IsPayable p a b min_lp {delta_lp} h =
    let (share_a, sa, h11) =
      >>=-eq-ok (divide (wrapping_mul p.liquidity_pool_supply a) p.reserve_a) _ h in
    let (share_b, sb, h12) =
      >>=-eq-ok (divide (wrapping_mul p.liquidity_pool_supply b) p.reserve_b) _ h11 in
    let pa = (divide-le p.liquidity_pool_supply a p.reserve_a sa).0 in
    let pb = (divide-le p.liquidity_pool_supply b p.reserve_b sb).0 in
    payable_of_shares p a b min_lp share_a share_b h12 pa pb

pub room_for :
    (supply minted most : ℕ) → minted ≤ most → supply + most ≤ u128_max → supply + minted ≤ u128_max
room_for supply minted most h k = omega arith

-- The minted tokens are at most the supply for each unit of a token.
pub lp_bound :
    (p : PoolDefinition) (amounts : ℕ × ℕ) (max_a max_b min_lp delta_lp : ℕ)
    → AreActual p max_a max_b amounts
    → IsPayable p amounts.0 amounts.1 min_lp delta_lp
    → 0 < p.reserve_a
    → delta_lp ≤ p.liquidity_pool_supply * max_a
lp_bound p amounts max_a max_b min_lp delta_lp actual payable positive =
    let least : delta_lp * 1 ≤ delta_lp * p.reserve_a = mul-le-mul_left delta_lp positive in
    let most = mul-le-mul_left p.liquidity_pool_supply (actual.0) in omega (arith, payable.2)
