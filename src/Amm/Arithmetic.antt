-- ===== src/Amm/Arithmetic.antt =====
-- The arithmetic of a constant product, with division rounded down for what a pool pays and up for
-- what it takes.
use logos_execution_zone.Prelude.{
  ℕ, subst, sym, ◌≤◌, ◌<◌, ◌≡◌, ◌+◌, ◌-◌, ◌*◌, ◌/◌, ◌%◌, ◌==◌, if◌then◌else◌, arith,
}
use native.Mathlib.Nat.{mul-le-mul_right}

-- The quotient of `a.div_ceil(b)`
abbrev pub rounded_up : ℕ → ℕ → ℕ
rounded_up a b = if a % b == 0 then a / b else a / b + 1

module _ (a b : ℕ) (h : 0 < b) where
  -- The quotient times the divisor stays below the dividend, and the next multiple exceeds it.
  pub quotient_bounds : ((a / b) * b ≤ a) × (a < (a / b) * b + b)
  quotient_bounds = grind arith

  pub rounded_up_bounds : (a ≤ rounded_up a b * b) × (rounded_up a b * b < a + b)
  rounded_up_bounds = grind (arith, quotient_bounds)

pub product_grows :
    (deposit_reserve left deposit withdraw : ℕ)
    → deposit_reserve * withdraw ≤ deposit * left
    → deposit_reserve * (withdraw + left) ≤ (deposit_reserve + deposit) * left
product_grows ri d x w h = grind arith

-- A deposit that covers the share of a payout never lowers the product.
pub deposit_keeps_product :
    (deposit_reserve withdraw_reserve deposit withdraw : ℕ)
    → withdraw ≤ withdraw_reserve
    → deposit_reserve * withdraw ≤ deposit * (withdraw_reserve - withdraw)
    → deposit_reserve * withdraw_reserve
      ≤ (deposit_reserve + deposit) * (withdraw_reserve - withdraw)
deposit_keeps_product ri ro x w h k =
    let whole : ro ≡ w + (ro - w) = omega arith in
    let grown = product_grows ri (ro - w) x w k in
    subst (λ r. ri * r ≤ (ri + x) * (ro - w)) (sym whole) grown

share_covered :
    (deposit_reserve left deposit withdraw : ℕ)
    → withdraw * (deposit_reserve + deposit) ≤ (withdraw + left) * deposit
    → deposit_reserve * withdraw ≤ deposit * left
share_covered ri d x w h = grind arith

-- What a pool pays for a deposit never exceeds its reserve and never lowers the product.
pub payout_keeps_product :
    (deposit_reserve withdraw_reserve deposit withdraw : ℕ)
    → 0 < deposit_reserve + deposit
    → withdraw * (deposit_reserve + deposit) ≤ withdraw_reserve * deposit
    → (withdraw ≤ withdraw_reserve)
      × (deposit_reserve * withdraw_reserve
          ≤ (deposit_reserve + deposit) * (withdraw_reserve - withdraw))
payout_keeps_product ri ro x w h k =
    let small : w ≤ ro = grind arith in
    let whole : ro ≡ w + (ro - w) = omega arith in
    let share = subst (λ r. w * (ri + x) ≤ r * x) whole k in
    (small, deposit_keeps_product ri ro x w small (share_covered ri (ro - w) x w share))

least_share :
    (deposit_reserve left deposit withdraw less : ℕ)
    → deposit * left < deposit_reserve * withdraw + left
    → (less + 1) * left ≤ deposit * left
    → (deposit_reserve + less) * left < deposit_reserve * (withdraw + left)
least_share ri d x w less h k = grind arith

-- A deposit below the one that is asked for would lower the product.
pub smaller_deposit_fails :
    (deposit_reserve withdraw_reserve deposit withdraw less : ℕ)
    → withdraw < withdraw_reserve
    → deposit * (withdraw_reserve - withdraw)
      < deposit_reserve * withdraw + (withdraw_reserve - withdraw)
    → less < deposit
    → (deposit_reserve + less) * (withdraw_reserve - withdraw) < deposit_reserve * withdraw_reserve
smaller_deposit_fails ri ro x w less h k l =
    let whole : ro ≡ w + (ro - w) = omega arith in
    let share : (less + 1) * (ro - w) ≤ x * (ro - w) = mul-le-mul_right (ro - w) (omega arith) in
    subst (λ r. (ri + less) * (ro - w) < ri * r) (sym whole)
      (least_share ri (ro - w) x w less k share)

rest_share :
    (paid left burned rest : ℕ)
    → paid * (burned + rest) ≤ (paid + left) * burned
    → (paid + left) * rest ≤ left * (burned + rest)
rest_share w v x t h = grind arith

-- A share paid out of a reserve is within it and leaves the rest of the reserve to the others.
pub share_leaves_rest :
    (reserve supply burned paid : ℕ)
    → burned ≤ supply
    → 0 < supply
    → paid * supply ≤ reserve * burned
    → (paid ≤ reserve) × (reserve * (supply - burned) ≤ (reserve - paid) * supply)
share_leaves_rest r s x w h p k =
    let small : w ≤ r = grind arith in
    let whole : s ≡ x + (s - x) = omega arith in
    let rest : r ≡ w + (r - w) = omega arith in
    let k1 = subst (λ t. w * t ≤ r * x) whole k in
    let k2 = subst (λ t. w * (x + (s - x)) ≤ t * x) rest k1 in
    let kept = rest_share w (r - w) x (s - x) k2 in
    let kept1 = subst (λ t. t * (s - x) ≤ (r - w) * (x + (s - x))) (sym rest) kept in
    (small, subst (λ t. r * (s - x) ≤ (r - w) * t) (sym whole) kept1)

-- A quotient of a product by one of its factors
pub quotient_exact : (a b : ℕ) → 0 < a → a * b / a ≡ b
quotient_exact a b h = let bounds = quotient_bounds (a * b) a h in grind arith
