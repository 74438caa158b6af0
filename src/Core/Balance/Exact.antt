-- ===== src/Core/Balance/Exact.antt =====
-- The two-word sum against the sum of the balances as natural numbers.
use logos_execution_zone.Prelude.{
  ltb, Option-cases, ℕ, ◌+◌, ◌*◌, ◌%◌, ◌/◌, ◌^◌, ◌≤◌, ◌<◌, ◌≡◌, refl, true, none, some,
  and_then-eq-some, and_then-some, ◌∙◌, ◌↔◌, inl, inr, List, [], ◌∷◌, u128_max, arith, All,
  if◌then◌else◌,
}
use logos_execution_zone.Core.Balance.{
  WrappedBalanceSum, add_balance, add_balances, from_balances, wrapped_eq,
}

abbrev pub sum : List ℕ → ℕ
sum [] = 0
sum (x ∷ xs) = x + sum xs

abbrev pub value : WrappedBalanceSum → ℕ
value w = w.lo + w.hi * 2 ^ 128

-- Both words are `u128`.
abbrev pub IsWords : WrappedBalanceSum → Type 0
IsWords w = (w.lo ≤ u128_max) × (w.hi ≤ u128_max)

abbrev AreBalances : List ℕ → Type 0
AreBalances = All (λ b. b ≤ u128_max)

add_balance_step :
    (w : WrappedBalanceSum) (b : ℕ) {w' : WrappedBalanceSum}
    → IsWords w
    → b ≤ u128_max
    → add_balance w b ≡ some w'
    → IsWords w' × (value w' ≡ value w + b)
unfolding add_balance
add_balance_step w b hw hb h = ground arith

add_balance_fits :
    (w : WrappedBalanceSum) (b : ℕ)
    → IsWords w
    → b ≤ u128_max
    → value w + b < 2 ^ 256
    → (w' : WrappedBalanceSum) × (add_balance w b ≡ some w')
unfolding add_balance
add_balance_fits w b hw hb h =
    (record { lo = (w.lo + b) % 2 ^ 128; hi = w.hi + (w.lo + b) / 2 ^ 128 }, ground arith)

add_balances-sum :
    (w : WrappedBalanceSum) (bs : List ℕ) {w' : WrappedBalanceSum}
    → IsWords w
    → AreBalances bs
    → add_balances w bs ≡ some w'
    → IsWords w' × (value w' ≡ value w + sum bs)
unfolding add_balances
add_balances-sum w [] hw hbs h = ground arith
add_balances-sum w (b ∷ bs) hw hbs h =
    let (w1, e, h1) = and_then-eq-some (add_balance w b) (λ w1. add_balances w1 bs) h in
    let step = add_balance_step w b hw hbs.0 e in
    let rest = add_balances-sum w1 bs step.0 hbs.1 h1 in (rest.0, omega (arith, step.1, rest.1))

add_balances_fit :
    (w : WrappedBalanceSum) (bs : List ℕ)
    → IsWords w
    → AreBalances bs
    → value w + sum bs < 2 ^ 256
    → (w' : WrappedBalanceSum) × (add_balances w bs ≡ some w')
unfolding add_balances
add_balances_fit w [] hw hbs h = (w, refl)
add_balances_fit w (b ∷ bs) hw hbs h =
    let (w1, e) = add_balance_fits w b hw hbs.0 (omega arith) in
    let step = add_balance_step w b hw hbs.0 e in
    let rest = add_balances_fit w1 bs step.0 hbs.1 (omega (arith, step.1)) in
    (rest.0, and_then-some (λ w1. add_balances w1 bs) e ∙ rest.1)

abbrev start : WrappedBalanceSum
start = record { lo = 0; hi = 0 }

pub from_balances-sum :
    (bs : List ℕ) {w : WrappedBalanceSum}
    → AreBalances bs
    → from_balances bs ≡ some w
    → IsWords w × (value w ≡ sum bs)
unfolding from_balances
from_balances-sum bs hbs h =
    let total = add_balances-sum start bs (omega arith) hbs h in (total.0, omega (arith, total.1))

from_balances-fits :
    (bs : List ℕ)
    → AreBalances bs
    → sum bs < 2 ^ 256
    → (w : WrappedBalanceSum) × (from_balances bs ≡ some w)
unfolding from_balances
from_balances-fits bs hbs h = add_balances_fit start bs (omega arith) hbs (omega arith)

-- Of `u128` balances the sum is found exactly if it is below 2^256, and then the two words are
-- its remainder and its quotient by 2^128.
pub from_balances_exact :
    (bs : List ℕ)
    → All (λ b. b ≤ u128_max) bs
    → from_balances bs ≡ (
        if ltb (sum bs) (2 ^ 256)
        then some (record { lo = sum bs % 2 ^ 128; hi = sum bs / 2 ^ 128 })
        else none)
from_balances_exact bs hbs = elim (Option-cases (from_balances bs)) [
  | inl overflow ↦ ground (arith, λ (h : sum bs < 2 ^ 256). from_balances-fits bs hbs h)
  | inr (w, e) ↦ rw e (ground (arith, from_balances-sum bs hbs e))
]

-- Two lists of `u128` balances whose sums are found have the same two words exactly if they have
-- the same sum.
pub wrapped_eq-sum :
    (xs ys : List ℕ) {v w : WrappedBalanceSum}
    → AreBalances xs
    → AreBalances ys
    → from_balances xs ≡ some v
    → from_balances ys ≡ some w
    → (wrapped_eq v w ≡ true) ↔ (sum xs ≡ sum ys)
wrapped_eq-sum xs ys has hbs ev ew =
    let l = from_balances-sum xs has ev in
    let r = from_balances-sum ys hbs ew in (λ h. ground arith, λ h. ground arith)
