-- ===== src/Amm/New/Root.antt =====
-- The square root of the initial supply.
use logos_execution_zone.Prelude.{
  ℕ, zero, suc, ◌+◌, ◌*◌, ◌^◌, ◌≤◌, ◌<◌, ◌≡◌, u128_max, subst, inl, inr, Bool-cases, leb, leb→le,
  arith,
}
use logos_execution_zone.Amm.New.{root_from, isqrt}
use native.Mathlib.Nat.{two-pow-succ}

-- `root` is the floor of the root but for its `k` lowest bits.
abbrev Approximates : ℕ → ℕ → ℕ → Type 0
Approximates k root n = (root * root ≤ n) × (n < (root + 2 ^ k) * (root + 2 ^ k))

root_from-Approximates :
    (k root n : ℕ) → Approximates k root n → Approximates 0 (root_from k root n) n
unfolding root_from
root_from-Approximates zero root n h = h
root_from-Approximates (suc k) root n h =
    let wider : root + 2 ^ suc k ≡ root + 2 ^ k + 2 ^ k = omega (arith, two-pow-succ k) in
    let next = subst (λ t. n < t * t) wider h.1 in
    elim (Bool-cases (leb ((root + 2 ^ k) * (root + 2 ^ k)) n)) [
      | inl e ↦ rw e (root_from-Approximates k (root + 2 ^ k) n (leb→le _ n e, next))
      | inr e ↦ rw e (root_from-Approximates k root n (h.0, ground arith))
    ]

-- On `u128` the root is the floor of the square root.
pub isqrt_floor :
    (n : ℕ) → n ≤ u128_max → (isqrt n * isqrt n ≤ n) × (n < (isqrt n + 1) * (isqrt n + 1))
unfolding isqrt
isqrt_floor n h =
    let start : Approximates 64 0 n = (omega arith, omega arith) in
    root_from-Approximates 64 0 n start
