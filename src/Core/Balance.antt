-- ===== src/Core/Balance.antt =====
-- nssa/core/src/program.rs: `WrappedBalanceSum`, a sum of `u128` balances in two words.
pub mod Exact
use logos_execution_zone.Prelude.{
  ℕ, ◌+◌, ◌%◌, ◌^◌, ◌≡◌, Bool, Option, some, List, [], ◌∷◌, leb, checked_add, if◌then◌else◌, ◌==◌,
  ◌&&◌, and_then,
}

-- The number `lo + hi * 2^128`.
pub record WrappedBalanceSum : Type 0 where
  pub lo : ℕ
  pub hi : ℕ

-- One round: `overflowing_add` on the low word, and a checked carry into the high one.
unfoldable pub add_balance : WrappedBalanceSum → ℕ → Option WrappedBalanceSum
unfolding and_then
add_balance w balance =
    and_then (if leb (2 ^ 128) (w.lo + balance) then checked_add w.hi 1 else some w.hi)
      λ hi. some (record { lo = (w.lo + balance) % 2 ^ 128; hi = hi })

unfoldable pub add_balances : WrappedBalanceSum → List ℕ → Option WrappedBalanceSum
add_balances w [] = some w
add_balances w (balance ∷ rest) = and_then (add_balance w balance) λ next. add_balances next rest

-- `None` is an overflow of the high word.
unfoldable pub from_balances : List ℕ → Option WrappedBalanceSum
unfolding add_balance add_balances and_then
from_balances balances = add_balances (record { lo = 0; hi = 0 }) balances

-- The derived `==`.
abbrev pub wrapped_eq : WrappedBalanceSum → WrappedBalanceSum → Bool
wrapped_eq a b = (a.lo == b.lo) && (a.hi == b.hi)
