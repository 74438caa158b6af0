-- ===== src/Tests/Core.antt =====
-- The rules of an execution, validity windows and sums of balances on concrete values.
use logos_execution_zone.Prelude.{
  ℕ, ◌/◌, ◌%◌, ◌^◌, ◌≡◌, ◌↔◌, refl, true, some, none, List, [], ◌∷◌, ok, err, ltb, if◌then◌else◌,
  arith, u128_max,
}
use logos_execution_zone.Core.Account.{AccountWithMetadata, Account}
use logos_execution_zone.Core.Balance.{
  WrappedBalanceSum, from_balances, add_balance, add_balances, wrapped_eq,
}
use logos_execution_zone.Core.Balance.Exact.{sum, from_balances_exact, wrapped_eq-sum}
use logos_execution_zone.Core.Program.{AccountPostState, post_state}
use logos_execution_zone.Core.Validate.{validate_execution}
use logos_execution_zone.Core.Validate.Rules.{IsWellBehaved, validate_execution_iff}
use logos_execution_zone.Core.Window.{
  ValidityWindow, try_from, is_valid_for, invalid_window, InWindow, try_from-is_valid_for,
  try_from-refuses_empty,
}
use logos_execution_zone.Prelude.{and_then}

abbrev owned : ℕ → Account
owned balance = record { program_owner = 40; balance = balance; account_data = []; nonce = 0 }

abbrev pres : List AccountWithMetadata
pres =
    record { account = owned 100; is_authorized = true; account_id = 1 }
    ∷ record { account = owned 5; is_authorized = true; account_id = 2 }
    ∷ []

abbrev posts : List AccountPostState
posts = post_state (owned 60) ∷ post_state (owned 45) ∷ []

validate_execution_iff_example :
    (validate_execution pres posts 40 ≡ ok tt) ↔ IsWellBehaved 40 pres posts
validate_execution_iff_example =
    validate_execution_iff pres posts (omega arith, (omega arith, tt))
      (omega arith, (omega arith, tt)) 40

abbrev window : ValidityWindow
window = record { start = some 3; end = some 9 }

window_lem : try_from (some 3) (some 9) ≡ ok window
unfolding try_from
window_lem = ground arith

try_from-is_valid_for_example : (is_valid_for window 5 ≡ true) ↔ InWindow (some 3) (some 9) 5
try_from-is_valid_for_example = try_from-is_valid_for (some 3) (some 9) window 5 window_lem

try_from-refuses_empty_example :
    (try_from (some 9) (some 3) ≡ err invalid_window) ↔ ((v : ℕ) → ¬ InWindow (some 9) (some 3) v)
try_from-refuses_empty_example = try_from-refuses_empty 9 3

-- Balances whose sum needs the second word.
abbrev large : List ℕ
large = u128_max ∷ 2 ∷ []

from_balances_exact_example : from_balances large ≡ (
    if ltb (sum large) (2 ^ 256)
    then some (record { lo = sum large % 2 ^ 128; hi = sum large / 2 ^ 128 })
    else none)
from_balances_exact_example = from_balances_exact large (omega arith, (omega arith, tt))

abbrev two_words : WrappedBalanceSum
two_words = record { lo = 1; hi = 1 }

large_lem : from_balances large ≡ some two_words
unfolding from_balances add_balance add_balances and_then
large_lem = refl

wrapped_eq-sum_example : (wrapped_eq two_words two_words ≡ true) ↔ (sum large ≡ sum large)
wrapped_eq-sum_example =
    wrapped_eq-sum large large (omega arith, (omega arith, tt)) (omega arith, (omega arith, tt))
      large_lem large_lem
