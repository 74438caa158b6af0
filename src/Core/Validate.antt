-- ===== src/Core/Validate.antt =====
-- nssa/core/src/program.rs: `validate_execution`, the rules that every program execution obeys.
pub mod Rules
use logos_execution_zone.Prelude.{
  ℕ, Bool, true, false, not, ◌&&◌, Option, List, [], ◌∷◌, map, length, n_unique, Result, ok, err,
  ensure, ok_or, ◌>>=◌, ◌>>◌, ◌==◌, ltb, if◌then◌else◌,
}
use logos_execution_zone.Core.Account.{
  AccountId, ProgramId, default_program_id, default_account, AccountWithMetadata, bytes_eq,
  account_eq,
}
use logos_execution_zone.Core.Balance.{WrappedBalanceSum, from_balances, wrapped_eq}
use logos_execution_zone.Core.Program.{AccountPostState}

pub data ExecutionValidationError : Type 0 where
  pre_state_account_ids_not_unique : ExecutionValidationError
  mismatched_pre_state_post_state_length : ℕ → ℕ → ExecutionValidationError
  modified_nonce : AccountId → ExecutionValidationError
  modified_program_owner : AccountId → ExecutionValidationError
  unauthorized_balance_decrease : AccountId → ProgramId → ProgramId → ExecutionValidationError
  unauthorized_data_modification : AccountId → ProgramId → ExecutionValidationError
  non_default_account_with_default_owner : AccountId → ExecutionValidationError
  balance_sum_overflow : ExecutionValidationError
  mismatched_total_balance : WrappedBalanceSum → WrappedBalanceSum → ExecutionValidationError

abbrev pub account_ids : List AccountWithMetadata → List AccountId
account_ids = map (λ pre. pre.account_id)

abbrev pub pre_balances : List AccountWithMetadata → List ℕ
pre_balances = map (λ pre. pre.account.balance)

abbrev pub post_balances : List AccountPostState → List ℕ
post_balances = map (λ post. post.account.balance)

unfoldable pub validate_uniqueness_of_account_ids : List AccountWithMetadata → Bool
validate_uniqueness_of_account_ids pre_states =
    length pre_states == n_unique (account_ids pre_states)

-- The body of the loop over the pairs of states: the rules 3 to 7.
unfoldable pub validate_pair :
    ProgramId → AccountWithMetadata → AccountPostState → Result ExecutionValidationError (Unit {0})
validate_pair executing pre post = do
  ensure (pre.account.nonce == post.account.nonce) (modified_nonce pre.account_id)
  ensure (pre.account.program_owner == post.account.program_owner)
      (modified_program_owner pre.account_id)
  ensure
      (not (
        ltb post.account.balance pre.account.balance
        && not (pre.account.program_owner == executing)))
      (unauthorized_balance_decrease pre.account_id pre.account.program_owner executing)
  ensure
      (not (
        not (bytes_eq pre.account.account_data post.account.account_data)
        && not (account_eq pre.account default_account)
        && not (pre.account.program_owner == executing)))
      (unauthorized_data_modification pre.account_id executing)
  ensure
      (not (
        (post.account.program_owner == default_program_id)
        && not (account_eq pre.account default_account)))
      (non_default_account_with_default_owner pre.account_id)

-- `zip` ends with the shorter list.
unfoldable pub validate_pairs :
    ProgramId
    → List AccountWithMetadata
    → List AccountPostState
    → Result ExecutionValidationError (Unit {0})
validate_pairs executing [] posts = ok tt
validate_pairs executing (pre ∷ pres) [] = ok tt
validate_pairs executing (pre ∷ pres) (post ∷ posts) =
    validate_pair executing pre post >> validate_pairs executing pres posts

unfoldable pub validate_total :
    List AccountWithMetadata → List AccountPostState → Result ExecutionValidationError (Unit {0})
validate_total pre_states post_states = do
  total_pre ← ok_or (from_balances (pre_balances pre_states)) balance_sum_overflow
  total_post ← ok_or (from_balances (post_balances post_states)) balance_sum_overflow
  ensure (wrapped_eq total_pre total_post) (mismatched_total_balance total_pre total_post)

unfoldable pub validate_execution :
    List AccountWithMetadata
    → List AccountPostState
    → ProgramId
    → Result ExecutionValidationError (Unit {0})
unfolding validate_uniqueness_of_account_ids validate_pair validate_pairs validate_total
validate_execution pre_states post_states executing = do
  ensure (validate_uniqueness_of_account_ids pre_states) pre_state_account_ids_not_unique
  ensure (length pre_states == length post_states)
      (mismatched_pre_state_post_state_length (length pre_states) (length post_states))
  validate_pairs executing pre_states post_states
  validate_total pre_states post_states
