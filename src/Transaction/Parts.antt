-- ===== src/Transaction/Parts.antt =====
-- Only a deployment brings a program, and only one with an identifier that is free.
use logos_execution_zone.Prelude.{
  ℕ, ◌≡◌, not, none, some, [], ◌∷◌, contains_key, ok, ensure-bind, >>=-eq-ok, arith, ◌+◌, ◌==◌,
  n_unique, length,
}
use logos_execution_zone.Core.Program.{max_number_chained_calls}
use logos_execution_zone.Transactions.{PublicTransaction, ProgramDeploymentTransaction}
use logos_execution_zone.Host.{Host, public_message_hash}
use logos_execution_zone.State.{State, StateDiff, invalid_input, program_already_exists}
use logos_execution_zone.State.Grows.{IsNewProgram}
use logos_execution_zone.Diff.Checks.{check_signers}
use logos_execution_zone.Diff.Public.{
  from_public_transaction, process_calls, check_claimed, initial_call,
}
use logos_execution_zone.Diff.Deploy.{new_program, from_program_deployment_transaction}

module _ (host : Host) where
  pub public-program :
      (tx : PublicTransaction) (state : State) (block_id timestamp : ℕ) {diff : StateDiff}
      → from_public_transaction host tx state block_id timestamp ≡ ok diff
      → IsNewProgram state diff.program
  unfolding from_public_transaction
  public-program tx state block_id timestamp {diff} h =
      let (_, h1) =
        ensure-bind (n_unique tx.message.account_ids == length tx.message.account_ids)
          (invalid_input "Duplicate account_ids found in message") _ h in
      let (_, signed, h2) =
        >>=-eq-ok
          (check_signers host state (public_message_hash host tx.message)
            tx.signatures_and_public_keys tx.message.nonces)
          _ h1 in
      let (final, processed, h3) =
        >>=-eq-ok
          (process_calls host state block_id timestamp (max_number_chained_calls + 1)
            (initial_call host state tx ∷ []) [])
          _ h2 in
      let (_, claimed, h4) = >>=-eq-ok (check_claimed state final) _ h3 in
      let none_new : diff.program ≡ none = cc h4 in rw none_new tt

  pub deployed-program :
      (tx : ProgramDeploymentTransaction) (state : State) {diff : StateDiff}
      → from_program_deployment_transaction host tx state ≡ ok diff
      → IsNewProgram state diff.program
  unfolding from_program_deployment_transaction
  deployed-program tx state {diff} h =
      let (program, e, h1) = >>=-eq-ok (new_program host tx.bytecode) _ h in
      let (fresh, h2) =
        ensure-bind (not (contains_key state.programs program.id)) program_already_exists _ h1 in
      let this_one : diff.program ≡ some program = cc h2 in rw this_one (ground (arith, fresh))
