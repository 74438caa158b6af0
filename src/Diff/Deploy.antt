-- ===== src/Diff/Deploy.antt =====
-- nssa/src/validated_state_diff.rs: `from_program_deployment_transaction`, with `Program::new` of
-- nssa/src/program.rs and the transition of nssa/src/state.rs.
use logos_execution_zone.Prelude.{
  ℕ, some, List, [], not, contains_key, Result, ok, ensure, expect, ok_or, ◌>>=◌, ◌>>◌,
}
use logos_execution_zone.Transactions.{ProgramDeploymentTransaction}
use logos_execution_zone.Host.{Host}
use logos_execution_zone.State.{
  State, StateDiff, Program, NssaError, invalid_program_bytecode, program_already_exists,
  apply_state_diff,
}

module _ (host : Host) where
  -- `Program::new`
  unfoldable pub new_program : List ℕ → Result NssaError Program
  new_program bytecode = do
    id ← ok_or (host.image_id bytecode) invalid_program_bytecode
    ok (record { id = id; elf = bytecode })

  unfoldable pub from_program_deployment_transaction :
      ProgramDeploymentTransaction → State → Result NssaError StateDiff
  unfolding new_program
  from_program_deployment_transaction tx state = do
    program ← new_program tx.bytecode
    ensure (not (contains_key state.programs program.id)) program_already_exists
    ok (record {
      signer_account_ids = [];
      public_diff = [];
      new_commitments = [];
      new_nullifiers = [];
      program = some program;
    })

  -- `V03State::transition_from_program_deployment_transaction`
  unfoldable pub transition_from_program_deployment_transaction :
      ProgramDeploymentTransaction → State → Result NssaError State
  unfolding from_program_deployment_transaction
  transition_from_program_deployment_transaction tx state = do
    diff ← from_program_deployment_transaction tx state
    expect (apply_state_diff host state diff) "panic while applying the diff"
