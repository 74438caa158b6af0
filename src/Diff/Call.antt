-- ===== src/Diff/Call.antt =====
-- nssa/src/validated_state_diff.rs: one call of the loop of `from_public_transaction`.
pub mod Writes
use logos_execution_zone.Prelude.{
  ℕ, Bool, true, false, not, ◌&&◌, ◌||◌, Option, none, some, List, [], ◌∷◌, ◌++◌, map, filter,
  contains, Dict, get, insert, Result, ok, err, panic, ensure, expect, ok_or, map_err, ◌>>=◌, ◌>>◌,
  ◌==◌, if◌then◌else◌,
}
use logos_execution_zone.Core.Account.{
  AccountId, ProgramId, default_program_id, Account, AccountWithMetadata, account_eq,
}
use logos_execution_zone.Core.Window.{is_valid_for}
use logos_execution_zone.Core.Program.{
  Claim, authorized, pda, AccountPostState, ChainedCall, ProgramOutput, PdaSeed, InstructionData,
}
use logos_execution_zone.Core.Validate.{validate_execution}
use logos_execution_zone.Host.{Host, for_public_pda}
use logos_execution_zone.State.{
  State, Program, get_account_by_id, NssaError, invalid_input, invalid_program_behavior,
  program_execution_failed, out_of_validity_window, inconsistent_account_pre_state,
  invalid_account_authorization, mismatched_program_id, mismatched_caller_program_id,
  execution_validation_failed, claimed_non_default_account, claimed_unauthorized_account,
  mismatched_pda_claim,
}

pub record CallerData : Type 0 where
  pub program_id : Option ProgramId
  pub authorized_accounts : List AccountId

-- `Option<ProgramId>` by the derived `==`.
abbrev pub caller_eq : Option ProgramId → Option ProgramId → Bool
caller_eq none none = true
caller_eq none (some b) = false
caller_eq (some a) none = false
caller_eq (some a) (some b) = a == b

-- `state_diff.get(&account_id).cloned().unwrap_or_else(|| state.get_account_by_id(account_id))`
abbrev pub account_or : Option Account → Account → Account
account_or (some account) other = account
account_or none other = other

unfoldable pub current_account : State → Dict Account → AccountId → Account
current_account state diff account_id =
    account_or (get diff account_id) (get_account_by_id state account_id)

-- The loop that writes the post states into the diff.
unfoldable pub write_post_states :
    List AccountWithMetadata → List AccountPostState → Dict Account → Dict Account
write_post_states [] posts diff = diff
write_post_states (pre ∷ pres) [] diff = diff
write_post_states (pre ∷ pres) (post ∷ posts) diff =
    write_post_states pres posts (insert pre.account_id post.account diff)

abbrev pub authorized_ids : List AccountWithMetadata → List AccountId
authorized_ids pres = map (λ pre. pre.account_id) (filter (λ pre. pre.is_authorized) pres)

module _ (host : Host) where
  -- `Program::execute`
  unfoldable pub execute :
      Program
      → Option ProgramId
      → List AccountWithMetadata
      → InstructionData
      → Result NssaError ProgramOutput
  execute program caller pre_states instruction_data =
      ok_or (host.run_session program.elf program.id caller pre_states instruction_data)
        program_execution_failed

  -- nssa/core/src/program.rs: `compute_public_authorized_pdas`
  unfoldable pub compute_public_authorized_pdas : Option ProgramId → List PdaSeed → List AccountId
  compute_public_authorized_pdas none seeds = []
  compute_public_authorized_pdas (some caller) seeds = map (for_public_pda host caller) seeds

  -- The loop over the pre states of the output.
  unfoldable pub check_pre_states :
      State
      → Dict Account
      → List AccountId
      → List AccountId
      → List AccountWithMetadata
      → Result NssaError (Unit {0})
  check_pre_states state diff pdas accounts [] = ok tt
  check_pre_states state diff pdas accounts (pre ∷ rest) =
      ensure (account_eq pre.account (current_account state diff pre.account_id)) (
        invalid_program_behavior (
          inconsistent_account_pre_state pre.account_id (current_account state diff pre.account_id)
            pre.account))
      >> ensure
          (not pre.is_authorized
            || (contains pdas pre.account_id || contains accounts pre.account_id))
          (invalid_program_behavior (invalid_account_authorization pre.account_id))
      >> check_pre_states state diff pdas accounts rest

  unfoldable pub check_claim : ProgramId → AccountWithMetadata → Claim → Result NssaError (Unit {0})
  check_claim program_id pre authorized =
      ensure pre.is_authorized
        (invalid_program_behavior (claimed_unauthorized_account pre.account_id))
  check_claim program_id pre (pda seed) =
      ensure (pre.account_id == for_public_pda host program_id seed) (
        invalid_program_behavior
          (mismatched_pda_claim (for_public_pda host program_id seed) pre.account_id))

  -- One round of the loop over the claims.
  unfoldable pub claim_post_state :
      ProgramId → AccountWithMetadata → AccountPostState → Result NssaError AccountPostState
  unfolding check_claim
  claim_post_state program_id pre post = elim post.claim [
    | none ↦ ok post
    | some claim ↦
        ensure (post.account.program_owner == default_program_id)
          (invalid_program_behavior (claimed_non_default_account pre.account_id))
        >> check_claim program_id pre claim
        >> ok (record post { account = record post.account { program_owner = program_id } })
  ]

  -- A claim without a pre state at its index panics; `validate_execution` excludes it.
  unfoldable pub claim_post_states :
      ProgramId
      → List AccountWithMetadata
      → List AccountPostState
      → Result NssaError (List AccountPostState)
  unfolding claim_post_state
  claim_post_states program_id pres [] = ok []
  claim_post_states program_id [] (post ∷ posts) = elim post.claim [
    | none ↦ do rest ← claim_post_states program_id [] posts; ok (post ∷ rest)
    | some claim ↦ panic "index out of bounds"
  ]
  claim_post_states program_id (pre ∷ pres) (post ∷ posts) = do
    claimed ← claim_post_state program_id pre post
    rest ← claim_post_states program_id pres posts
    ok (claimed ∷ rest)

  -- The checks on one output, up to the claims.
  unfoldable pub check_output :
      State
      → Dict Account
      → ℕ
      → ℕ
      → ChainedCall
      → CallerData
      → ProgramOutput
      → Result NssaError (Unit {0})
  unfolding check_pre_states compute_public_authorized_pdas
  check_output state diff block_id timestamp call caller output =
      check_pre_states state diff (compute_public_authorized_pdas caller.program_id call.pda_seeds)
        caller.authorized_accounts output.pre_states
      >> ensure (output.self_program_id == call.program_id)
          (invalid_program_behavior (mismatched_program_id call.program_id output.self_program_id))
      >> ensure (caller_eq output.caller_program_id caller.program_id) (
          invalid_program_behavior
            (mismatched_caller_program_id caller.program_id output.caller_program_id))
      >> map_err (λ e. invalid_program_behavior (execution_validation_failed e))
          (validate_execution output.pre_states output.post_states call.program_id)
      >> ensure
          (is_valid_for output.block_validity_window block_id
            && is_valid_for output.timestamp_validity_window timestamp)
          out_of_validity_window

  -- The calls that the output asks for, each with the data of its caller.
  abbrev pub new_calls : ChainedCall → ProgramOutput → List (ChainedCall × CallerData)
  new_calls call output =
      map
        (λ new_call. (
          new_call,
          record {
            program_id = some call.program_id;
            authorized_accounts = authorized_ids call.pre_states;
          },
        ))
        output.chained_calls

  -- One round of the loop over the chained calls: the new diff, and the calls that go first.
  unfoldable pub execute_call :
      State
      → ℕ
      → ℕ
      → Dict Account
      → ChainedCall
      → CallerData
      → Result NssaError (Dict Account × List (ChainedCall × CallerData))
  unfolding execute check_output claim_post_states write_post_states
  execute_call state block_id timestamp diff call caller = do
    program ← ok_or (get state.programs call.program_id) (invalid_input "Unknown program")
    output ← execute program caller.program_id call.pre_states call.instruction_data
    check_output state diff block_id timestamp call caller output
    posts ← claim_post_states call.program_id output.pre_states output.post_states
    ok (write_post_states output.pre_states posts diff, new_calls call output)
