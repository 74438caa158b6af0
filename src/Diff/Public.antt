-- ===== src/Diff/Public.antt =====
-- nssa/src/validated_state_diff.rs: `from_public_transaction`, and the transition of
-- nssa/src/state.rs that applies its result.
pub mod Sound
pub mod Transition
pub mod Replay
pub mod History
use logos_execution_zone.Prelude.{
  ℕ, zero, suc, ◌+◌, Bool, true, false, not, ◌||◌, Option, none, some, List, [], ◌∷◌, ◌++◌, Dict,
  n_unique, length, Result, ok, err, ensure, expect, ◌>>=◌, ◌>>◌, ◌==◌,
}
use logos_execution_zone.Core.Account.{default_program_id, Account, account_eq}
use logos_execution_zone.Core.Program.{ChainedCall, max_number_chained_calls}
use logos_execution_zone.Transactions.{PublicTransaction}
use logos_execution_zone.Host.{Host, public_message_hash}
use logos_execution_zone.State.{
  State, StateDiff, get_account_by_id, NssaError, invalid_input, invalid_program_behavior,
  default_account_modified_without_claim, max_chained_calls_depth_exceeded, apply_state_diff,
}
use logos_execution_zone.Diff.Checks.{signer_account_ids, check_signers, build_pre_states}
use logos_execution_zone.Diff.Call.{CallerData, execute_call}

-- The last loop: an account with the default owner that has changed must have been claimed.
unfoldable pub check_claimed : State → Dict Account → Result NssaError (Unit {0})
check_claimed state [] = ok tt
check_claimed state ((account_id, post) ∷ diff) =
    let pre = get_account_by_id state account_id in
    ensure
      (not (pre.program_owner == default_program_id)
        || account_eq pre post
        || not (post.program_owner == default_program_id))
      (invalid_program_behavior (default_account_modified_without_claim account_id))
    >> check_claimed state diff

module _ (host : Host) where
  -- The `while let` loop. `rounds` is `MAX_NUMBER_CHAINED_CALLS + 1 - chain_calls_counter`, so that
  -- the test of the counter fails exactly if no round is left.
  unfoldable pub process_calls :
      State
      → ℕ
      → ℕ
      → ℕ
      → List (ChainedCall × CallerData)
      → Dict Account
      → Result NssaError (Dict Account)
  process_calls state block_id timestamp rounds [] diff = ok diff
  process_calls state block_id timestamp zero (next ∷ queue) diff =
      err max_chained_calls_depth_exceeded
  process_calls state block_id timestamp (suc rounds) ((call, caller) ∷ queue) diff = do
    done ← execute_call host state block_id timestamp diff call caller
    process_calls state block_id timestamp rounds (done.1 ++ queue) done.0

  -- The first call of a transaction and the data of its caller.
  abbrev pub initial_call : State → PublicTransaction → ChainedCall × CallerData
  initial_call state tx =
      let signers = signer_account_ids host tx.signatures_and_public_keys in
      (
        record {
          program_id = tx.message.program_id;
          instruction_data = tx.message.instruction_data;
          pre_states = build_pre_states state signers tx.message.account_ids;
          pda_seeds = [];
        },
        record { program_id = none; authorized_accounts = signers },
      )

  unfoldable pub from_public_transaction :
      PublicTransaction → State → ℕ → ℕ → Result NssaError StateDiff
  unfolding check_signers build_pre_states process_calls check_claimed
  from_public_transaction tx state block_id timestamp = do
    ensure (n_unique tx.message.account_ids == length tx.message.account_ids)
        (invalid_input "Duplicate account_ids found in message")
    check_signers host state (public_message_hash host tx.message) tx.signatures_and_public_keys
        tx.message.nonces
    diff ←
        process_calls state block_id timestamp (max_number_chained_calls + 1)
          (initial_call state tx ∷ []) []
    check_claimed state diff
    ok (record {
      signer_account_ids = signer_account_ids host tx.signatures_and_public_keys;
      public_diff = diff;
      new_commitments = [];
      new_nullifiers = [];
      program = none;
    })

  -- `V03State::transition_from_public_transaction`
  unfoldable pub transition_from_public_transaction :
      PublicTransaction → State → ℕ → ℕ → Result NssaError State
  unfolding from_public_transaction
  transition_from_public_transaction tx state block_id timestamp = do
    diff ← from_public_transaction tx state block_id timestamp
    expect (apply_state_diff host state diff) "panic while applying the diff"
