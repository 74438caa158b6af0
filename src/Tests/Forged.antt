-- ===== src/Tests/Forged.antt =====
-- A transaction that nobody has signed, and two programs that authorise an account between them.
use logos_execution_zone.Prelude.{
  ℕ, ◌≡◌, refl, some, [], ◌∷◌, ok, get, insert, and_then, le_bytes, true, false, List, Result,
  Option,
}
use logos_execution_zone.Core.Account.{account_eq, bytes_eq}
use logos_execution_zone.Core.Balance.{from_balances, add_balance, add_balances}
use logos_execution_zone.Core.Window.{is_valid_for}
use logos_execution_zone.Core.Validate.{
  validate_execution, validate_pairs, validate_pair, validate_total,
  validate_uniqueness_of_account_ids,
}
use logos_execution_zone.Transactions.{PublicTransaction}
use logos_execution_zone.Host.{account_id_of_public_key, public_message_hash}
use logos_execution_zone.Merkle.{root, root_index, log2_ceil, log2_ceil_from}
use logos_execution_zone.State.{
  State, get_account_by_id, get_account, apply_state_diff, extend_commitments, insert_commitments,
  increment_nonces, write_accounts,
}
use logos_execution_zone.Diff.Checks.{
  signatures_are_valid_for, signer_account_ids, check_nonces, check_signers, build_pre_states,
}
use logos_execution_zone.Diff.Call.{
  execute, check_output, check_pre_states, compute_public_authorized_pdas, claim_post_states,
  claim_post_state, check_claim, write_post_states, current_account, execute_call,
}
use logos_execution_zone.Diff.Public.{
  transition_from_public_transaction, from_public_transaction, process_calls, check_claimed,
}
use logos_execution_zone.Programs.AuthTransfer.{main, run_instruction, transfer, initialize_account}
use logos_execution_zone.Tests.World.{host, digest, run_session}
use logos_execution_zone.Core.Account.{ProgramId}
use logos_execution_zone.State.{NssaError}
use logos_execution_zone.Host.{Host}
use logos_execution_zone.Core.Account.{AccountWithMetadata}
use logos_execution_zone.Core.Program.{
  InstructionData, ProgramOutput, program_output, with_chained_calls, chained_call,
}
use logos_execution_zone.Tests.Transitions.{genesis, transfer_program}

-- The account that pays, as the first program presents it.
abbrev victim : AccountWithMetadata
victim = record {
  account = record { program_owner = 40; balance = 5; account_data = []; nonce = 0 };
  is_authorized = true;
  account_id = 8;
}

abbrev thief : AccountWithMetadata
thief = record {
  account = record { program_owner = 40; balance = 0; account_data = []; nonce = 0 };
  is_authorized = false;
  account_id = 9;
}

-- The first program calls the second with the account marked as authorised; the second leaves it out
-- of its output and calls the transfer program with it.
forging_session :
    List ℕ
    → ProgramId
    → Option ProgramId
    → List AccountWithMetadata
    → InstructionData
    → Option ProgramOutput
forging_session (_ ∷ []) id caller pres words = some (
    with_chained_calls (program_output id caller words [] [])
      (chained_call 42 (victim ∷ []) [] ∷ []))
forging_session (_ ∷ _ ∷ []) id caller pres words = some (
    with_chained_calls (program_output id caller words [] [])
      (chained_call 40 (victim ∷ thief ∷ []) (5 ∷ []) ∷ []))
forging_session elf id caller pres words = run_session elf id caller pres words

abbrev forging_host : Host
forging_host = record host { run_session = forging_session }

abbrev before : State
before = record genesis {
  public_state =
      (8, record { program_owner = 40; balance = 5; account_data = []; nonce = 0 })
      ∷ (9, record { program_owner = 40; balance = 0; account_data = []; nonce = 0 })
      ∷ [];
  programs =
      (40, transfer_program)
      ∷ (41, record { id = 41; elf = 1 ∷ [] })
      ∷ (42, record { id = 42; elf = 1 ∷ 2 ∷ [] })
      ∷ [];
}

abbrev unsigned : PublicTransaction
unsigned = record {
  message = record { program_id = 41; account_ids = []; nonces = []; instruction_data = [] };
  signatures_and_public_keys = [];
}

abbrev outcome : Result NssaError State → List ℕ
outcome (ok state) = (get_account_by_id state 8).balance ∷ (get_account_by_id state 9).balance ∷ []
outcome _ = []

-- The transaction is accepted, and the balance of account 8 has gone to account 9.
victim_pays :
    outcome (transition_from_public_transaction forging_host unsigned before 1 1) ≡ 0 ∷ 5 ∷ []
unfolding forging_session transition_from_public_transaction from_public_transaction check_signers
    signatures_are_valid_for signer_account_ids check_nonces build_pre_states process_calls
    check_claimed execute_call execute check_output check_pre_states compute_public_authorized_pdas
    claim_post_states claim_post_state check_claim write_post_states current_account
    apply_state_diff extend_commitments insert_commitments increment_nonces write_accounts
    get_account get insert account_id_of_public_key public_message_hash le_bytes digest run_session
    main run_instruction transfer initialize_account validate_execution validate_pairs validate_pair
    validate_total validate_uniqueness_of_account_ids from_balances add_balance add_balances
    account_eq bytes_eq is_valid_for and_then root root_index log2_ceil log2_ceil_from
victim_pays = refl
