-- ===== src/Tests/Transitions.antt =====
-- A signed transfer of 30 units, and what holds of it.
use logos_execution_zone.Prelude.{
  ℕ, ◌+◌, ◌≡◌, refl, some, [], ◌∷◌, ok, err, arith, get, insert, and_then, le_bytes,
}
use logos_execution_zone.Core.Account.{AccountId, Account, account_eq, bytes_eq}
use logos_execution_zone.Core.Balance.{from_balances, add_balance, add_balances}
use logos_execution_zone.Core.Window.{is_valid_for}
use logos_execution_zone.Core.Validate.{
  validate_execution, validate_pairs, validate_pair, validate_total,
  validate_uniqueness_of_account_ids,
}
use logos_execution_zone.Transactions.{PublicTransaction, ProgramDeploymentTransaction}
use logos_execution_zone.Host.{account_id_of_public_key, public_message_hash}
use logos_execution_zone.Merkle.{MerkleTree, root, root_index, log2_ceil, log2_ceil_from}
use logos_execution_zone.State.{
  State, Program, invalid_input, program_already_exists, get_account_by_id, get_account,
  apply_state_diff, extend_commitments, insert_commitments, increment_nonces, write_accounts,
}
use logos_execution_zone.State.Totals.{total_balance, count, add_nonce}
use logos_execution_zone.State.Grows.{Grows}
use logos_execution_zone.Diff.Checks.{
  signatures_are_valid_for, signer_account_ids, check_nonces, check_signers, build_pre_states,
}
use logos_execution_zone.Diff.Call.{
  execute, check_output, check_pre_states, compute_public_authorized_pdas, claim_post_states,
  claim_post_state, check_claim, write_post_states, current_account, execute_call,
}
use logos_execution_zone.Diff.Public.{
  transition_from_public_transaction, from_public_transaction, process_calls, check_claimed,
}
use logos_execution_zone.Diff.Public.Transition.{
  signers, total_balance-transition, nonce-transition, owner-transition,
}
use logos_execution_zone.Programs.AuthTransfer.{main, run_instruction, transfer, initialize_account}
use logos_execution_zone.Transaction.{
  public, program_deployment, clock_program_account_ids, execute_check_on_state, validated_diff,
}
use logos_execution_zone.Transaction.{
  check_faucet, validate_on_state, touches, number_of_bytes, clock_account_id,
}
use logos_execution_zone.Transaction.Clock.{clock-execute_check_on_state}
use logos_execution_zone.Transaction.Chain.{Chain, start, step, user, Chain-Grows}
use logos_execution_zone.Transaction.Again.{redeployment_refused}
use logos_execution_zone.State.{StateDiff}
use logos_execution_zone.Diff.Public.History.{
  History, begin, accept, IsLater, History-IsLater, accepted_once,
}
use logos_execution_zone.Tests.World.{host, host-ReturnsWords, digest, run_session}

abbrev pub transfer_program : Program
transfer_program = record { id = 40; elf = [] }

abbrev pub alice : AccountId
alice = account_id_of_public_key host 5

abbrev owned : ℕ → ℕ → Account
owned balance nonce = record {
  program_owner = 40;
  balance = balance;
  account_data = [];
  nonce = nonce;
}

-- A tree with room for two commitments.
abbrev pub tree : MerkleTree
tree = record { nodes = 0 ∷ 1 ∷ 2 ∷ []; capacity = 2; len = 0 }

abbrev pub genesis : State
genesis = record {
  public_state = (alice, owned 100 3) ∷ (8, owned 5 0) ∷ [];
  commitment_set = record { merkle_tree = tree; commitments = []; root_history = 77 ∷ [] };
  nullifier_set = 500 ∷ [];
  programs = (40, transfer_program) ∷ [];
}

abbrev payment : PublicTransaction
payment = record {
  message = record {
    program_id = 40;
    account_ids = alice ∷ 8 ∷ [];
    nonces = 3 ∷ [];
    instruction_data = 30 ∷ [];
  };
  signatures_and_public_keys = (1, 5) ∷ [];
}

abbrev paid : State
paid = record genesis {
  public_state = (alice, owned 70 4) ∷ (8, owned 35 0) ∷ [];
  commitment_set = record { merkle_tree = tree; commitments = []; root_history = 1 ∷ 77 ∷ [] };
}

payment_accepted : transition_from_public_transaction host payment genesis 1 1 ≡ ok paid
unfolding transition_from_public_transaction from_public_transaction check_signers
    signatures_are_valid_for signer_account_ids check_nonces build_pre_states process_calls
    check_claimed execute_call execute check_output check_pre_states compute_public_authorized_pdas
    claim_post_states claim_post_state check_claim write_post_states current_account
    apply_state_diff extend_commitments insert_commitments increment_nonces write_accounts
    get_account get insert account_id_of_public_key public_message_hash le_bytes digest run_session
    main run_instruction transfer initialize_account validate_execution validate_pairs validate_pair
    validate_total validate_uniqueness_of_account_ids from_balances add_balance add_balances
    account_eq bytes_eq is_valid_for and_then root root_index log2_ceil log2_ceil_from
payment_accepted = refl

total_balance-transition_example :
    total_balance paid.public_state ≡ total_balance genesis.public_state
total_balance-transition_example =
    total_balance-transition host payment genesis 1 1 host-ReturnsWords payment_accepted

nonce-transition_example :
    (get_account_by_id paid alice).nonce
    ≡ (get_account_by_id genesis alice).nonce + count alice (signers host payment)
nonce-transition_example =
    nonce-transition host payment genesis 1 1 host-ReturnsWords payment_accepted alice

owner-transition_example :
    (get_account_by_id paid alice).program_owner ≡ (get_account_by_id genesis alice).program_owner
unfolding get_account get account_id_of_public_key digest le_bytes
owner-transition_example =
    owner-transition host payment genesis 1 1 host-ReturnsWords payment_accepted alice (omega arith)

payment_executed :
    execute_check_on_state host (public payment) genesis 1 1 ≡ ok (public payment, paid)
unfolding transition_from_public_transaction from_public_transaction check_signers
    signatures_are_valid_for signer_account_ids check_nonces build_pre_states process_calls
    check_claimed execute_call execute check_output check_pre_states compute_public_authorized_pdas
    claim_post_states claim_post_state check_claim write_post_states current_account
    apply_state_diff extend_commitments insert_commitments increment_nonces write_accounts
    get_account get insert account_id_of_public_key public_message_hash le_bytes digest run_session
    main run_instruction transfer initialize_account validate_execution validate_pairs validate_pair
    validate_total validate_uniqueness_of_account_ids from_balances add_balance add_balances
    account_eq bytes_eq is_valid_for and_then root root_index log2_ceil log2_ceil_from
    execute_check_on_state validate_on_state check_faucet validated_diff touches
    clock_program_account_ids number_of_bytes
payment_executed = refl

-- The first of the clock accounts.
abbrev clock_01 : AccountId
clock_01 = clock_account_id "/LEZ/ClockProgramAccount/0000001"

clock-execute_check_on_state_example :
    (diff : StateDiff) × (validated_diff host (public payment) genesis 1 1 ≡ ok diff)
    × (get_account_by_id paid clock_01
        ≡ add_nonce (count clock_01 diff.signer_account_ids) (get_account_by_id genesis clock_01))
unfolding clock_program_account_ids
clock-execute_check_on_state_example =
    clock-execute_check_on_state host (public payment) genesis 1 1 payment_executed clock_01
      (unfold number_of_bytes in refl)

one_payment : Chain host genesis paid
one_payment = step start (user (public payment) 1 1 payment_executed)

Chain-Grows_example : Grows genesis paid
Chain-Grows_example = Chain-Grows host one_payment

-- Bytecode that has the identifier of the transfer program.
abbrev redeployment : ProgramDeploymentTransaction
redeployment = record { bytecode = 40 ∷ 1 ∷ [] }

redeployment_refused_example :
    (get paid.programs 40 ≡ some transfer_program)
    × (execute_check_on_state host (program_deployment redeployment) paid 2 2
        ≡ err program_already_exists)
unfolding get
redeployment_refused_example =
    redeployment_refused host redeployment transfer_program 40 2 2 refl one_payment refl

-- Another payment by the same account, with its next nonce.
abbrev second_payment : PublicTransaction
second_payment = record payment {
  message = record {
    program_id = 40;
    account_ids = alice ∷ 8 ∷ [];
    nonces = 4 ∷ [];
    instruction_data = 10 ∷ [];
  };
}

abbrev paid_twice : State
paid_twice = record paid {
  public_state = (alice, owned 60 5) ∷ (8, owned 45 0) ∷ [];
  commitment_set = record { merkle_tree = tree; commitments = []; root_history = 1 ∷ 1 ∷ 77 ∷ [] };
}

second_accepted : transition_from_public_transaction host second_payment paid 2 2 ≡ ok paid_twice
unfolding transition_from_public_transaction from_public_transaction check_signers
    signatures_are_valid_for signer_account_ids check_nonces build_pre_states process_calls
    check_claimed execute_call execute check_output check_pre_states compute_public_authorized_pdas
    claim_post_states claim_post_state check_claim write_post_states current_account
    apply_state_diff extend_commitments insert_commitments increment_nonces write_accounts
    get_account get insert account_id_of_public_key public_message_hash le_bytes digest run_session
    main run_instruction transfer initialize_account validate_execution validate_pairs validate_pair
    validate_total validate_uniqueness_of_account_ids from_balances add_balance add_balances
    account_eq bytes_eq is_valid_for and_then root root_index log2_ceil log2_ceil_from
second_accepted = refl

after_first : History host paid paid_twice
after_first = accept second_payment 2 2 begin second_accepted

History-IsLater_example : IsLater paid paid_twice
History-IsLater_example = History-IsLater host host-ReturnsWords after_first

accepted_once_example :
    transition_from_public_transaction host payment paid_twice 3 3
    ≡ err (invalid_input "Nonce mismatch")
accepted_once_example =
    accepted_once host host-ReturnsWords payment genesis 1 1 3 3 (omega arith) payment_accepted
      after_first
