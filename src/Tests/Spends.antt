-- ===== src/Tests/Spends.antt =====
-- A privacy preserving transaction that spends one nullifier and makes one commitment.
use logos_execution_zone.Prelude.{
  ◌≡◌, ◌≢◌, ◌⊎◌, refl, none, [], ◌∷◌, ok, Result, get, insert, and_then, le_bytes,
}
use logos_execution_zone.Core.Account.{Account, account_eq, bytes_eq}
use logos_execution_zone.Core.Window.{is_valid_for, new_unbounded}
use logos_execution_zone.Transactions.{PrivacyPreservingTransaction}
use logos_execution_zone.Host.{private_message_hash}
use logos_execution_zone.Merkle.{
  MerkleTree, root, root_index, log2_ceil, log2_ceil_from, insert_leaf, update_parents, hash_two,
  hash_value, set_node,
}
use logos_execution_zone.Merkle
use logos_execution_zone.State.{
  State, StateDiff, NssaError, get_account, apply_state_diff, extend_commitments,
  insert_commitments, increment_nonces, write_accounts, check_commitments_are_new,
  check_nullifiers_are_valid,
}
use logos_execution_zone.Diff.Checks.{
  signatures_are_valid_for, signer_account_ids, check_nonces, check_signers, build_pre_states,
}
use logos_execution_zone.Diff.Private.{
  n_unique_pairs, check_proof, from_privacy_preserving_transaction,
}
use logos_execution_zone.Diff.Private.Spent.{
  IsVerified, signers, from_privacy_preserving_transaction-IsVerified,
}
use logos_execution_zone.Transaction.{
  NssaTransaction, privacy_preserving, clock_program_account_ids, execute_check_on_state,
  validate_on_state, check_faucet, validated_diff, touches, number_of_bytes,
}
use logos_execution_zone.Transaction.Chain.{start}
use logos_execution_zone.Transaction.Again.{double_spend_refused, commitment_refused}
use logos_execution_zone.Diff.Private.Accounts.{account-transition}
use logos_execution_zone.Diff.Private.{transition_from_privacy_preserving_transaction}
use logos_execution_zone.Diff.Private.Listed.{IsListed, IsUnlisted}
use logos_execution_zone.State.Totals.{add_nonce, count}
use logos_execution_zone.State.{get_account_by_id}
use logos_execution_zone.Tests.World.{host, digest}
use logos_execution_zone.Tests.Transitions.{genesis}

abbrev spend : PrivacyPreservingTransaction
spend = record {
  message = record {
    public_account_ids = 8 ∷ [];
    nonces = [];
    public_post_states =
        record { program_owner = 40; balance = 9; account_data = []; nonce = 0 } ∷ [];
    encrypted_private_post_states = [];
    new_commitments = 9 ∷ [];
    new_nullifiers = (600, 77) ∷ [];
    block_validity_window = new_unbounded;
    timestamp_validity_window = new_unbounded;
  };
  signatures_and_public_keys = [];
  proof = 1 ∷ [];
}

abbrev spend_diff : StateDiff
spend_diff = record {
  signer_account_ids = [];
  public_diff = (8, record { program_owner = 40; balance = 9; account_data = []; nonce = 0 }) ∷ [];
  new_commitments = 9 ∷ [];
  new_nullifiers = 600 ∷ [];
  program = none;
}

abbrev outcome : Result NssaError (NssaTransaction × State) → State
outcome (ok done) = done.1
outcome _ = genesis

abbrev spent : State
spent = outcome (execute_check_on_state host (privacy_preserving spend) genesis 1 1)

spend_valid : from_privacy_preserving_transaction host spend genesis 1 1 ≡ ok spend_diff
unfolding from_privacy_preserving_transaction check_signers signatures_are_valid_for
    signer_account_ids check_nonces build_pre_states check_proof n_unique_pairs
    check_commitments_are_new check_nullifiers_are_valid is_valid_for get private_message_hash
    get_account digest
spend_valid = refl

spend_executed :
    execute_check_on_state host (privacy_preserving spend) genesis 1 1
    ≡ ok (privacy_preserving spend, spent)
unfolding from_privacy_preserving_transaction check_signers signatures_are_valid_for
    signer_account_ids check_nonces build_pre_states check_proof n_unique_pairs
    check_commitments_are_new check_nullifiers_are_valid is_valid_for get private_message_hash
    get_account digest apply_state_diff extend_commitments insert_commitments increment_nonces
    write_accounts insert le_bytes and_then account_eq bytes_eq root root_index log2_ceil
    log2_ceil_from Merkle.insert insert_leaf update_parents hash_two hash_value set_node
    execute_check_on_state validate_on_state check_faucet validated_diff touches
    clock_program_account_ids number_of_bytes
spend_executed = refl

from_privacy_preserving_transaction-IsVerified_example :
    IsVerified host spend genesis 1 1 spend_diff
from_privacy_preserving_transaction-IsVerified_example =
    from_privacy_preserving_transaction-IsVerified host spend genesis 1 1 spend_valid

double_spend_refused_example :
    execute_check_on_state host (privacy_preserving spend) spent 2 2
    ≢ ok (privacy_preserving spend, spent)
double_spend_refused_example =
    double_spend_refused host spend genesis 1 1 spend_executed spend 600 2 2 start refl refl

commitment_refused_example :
    execute_check_on_state host (privacy_preserving spend) spent 2 2
    ≢ ok (privacy_preserving spend, spent)
commitment_refused_example =
    commitment_refused host spend genesis 1 1 spend_executed spend 9 2 2 start refl refl

spend_applied : transition_from_privacy_preserving_transaction host spend genesis 1 1 ≡ ok spent
unfolding from_privacy_preserving_transaction check_signers signatures_are_valid_for
    signer_account_ids check_nonces build_pre_states check_proof n_unique_pairs
    check_commitments_are_new check_nullifiers_are_valid is_valid_for get private_message_hash
    get_account digest apply_state_diff extend_commitments insert_commitments increment_nonces
    write_accounts insert le_bytes and_then account_eq bytes_eq root root_index log2_ceil
    log2_ceil_from Merkle.insert insert_leaf update_parents hash_two hash_value set_node
    execute_check_on_state validate_on_state check_faucet validated_diff touches
    clock_program_account_ids number_of_bytes transition_from_privacy_preserving_transaction
spend_applied = refl

account-transition_example :
    ((post : Account) × IsListed spend.message.public_account_ids spend.message.public_post_states 8
        post
      × (get_account_by_id spent 8 ≡ add_nonce (count 8 (signers host spend)) post))
    ⊎ (IsUnlisted spend.message.public_account_ids spend.message.public_post_states 8
        × (get_account_by_id spent 8
            ≡ add_nonce (count 8 (signers host spend)) (get_account_by_id genesis 8)))
account-transition_example = account-transition host spend genesis 1 1 8 spend_applied
