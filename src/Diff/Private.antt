-- ===== src/Diff/Private.antt =====
-- nssa/src/validated_state_diff.rs: `from_privacy_preserving_transaction`, and the transition of
-- nssa/src/state.rs that applies its result.
pub mod Listed
pub mod Spent
pub mod Accounts
use logos_execution_zone.Prelude.{
  ℕ, suc, Bool, true, false, not, ◌&&◌, ◌||◌, Option, none, some, List, [], ◌∷◌, map, Dict,
  n_unique, length, Result, ok, err, panic, ensure, expect, ◌>>=◌, ◌>>◌, ◌==◌, if◌then◌else◌,
}
use logos_execution_zone.Core.Account.{AccountId, Account, AccountWithMetadata}
use logos_execution_zone.Core.Window.{is_valid_for}
use logos_execution_zone.Transactions.{
  Nullifier, CommitmentSetDigest, PrivateMessage, PrivacyPreservingTransaction,
  PrivacyPreservingCircuitOutput,
}
use logos_execution_zone.Host.{Host, private_message_hash}
use logos_execution_zone.State.{
  State, StateDiff, NssaError, invalid_input, invalid_privacy_preserving_proof,
  out_of_validity_window, check_commitments_are_new, check_nullifiers_are_valid, apply_state_diff,
}
use logos_execution_zone.Diff.Checks.{signer_account_ids, check_signers, build_pre_states}

-- `is_empty()`
abbrev pub is_empty : {A : Type 0} → List A → Bool
is_empty [] = true
is_empty (x ∷ xs) = false

-- The derived equality of the entries of `new_nullifiers`: a nullifier with a digest.
abbrev pub contains_pair :
    List (Nullifier × CommitmentSetDigest) → Nullifier → CommitmentSetDigest → Bool
contains_pair [] nullifier digest = false
contains_pair (entry ∷ rest) nullifier digest =
    ((entry.0 == nullifier) && (entry.1 == digest)) || contains_pair rest nullifier digest

-- `n_unique` on the entries of `new_nullifiers`
unfoldable pub n_unique_pairs : List (Nullifier × CommitmentSetDigest) → ℕ
n_unique_pairs [] = 0
n_unique_pairs (entry ∷ rest) =
    let others = n_unique_pairs rest in
    if contains_pair rest entry.0 entry.1 then others else suc others

-- `public_account_ids.zip(public_post_states).collect()`, where the identifiers are distinct.
abbrev pub zip_accounts : List AccountId → List Account → Dict Account
zip_accounts [] accounts = []
zip_accounts (account_id ∷ ids) [] = []
zip_accounts (account_id ∷ ids) (account ∷ accounts) =
    (account_id, account) ∷ zip_accounts ids accounts

-- The `output` of `check_privacy_preserving_circuit_proof_is_valid`
abbrev pub circuit_output :
    List AccountWithMetadata → PrivateMessage → PrivacyPreservingCircuitOutput
circuit_output public_pre_states message = record {
  public_pre_states = public_pre_states;
  public_post_states = message.public_post_states;
  ciphertexts = map (λ value. value.ciphertext) message.encrypted_private_post_states;
  new_commitments = message.new_commitments;
  new_nullifiers = message.new_nullifiers;
  block_validity_window = message.block_validity_window;
  timestamp_validity_window = message.timestamp_validity_window;
}

module _ (host : Host) where
  -- `check_privacy_preserving_circuit_proof_is_valid`, with `Proof::is_valid_for`, which unwraps the
  -- decoded receipt.
  unfoldable pub check_proof :
      List ℕ → List AccountWithMetadata → PrivateMessage → Result NssaError (Unit {0})
  check_proof proof public_pre_states message = do
    valid ←
        expect (host.verify_receipt proof (circuit_output public_pre_states message))
          "called `Result::unwrap()` on an `Err` value"
    ensure valid invalid_privacy_preserving_proof

  unfoldable pub from_privacy_preserving_transaction :
      PrivacyPreservingTransaction → State → ℕ → ℕ → Result NssaError StateDiff
  unfolding check_signers build_pre_states check_proof
  from_privacy_preserving_transaction tx state block_id timestamp = do
    ensure (not (is_empty tx.message.new_commitments) || not (is_empty tx.message.new_nullifiers))
        (invalid_input "Empty commitments and empty nullifiers found in message")
    ensure (n_unique tx.message.public_account_ids == length tx.message.public_account_ids)
        (invalid_input "Duplicate account_ids found in message")
    ensure (n_unique_pairs tx.message.new_nullifiers == length tx.message.new_nullifiers)
        (invalid_input "Duplicate nullifiers found in message")
    ensure (n_unique tx.message.new_commitments == length tx.message.new_commitments)
        (invalid_input "Duplicate commitments found in message")
    check_signers host state (private_message_hash host tx.message) tx.signatures_and_public_keys
        tx.message.nonces
    ensure
        (is_valid_for tx.message.block_validity_window block_id
          && is_valid_for tx.message.timestamp_validity_window timestamp)
        out_of_validity_window
    check_proof tx.proof
        (build_pre_states state (signer_account_ids host tx.signatures_and_public_keys)
          tx.message.public_account_ids)
        tx.message
    check_commitments_are_new state tx.message.new_commitments
    check_nullifiers_are_valid state tx.message.new_nullifiers
    ok (record {
      signer_account_ids = signer_account_ids host tx.signatures_and_public_keys;
      public_diff = zip_accounts tx.message.public_account_ids tx.message.public_post_states;
      new_commitments = tx.message.new_commitments;
      new_nullifiers = map (λ entry. entry.0) tx.message.new_nullifiers;
      program = none;
    })

  -- `V03State::transition_from_privacy_preserving_transaction`
  unfoldable pub transition_from_privacy_preserving_transaction :
      PrivacyPreservingTransaction → State → ℕ → ℕ → Result NssaError State
  unfolding from_privacy_preserving_transaction
  transition_from_privacy_preserving_transaction tx state block_id timestamp = do
    diff ← from_privacy_preserving_transaction tx state block_id timestamp
    expect (apply_state_diff host state diff) "panic while applying the diff"
