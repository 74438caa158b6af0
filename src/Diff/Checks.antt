-- ===== src/Diff/Checks.antt =====
-- nssa/src/validated_state_diff.rs: the checks that public and privacy preserving transactions
-- share: signatures, signers and their nonces.
pub mod Signed
use logos_execution_zone.Prelude.{
  ℕ, Bool, List, [], ◌∷◌, map, all, length, contains, Result, ok, ensure, ◌>>◌, ◌==◌,
}
use logos_execution_zone.Core.Account.{AccountId, Nonce, AccountWithMetadata}
use logos_execution_zone.Transactions.{Signature, PublicKey}
use logos_execution_zone.Host.{Host, account_id_of_public_key}
use logos_execution_zone.State.{State, get_account_by_id, NssaError, invalid_input}

-- `WitnessSet::is_valid_for` and `signatures_are_valid_for`, on the hash of the message.
unfoldable pub signatures_are_valid_for : Host → ℕ → List (Signature × PublicKey) → Bool
signatures_are_valid_for host message_hash =
    all (λ entry. host.verify_raw entry.1 message_hash entry.0)

-- `signer_account_ids`
unfoldable pub signer_account_ids : Host → List (Signature × PublicKey) → List AccountId
signer_account_ids host = map (λ entry. account_id_of_public_key host entry.1)

-- The loop that compares the nonces with those of the state; `zip` ends with the shorter list.
unfoldable pub check_nonces : State → List AccountId → List Nonce → Result NssaError (Unit {0})
check_nonces state [] nonces = ok tt
check_nonces state (account_id ∷ ids) [] = ok tt
check_nonces state (account_id ∷ ids) (nonce ∷ nonces) =
    ensure ((get_account_by_id state account_id).nonce == nonce) (invalid_input "Nonce mismatch")
    >> check_nonces state ids nonces

-- The checks on nonces and signatures, in the order of the source.
unfoldable pub check_signers :
    Host → State → ℕ → List (Signature × PublicKey) → List Nonce → Result NssaError (Unit {0})
unfolding signatures_are_valid_for signer_account_ids check_nonces
check_signers host state message_hash witnesses nonces =
    ensure (length nonces == length witnesses)
      (invalid_input "Mismatch between number of nonces and signatures/public keys")
    >> ensure (signatures_are_valid_for host message_hash witnesses)
        (invalid_input "Invalid signature for given message and public key")
    >> check_nonces state (signer_account_ids host witnesses) nonces

-- The pre states of a message: each account with whether it is among the signers.
unfoldable pub build_pre_states : State → List AccountId → List AccountId → List AccountWithMetadata
build_pre_states state signers = map λ account_id. record {
  account = get_account_by_id state account_id;
  is_authorized = contains signers account_id;
  account_id = account_id;
}
