-- ===== src/Transactions.antt =====
-- The three kinds of transactions: nssa/src/public_transaction, nssa/src/privacy_preserving_transaction,
-- nssa/src/program_deployment_transaction, and the circuit's output of nssa/core/src/circuit_io.rs.
-- Keys, digests, commitments and nullifiers are the numbers of their bytes.
use logos_execution_zone.Prelude.{ℕ, List}
use logos_execution_zone.Core.Account.{AccountId, ProgramId, Nonce, Account, AccountWithMetadata}
use logos_execution_zone.Core.Window.{ValidityWindow}
use logos_execution_zone.Core.Program.{InstructionData}

abbrev pub Signature : Type 0
Signature = ℕ

abbrev pub PublicKey : Type 0
PublicKey = ℕ

abbrev pub Commitment : Type 0
Commitment = ℕ

abbrev pub Nullifier : Type 0
Nullifier = ℕ

abbrev pub CommitmentSetDigest : Type 0
CommitmentSetDigest = ℕ

-- `public_transaction::Message`
pub record PublicMessage : Type 0 where
  pub program_id : ProgramId
  pub account_ids : List AccountId
  pub nonces : List Nonce
  pub instruction_data : InstructionData

-- The message and the `WitnessSet` of a public transaction.
pub record PublicTransaction : Type 0 where
  pub message : PublicMessage
  pub signatures_and_public_keys : List (Signature × PublicKey)

pub record EncryptedAccountData : Type 0 where
  pub ciphertext : List ℕ
  pub epk : List ℕ
  pub view_tag : ℕ

-- `privacy_preserving_transaction::message::Message`
pub record PrivateMessage : Type 0 where
  pub public_account_ids : List AccountId
  pub nonces : List Nonce
  pub public_post_states : List Account
  pub encrypted_private_post_states : List EncryptedAccountData
  pub new_commitments : List Commitment
  pub new_nullifiers : List (Nullifier × CommitmentSetDigest)
  pub block_validity_window : ValidityWindow
  pub timestamp_validity_window : ValidityWindow

-- The message and the `WitnessSet` of a privacy preserving transaction.
pub record PrivacyPreservingTransaction : Type 0 where
  pub message : PrivateMessage
  pub signatures_and_public_keys : List (Signature × PublicKey)
  pub proof : List ℕ

pub record PrivacyPreservingCircuitOutput : Type 0 where
  pub public_pre_states : List AccountWithMetadata
  pub public_post_states : List Account
  pub ciphertexts : List (List ℕ)
  pub new_commitments : List Commitment
  pub new_nullifiers : List (Nullifier × CommitmentSetDigest)
  pub block_validity_window : ValidityWindow
  pub timestamp_validity_window : ValidityWindow

pub record ProgramDeploymentTransaction : Type 0 where
  pub bytecode : List ℕ
