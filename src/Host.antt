-- ===== src/Host.antt =====
-- What the program takes from other crates: the digest of `sha2` and `risc0_zkvm`, the signature
-- check of `k256`, the derived `borsh` encodings, and the execution, the image identifiers and the
-- receipts of `risc0`. Also the identifiers of the built-in programs, which the build computes.
use logos_execution_zone.Prelude.{ℕ, Bool, Option, List, ◌++◌, codes, replicate, le_bytes}
use logos_execution_zone.Core.Account.{AccountId, ProgramId, AccountWithMetadata}
use logos_execution_zone.Core.Program.{InstructionData, ProgramOutput, PdaSeed}
use logos_execution_zone.Transactions.{
  Signature, PublicKey, PublicMessage, PrivateMessage, PrivacyPreservingCircuitOutput,
}

pub record Host : Type 0 where
  -- SHA-256 of the bytes, as the number of the 32 bytes of the digest
  pub sha256 : List ℕ → ℕ
  -- `VerifyingKey::verify_raw` of `k256::schnorr`, and no for a key or a signature it cannot read
  pub verify_raw : PublicKey → ℕ → Signature → Bool
  -- `borsh::to_vec` of a message
  pub public_message_to_bytes : PublicMessage → List ℕ
  pub private_message_to_bytes : PrivateMessage → List ℕ
  -- the session of the executor on the bytecode and the inputs, and the output in its journal; `None` is
  -- an error of the executor or of the journal's decoding
  pub run_session :
      List ℕ
      → ProgramId
      → Option ProgramId
      → List AccountWithMetadata
      → InstructionData
      → Option ProgramOutput
  -- `ProgramBinary::decode` and `compute_image_id`
  pub image_id : List ℕ → Option ProgramId
  -- the receipt that the bytes of a proof encode, verified against the privacy preserving circuit;
  -- `None` is a decoding error
  pub verify_receipt : List ℕ → PrivacyPreservingCircuitOutput → Option Bool
  -- `CLOCK_ID` and `FAUCET_ID`
  pub clock_id : ProgramId
  pub faucet_id : ProgramId

module _ (host : Host) where
  -- `AccountId::from(&PublicKey)`
  unfoldable pub account_id_of_public_key : PublicKey → AccountId
  account_id_of_public_key key =
      host.sha256 (codes "/LEE/v0.3/AccountId/Public/" ++ replicate 5 0 ++ le_bytes 32 key)

  -- `AccountId::for_public_pda`
  unfoldable pub for_public_pda : ProgramId → PdaSeed → AccountId
  for_public_pda program_id seed = host.sha256 (
      codes "/NSSA/v0.2/AccountId/PDA/"
      ++ replicate 7 0
      ++ le_bytes 32 program_id
      ++ le_bytes 32 seed)

  -- `public_transaction::Message::hash`
  unfoldable pub public_message_hash : PublicMessage → ℕ
  public_message_hash message =
      host.sha256
        (codes "/LEE/v0.3/Message/Public/" ++ replicate 7 0 ++ host.public_message_to_bytes message)

  -- `privacy_preserving_transaction::Message::hash`
  unfoldable pub private_message_hash : PrivateMessage → ℕ
  private_message_hash message =
      host.sha256 (
        codes "/LEE/v0.3/Message/Privacy/"
        ++ replicate 6 0
        ++ host.private_message_to_bytes message)
