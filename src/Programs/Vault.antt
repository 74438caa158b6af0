-- ===== src/Programs/Vault.antt =====
-- program_methods/guest/src/bin/vault.rs and faucet.rs, with programs/vault/core and
-- programs/faucet/core: transfers on behalf of accounts that the programs derive.
pub mod Paid
use logos_execution_zone.Prelude.{
  ℕ, String, Bool, true, Option, List, [], ◌∷◌, ◌++◌, map, Guest, ok, panic, ◌>>=◌, ◌>>◌, assert,
  ◌==◌, codes, le_bytes, ◌+◌, ◌*◌,
}
use logos_execution_zone.Core.Account.{AccountId, ProgramId, AccountWithMetadata}
use logos_execution_zone.Core.Program.{
  ProgramInput, ProgramOutput, InstructionData, AccountPostState, post_state, ChainedCall, PdaSeed,
  chained_call, with_pda_seeds, program_output, with_chained_calls,
}
use logos_execution_zone.Host.{Host, for_public_pda}
use logos_execution_zone.Programs.AuthTransfer

pub data Instruction : Type 0 where
  transfer : AccountId → ℕ → Instruction
  claim : ℕ → Instruction

-- `faucet_core::Instruction`
pub data FaucetInstruction : Type 0 where
  transfer_from_faucet : ProgramId → AccountId → ℕ → FaucetInstruction

-- The words that the serializer makes of the instructions of the called programs.
pub record Serializer : Type 0 where
  pub auth_transfer_words : AuthTransfer.Instruction → InstructionData
  pub vault_words : Instruction → InstructionData

abbrev pub unchanged_post_states : List AccountWithMetadata → List AccountPostState
unchanged_post_states = map λ pre_state. post_state pre_state.account

abbrev pub authorize : AccountWithMetadata → AccountWithMetadata
authorize pre_state = record pre_state { is_authorized = true }

-- The number of 32 bytes, as in `Transaction`, of the seed of the faucet.
unfoldable pub seed_of_bytes : List ℕ → PdaSeed
seed_of_bytes [] = 0
seed_of_bytes (byte ∷ bytes) = byte + 256 * seed_of_bytes bytes

unfoldable pub compute_faucet_seed : PdaSeed
unfolding seed_of_bytes
compute_faucet_seed = seed_of_bytes (codes "/LEZ/v0.3/FaucetSeed/0000000000/")

module _ (host : Host) where
  unfoldable pub compute_vault_seed : AccountId → PdaSeed
  compute_vault_seed owner_id =
      host.sha256 (codes "/LEZ/v0.3/VaultSeed/00000000000/" ++ le_bytes 32 owner_id)

  unfoldable pub compute_vault_account_id : ProgramId → AccountId → AccountId
  unfolding compute_vault_seed
  compute_vault_account_id vault_program_id owner_id =
      for_public_pda host vault_program_id (compute_vault_seed owner_id)

  unfoldable pub compute_faucet_account_id : ProgramId → AccountId
  unfolding compute_faucet_seed
  compute_faucet_account_id faucet_program_id =
      for_public_pda host faucet_program_id compute_faucet_seed

  module _ (serializer : Serializer) where
    -- The match of the vault's `main`: the calls that it makes.
    unfoldable pub vault_calls : Instruction → List AccountWithMetadata → Guest (List ChainedCall)
    unfolding compute_vault_seed
    vault_calls (transfer recipient_id amount) (sender ∷ recipient_vault ∷ []) = ok (
        with_pda_seeds
          (chained_call sender.account.program_owner (sender ∷ authorize recipient_vault ∷ [])
            (serializer.auth_transfer_words (AuthTransfer.transfer_amount amount)))
          (compute_vault_seed recipient_id ∷ [])
        ∷ [])
    vault_calls (transfer recipient_id amount) pre_states =
        panic "Transfer requires exactly 3 accounts"
    vault_calls (claim amount) (owner ∷ owner_vault ∷ []) = do
      assert owner.is_authorized "Owner must be authorized to claim from the vault"
      ok (
          with_pda_seeds
            (chained_call owner_vault.account.program_owner (authorize owner_vault ∷ owner ∷ [])
              (serializer.auth_transfer_words (AuthTransfer.transfer_amount amount)))
            (compute_vault_seed owner.account_id ∷ [])
          ∷ [])
    vault_calls (claim amount) pre_states = panic "Claim requires exactly 2 accounts"

    unfoldable pub vault_main : ProgramInput Instruction → InstructionData → Guest ProgramOutput
    unfolding vault_calls
    vault_main input words = do
      calls ← vault_calls input.instruction input.pre_states
      ok (
          with_chained_calls
            (program_output input.self_program_id input.caller_program_id words input.pre_states
              (unchanged_post_states input.pre_states))
            calls)

    -- The match of the faucet's `main`.
    unfoldable pub faucet_calls :
        ProgramId → FaucetInstruction → List AccountWithMetadata → Guest (List ChainedCall)
    unfolding compute_faucet_account_id compute_faucet_seed
    faucet_calls self_program_id (transfer_from_faucet vault_program_id recipient_id amount)
          (faucet ∷ recipient_vault ∷ []) =
        do
          assert (faucet.account_id == compute_faucet_account_id self_program_id)
              "First account must be faucet PDA"
          ok (
              with_pda_seeds
                (chained_call vault_program_id (authorize faucet ∷ recipient_vault ∷ [])
                  (serializer.vault_words (transfer recipient_id amount)))
                (compute_faucet_seed ∷ [])
              ∷ [])
    faucet_calls self_program_id (transfer_from_faucet vault_program_id recipient_id amount)
          pre_states =
        panic "Transfer requires exactly 2 accounts"

    unfoldable pub faucet_main :
        ProgramInput FaucetInstruction → InstructionData → Guest ProgramOutput
    unfolding faucet_calls
    faucet_main input words = do
      calls ← faucet_calls input.self_program_id input.instruction input.pre_states
      ok (
          with_chained_calls
            (program_output input.self_program_id input.caller_program_id words input.pre_states
              (unchanged_post_states input.pre_states))
            calls)
