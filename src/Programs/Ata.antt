-- ===== src/Programs/Ata.antt =====
-- programs/associated_token_account with the guest associated_token_account.rs: token holdings at
-- the account that an owner and a token determine.
pub mod Paid
use logos_execution_zone.Prelude.{
  ℕ, List, [], ◌∷◌, ◌++◌, Guest, ok, panic, ◌>>=◌, ◌>>◌, assert, expect, le_bytes, ◌==◌,
  if◌then◌else◌,
}
use logos_execution_zone.Core.Account.{
  AccountId, ProgramId, AccountWithMetadata, default_account, account_eq,
}
use logos_execution_zone.Core.Program.{
  ProgramInput, ProgramOutput, InstructionData, AccountPostState, authorized, post_state,
  new_claimed_if_default, ChainedCall, PdaSeed, chained_call, with_pda_seeds, program_output,
  with_chained_calls,
}
use logos_execution_zone.Host.{Host, for_public_pda}
use logos_execution_zone.Token.Core.{Codec, definition_id_of}
use logos_execution_zone.Token.Core as Token
use logos_execution_zone.Programs.Vault.{authorize}

pub data Instruction : Type 0 where
  create : ProgramId → Instruction
  transfer : ProgramId → ℕ → Instruction
  burn : ProgramId → ℕ → Instruction

-- The words that the serializer makes of the instructions of the token program.
abbrev pub TokenWords : Type 0
TokenWords = Token.Instruction → InstructionData

abbrev pub Effects : Type 0
Effects = List AccountPostState × List ChainedCall

module _ (host : Host) where
  unfoldable pub compute_ata_seed : AccountId → AccountId → PdaSeed
  compute_ata_seed owner_id definition_id =
      host.sha256 (le_bytes 32 owner_id ++ le_bytes 32 definition_id)

  unfoldable pub get_associated_token_account_id : ProgramId → PdaSeed → AccountId
  get_associated_token_account_id ata_program_id seed = for_public_pda host ata_program_id seed

  unfoldable pub verify_ata_and_get_seed :
      AccountWithMetadata → AccountWithMetadata → AccountId → ProgramId → Guest PdaSeed
  unfolding compute_ata_seed get_associated_token_account_id
  verify_ata_and_get_seed ata_account owner definition_id ata_program_id = do
    let seed = compute_ata_seed owner.account_id definition_id
    assert (ata_account.account_id == get_associated_token_account_id ata_program_id seed)
        "ATA account ID does not match expected derivation"
    ok seed

  module _ (codec : Codec) (token_words : TokenWords) where
    unfoldable pub create_associated_token_account :
        AccountWithMetadata → AccountWithMetadata → AccountWithMetadata → ProgramId → Guest Effects
    unfolding verify_ata_and_get_seed
    create_associated_token_account owner token_definition ata_account ata_program_id = do
      ata_seed ←
          verify_ata_and_get_seed ata_account owner token_definition.account_id ata_program_id
      let post_states =
          new_claimed_if_default owner.account authorized
          ∷ post_state token_definition.account
          ∷ post_state ata_account.account
          ∷ []
      if account_eq ata_account.account default_account
          then ok (
            post_states,
            with_pda_seeds
                  (chained_call token_definition.account.program_owner
                    (token_definition ∷ authorize ata_account ∷ [])
                    (token_words Token.initialize_account))
                  (ata_seed ∷ [])
                ∷ [],
          )
          else ok (post_states, [])

    unfoldable pub transfer_from_associated_token_account :
        AccountWithMetadata
        → AccountWithMetadata
        → AccountWithMetadata
        → ProgramId
        → ℕ
        → Guest Effects
    unfolding verify_ata_and_get_seed
    transfer_from_associated_token_account owner sender_ata recipient ata_program_id amount = do
      assert owner.is_authorized "Owner authorization is missing"
      holding ←
          expect (codec.decode_holding sender_ata.account.account_data)
            "Sender ATA must hold a valid token"
      seed ← verify_ata_and_get_seed sender_ata owner (definition_id_of holding) ata_program_id
      ok (
        post_state owner.account
            ∷ post_state sender_ata.account
            ∷ post_state recipient.account
            ∷ [],
        with_pda_seeds
              (chained_call sender_ata.account.program_owner (authorize sender_ata ∷ recipient ∷ [])
                (token_words (Token.transfer amount)))
              (seed ∷ [])
            ∷ [],
      )

    unfoldable pub burn_from_associated_token_account :
        AccountWithMetadata
        → AccountWithMetadata
        → AccountWithMetadata
        → ProgramId
        → ℕ
        → Guest Effects
    unfolding verify_ata_and_get_seed
    burn_from_associated_token_account owner holder_ata token_definition ata_program_id amount = do
      assert owner.is_authorized "Owner authorization is missing"
      holding ←
          expect (codec.decode_holding holder_ata.account.account_data)
            "Holder ATA must hold a valid token"
      seed ← verify_ata_and_get_seed holder_ata owner (definition_id_of holding) ata_program_id
      ok (
        post_state owner.account
            ∷ post_state holder_ata.account
            ∷ post_state token_definition.account
            ∷ [],
        with_pda_seeds
              (chained_call holder_ata.account.program_owner
                (token_definition ∷ authorize holder_ata ∷ []) (token_words (Token.burn amount)))
              (seed ∷ [])
            ∷ [],
      )

    -- The match of `main` on the instruction and the accounts that it takes.
    unfoldable pub run_instruction : Instruction → List AccountWithMetadata → Guest Effects
    unfolding create_associated_token_account transfer_from_associated_token_account
        burn_from_associated_token_account
    run_instruction (create ata_program_id) (owner ∷ token_definition ∷ ata_account ∷ []) =
        create_associated_token_account owner token_definition ata_account ata_program_id
    run_instruction (create ata_program_id) pre_states =
        panic "Create instruction requires exactly three accounts"
    run_instruction (transfer ata_program_id amount) (owner ∷ sender_ata ∷ recipient ∷ []) =
        transfer_from_associated_token_account owner sender_ata recipient ata_program_id amount
    run_instruction (transfer ata_program_id amount) pre_states =
        panic "Transfer instruction requires exactly three accounts"
    run_instruction (burn ata_program_id amount) (owner ∷ holder_ata ∷ token_definition ∷ []) =
        burn_from_associated_token_account owner holder_ata token_definition ata_program_id amount
    run_instruction (burn ata_program_id amount) pre_states =
        panic "Burn instruction requires exactly three accounts"

    unfoldable pub main : ProgramInput Instruction → InstructionData → Guest ProgramOutput
    unfolding run_instruction
    main input words = do
      result ← run_instruction input.instruction input.pre_states
      ok (
          with_chained_calls
            (program_output input.self_program_id input.caller_program_id words input.pre_states
              result.0)
            result.1)
