-- ===== src/Token/Program.antt =====
-- program_methods/guest/src/bin/token.rs: the accounts that each instruction takes, and the output.
use logos_execution_zone.Prelude.{List, [], ◌∷◌, Guest, ok, panic, ◌>>=◌}
use logos_execution_zone.Core.Account.{AccountWithMetadata}
use logos_execution_zone.Core.Program.{
  ProgramInput, ProgramOutput, InstructionData, AccountPostState, program_output,
}
use logos_execution_zone.Token.Core
use logos_execution_zone.Token.Core.{Codec}
use logos_execution_zone.Token.Transfer.{transfer}
use logos_execution_zone.Token.Supply.{mint, mint_with_authority, burn}
use logos_execution_zone.Token.Define.{
  new_fungible_definition, new_fungible_definition_with_authority, new_definition_with_metadata,
  initialize_account, print_nft, rotate_authority, revoke_authority,
}

module _ (codec : Codec) where
  unfoldable pub run_instruction :
      Core.Instruction → List AccountWithMetadata → Guest (List AccountPostState)
  run_instruction (Core.Instruction.transfer amount) (sender ∷ recipient ∷ []) =
      transfer codec sender recipient amount
  run_instruction (Core.Instruction.transfer amount) pre_states =
      panic "Transfer instruction requires exactly two accounts"
  run_instruction (Core.Instruction.new_fungible_definition name total_supply)
        (definition ∷ holding ∷ []) =
      new_fungible_definition codec definition holding name total_supply
  run_instruction (Core.Instruction.new_fungible_definition name total_supply) pre_states =
      panic "NewFungibleDefinition instruction requires exactly two accounts"
  run_instruction
        (Core.Instruction.new_fungible_definition_with_authority name total_supply authority)
        (definition ∷ holding ∷ []) =
      new_fungible_definition_with_authority codec definition holding name total_supply authority
  run_instruction
        (Core.Instruction.new_fungible_definition_with_authority name total_supply authority)
        pre_states =
      panic "NewFungibleDefinitionWithAuthority instruction requires exactly two accounts"
  run_instruction (Core.Instruction.new_definition_with_metadata new_definition metadata)
        (definition ∷ holding ∷ metadata_account ∷ []) =
      new_definition_with_metadata codec definition holding metadata_account new_definition metadata
  run_instruction (Core.Instruction.new_definition_with_metadata new_definition metadata)
        pre_states =
      panic "NewDefinitionWithMetadata instruction requires exactly three accounts"
  run_instruction Core.Instruction.initialize_account (definition ∷ account ∷ []) =
      initialize_account codec definition account
  run_instruction Core.Instruction.initialize_account pre_states =
      panic "InitializeAccount instruction requires exactly two accounts"
  run_instruction (Core.Instruction.burn amount) (definition ∷ holding ∷ []) =
      burn codec definition holding amount
  run_instruction (Core.Instruction.burn amount) pre_states =
      panic "Burn instruction requires exactly two accounts"
  run_instruction (Core.Instruction.mint amount) (definition ∷ holding ∷ []) =
      mint codec definition holding amount
  run_instruction (Core.Instruction.mint amount) pre_states =
      panic "Mint instruction requires exactly two accounts"
  run_instruction (Core.Instruction.mint_with_authority amount)
        (definition ∷ holding ∷ authority ∷ []) =
      mint_with_authority codec definition holding authority amount
  run_instruction (Core.Instruction.mint_with_authority amount) pre_states =
      panic "MintWithAuthority instruction requires exactly three accounts"
  run_instruction Core.Instruction.print_nft (master ∷ printed ∷ []) =
      print_nft codec master printed
  run_instruction Core.Instruction.print_nft pre_states =
      panic "PrintNft instruction requires exactly two accounts"
  run_instruction (Core.Instruction.rotate_authority new_admin) (definition ∷ authority ∷ []) =
      rotate_authority codec definition authority new_admin
  run_instruction (Core.Instruction.rotate_authority new_admin) pre_states =
      panic "RotateAuthority instruction requires exactly two accounts"
  run_instruction Core.Instruction.revoke_authority (definition ∷ authority ∷ []) =
      revoke_authority codec definition authority
  run_instruction Core.Instruction.revoke_authority pre_states =
      panic "RevokeAuthority instruction requires exactly two accounts"

  unfoldable pub main : ProgramInput Core.Instruction → InstructionData → Guest ProgramOutput
  unfolding run_instruction
  main input words = do
    post_states ← run_instruction input.instruction input.pre_states
    ok (
        program_output input.self_program_id input.caller_program_id words input.pre_states
          post_states)
