-- ===== src/Amm/Program.antt =====
-- program_methods/guest/src/bin/amm.rs: the instructions of the guest program.
use logos_execution_zone.Prelude.{
  ℕ, String, List, [], ◌∷◌, Guest, ok, panic, ◌>>=◌, ◌>>◌, assert, not, ◌==◌,
}
use logos_execution_zone.Core.Account.{AccountWithMetadata}
use logos_execution_zone.Core.Program.{
  ProgramInput, ProgramOutput, InstructionData, AccountPostState, ChainedCall, program_output,
  with_chained_calls,
}
use logos_execution_zone.Host.{Host}
use logos_execution_zone.Token.Core.{Codec}
use logos_execution_zone.Amm.Core.{PoolCodec, Instruction}
use logos_execution_zone.Amm.Swap as Swap
use logos_execution_zone.Amm.Add as Add
use logos_execution_zone.Amm.Remove as Remove
use logos_execution_zone.Amm.New as New

-- `NonZero::new(value).expect(message)`
abbrev pub non_zero : ℕ → String → Guest ℕ
non_zero value message = do assert (not (value == 0)) message; ok value

module _ (codec : Codec) (pools : PoolCodec) (host : Host) where
  -- The match of `main` on the instruction and the accounts that it takes.
  unfoldable pub run_instruction :
      Instruction → List AccountWithMetadata → Guest (List AccountPostState × List ChainedCall)
  unfolding Swap.swap_exact_input Swap.swap_exact_output Add.add_liquidity Remove.remove_liquidity
      New.new_definition
  run_instruction (Instruction.new_definition token_a_amount token_b_amount amm_program_id)
        (pool ∷ vault_a ∷ vault_b ∷ lp ∷ user_a ∷ user_b ∷ user_lp ∷ []) =
      do
        amount_a ← non_zero token_a_amount "Token A should have a nonzero amount"
        amount_b ← non_zero token_b_amount "Token B should have a nonzero amount"
        New.new_definition codec pools host pool vault_a vault_b lp user_a user_b user_lp amount_a
            amount_b amm_program_id
  run_instruction (Instruction.new_definition token_a_amount token_b_amount amm_program_id)
        pre_states =
      panic "Transfer instruction requires exactly seven accounts"
  run_instruction (Instruction.add_liquidity min_amount_liquidity max_a max_b)
        (pool ∷ vault_a ∷ vault_b ∷ lp ∷ user_a ∷ user_b ∷ user_lp ∷ []) =
      do
        amount ← non_zero min_amount_liquidity "Min amount of liquidity should be nonzero"
        Add.add_liquidity codec pools host pool vault_a vault_b lp user_a user_b user_lp amount
            max_a max_b
  run_instruction (Instruction.add_liquidity min_amount_liquidity max_a max_b) pre_states =
      panic "Transfer instruction requires exactly seven accounts"
  run_instruction (Instruction.remove_liquidity remove_liquidity_amount min_a min_b)
        (pool ∷ vault_a ∷ vault_b ∷ lp ∷ user_a ∷ user_b ∷ user_lp ∷ []) =
      do
        amount ← non_zero remove_liquidity_amount "Remove liquidity amount must be nonzero"
        Remove.remove_liquidity codec pools host pool vault_a vault_b lp user_a user_b user_lp
            amount min_a min_b
  run_instruction (Instruction.remove_liquidity remove_liquidity_amount min_a min_b) pre_states =
      panic "Transfer instruction requires exactly seven accounts"
  run_instruction (Instruction.swap_exact_input swap_amount_in min_amount_out token_in)
        (pool ∷ vault_a ∷ vault_b ∷ user_a ∷ user_b ∷ []) =
      Swap.swap_exact_input codec pools host pool vault_a vault_b user_a user_b swap_amount_in
        min_amount_out token_in
  run_instruction (Instruction.swap_exact_input swap_amount_in min_amount_out token_in) pre_states =
      panic "SwapExactInput instruction requires exactly five accounts"
  run_instruction (Instruction.swap_exact_output exact_amount_out max_amount_in token_in)
        (pool ∷ vault_a ∷ vault_b ∷ user_a ∷ user_b ∷ []) =
      Swap.swap_exact_output codec pools host pool vault_a vault_b user_a user_b exact_amount_out
        max_amount_in token_in
  run_instruction (Instruction.swap_exact_output exact_amount_out max_amount_in token_in)
        pre_states =
      panic "SwapExactOutput instruction requires exactly five accounts"

  unfoldable pub main : ProgramInput Instruction → InstructionData → Guest ProgramOutput
  unfolding run_instruction
  main input words = do
    result ← run_instruction input.instruction input.pre_states
    ok (
        with_chained_calls
          (program_output input.self_program_id input.caller_program_id words input.pre_states
            result.0)
          result.1)
