-- ===== src/Programs/AuthTransfer.antt =====
-- program_methods/guest/src/bin/authenticated_transfer.rs: native balance moves between accounts.
pub mod Accepted
use logos_execution_zone.Prelude.{
  ℕ, Bool, Option, List, [], ◌∷◌, Guest, ok, panic, ◌>>=◌, ◌>>◌, assert, expect, checked_add,
  checked_sub, if◌then◌else◌, ◌==◌,
}
use logos_execution_zone.Core.Account.{
  Account, AccountWithMetadata, default_account, default_program_id, account_eq,
}
use logos_execution_zone.Core.Program.{
  ProgramInput, ProgramOutput, InstructionData, AccountPostState, authorized, post_state,
  new_claimed, program_output,
}

-- programs/authenticated_transfer/core/src/lib.rs
pub data Instruction : Type 0 where
  initialize : Instruction
  transfer_amount : ℕ → Instruction

unfoldable pub initialize_account : AccountWithMetadata → Guest AccountPostState
initialize_account pre_state = do
  assert (account_eq pre_state.account default_account) "Account must be uninitialized"
  ok (new_claimed pre_state.account authorized)

unfoldable pub transfer :
    AccountWithMetadata → AccountWithMetadata → ℕ → Guest (List AccountPostState)
transfer sender recipient balance_to_move = do
  assert sender.is_authorized "Sender must be authorized"
  sender_balance ←
      expect (checked_sub sender.account.balance balance_to_move) "Sender has insufficient balance"
  recipient_balance ←
      expect (checked_add recipient.account.balance balance_to_move) "Recipient balance overflow"
  let sender_post = record sender.account { balance = sender_balance }
  let recipient_post = record recipient.account { balance = recipient_balance }
  ok (
      post_state sender_post
      ∷ (if recipient_post.program_owner == default_program_id
          then new_claimed recipient_post authorized
          else post_state recipient_post)
      ∷ [])

-- The accounts that each instruction takes.
unfoldable pub run_instruction :
    Instruction → List AccountWithMetadata → Guest (List AccountPostState)
unfolding initialize_account transfer
run_instruction initialize (account_to_claim ∷ []) = do
  post ← initialize_account account_to_claim
  ok (post ∷ [])
run_instruction initialize pre_states = panic "Initialize requires exactly 1 account"
run_instruction (transfer_amount amount) (sender ∷ recipient ∷ []) =
    transfer sender recipient amount
run_instruction (transfer_amount amount) pre_states = panic "Transfer requires exactly 2 accounts"

unfoldable pub main : ProgramInput Instruction → InstructionData → Guest ProgramOutput
unfolding run_instruction
main input words = do
  post_states ← run_instruction input.instruction input.pre_states
  ok (
      program_output input.self_program_id input.caller_program_id words input.pre_states
        post_states)
