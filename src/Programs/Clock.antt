-- ===== src/Programs/Clock.antt =====
-- program_methods/guest/src/bin/clock.rs, with the data of programs/clock/core: three accounts that
-- hold the block and its time, refreshed every 1, 10 and 50 blocks.
pub mod Ticks
use logos_execution_zone.Prelude.{
  ℕ, String, Bool, true, false, not, ◌||◌, ◌&&◌, Option, none, some, List, [], ◌∷◌, Guest, ok,
  panic, ◌>>=◌, ◌>>◌, assert, expect, ◌==◌, ◌%◌, ◌+◌, ◌≤◌, ◌≡◌, u64_max, leb, if◌then◌else◌,
}
use logos_execution_zone.Core.Account.{AccountId, ProgramId, AccountWithMetadata}
use logos_execution_zone.Core.Program.{
  ProgramInput, ProgramOutput, InstructionData, AccountPostState, post_state, program_output,
}
use logos_execution_zone.Token.Core.{data_from_bytes}
use logos_execution_zone.Transaction.{clock_account_id, number_of_bytes}

pub record ClockAccountData : Type 0 where
  pub block_id : ℕ
  pub timestamp : ℕ

-- `borsh` on the data; `None` is a decoding error.
pub record ClockCodec : Type 0 where
  pub to_bytes : ClockAccountData → List ℕ
  pub from_bytes : List ℕ → Option ClockAccountData

-- Decoding an encoding of two `u64` gives the value back.
abbrev pub IsClockCodec : ClockCodec → Type 0
IsClockCodec codec =
    (clock : ClockAccountData)
    → clock.block_id ≤ u64_max
    → clock.timestamp ≤ u64_max
    → codec.from_bytes (codec.to_bytes clock) ≡ some clock

-- `checked_add(1)` on `u64`
abbrev pub next_block_id : ℕ → Option ℕ
next_block_id block_id = if leb (block_id + 1) u64_max then some (block_id + 1) else none

unfoldable pub update_if_multiple : AccountWithMetadata → ℕ → ℕ → List ℕ → Guest AccountPostState
update_if_multiple pre divisor current_block_id updated_data =
    if (current_block_id % divisor) == 0
    then (data_from_bytes updated_data "Clock account data should fit in account data" >>= λ bytes.
        ok (post_state (record pre.account { account_data = bytes })))
    else ok (post_state pre.account)

-- An account that is not the clock account expected in its place.
unfoldable pub has_other_account :
    AccountWithMetadata → AccountWithMetadata → AccountWithMetadata → Bool
unfolding number_of_bytes
has_other_account pre_01 pre_10 pre_50 =
    not (pre_01.account_id == clock_account_id "/LEZ/ClockProgramAccount/0000001")
    || not (pre_10.account_id == clock_account_id "/LEZ/ClockProgramAccount/0000010")
    || not (pre_50.account_id == clock_account_id "/LEZ/ClockProgramAccount/0000050")

-- An account that the program does not own.
abbrev pub has_other_owner :
    ProgramId → AccountWithMetadata → AccountWithMetadata → AccountWithMetadata → Bool
has_other_owner self_program_id pre_01 pre_10 pre_50 =
    not (pre_01.account.program_owner == self_program_id)
    || not (pre_10.account.program_owner == self_program_id)
    || not (pre_50.account.program_owner == self_program_id)

module _ (codec : ClockCodec) where
  -- `main` on its three accounts, after their number has been checked.
  unfoldable pub tick :
      ProgramId
      → AccountWithMetadata
      → AccountWithMetadata
      → AccountWithMetadata
      → ℕ
      → Guest (List AccountPostState)
  unfolding update_if_multiple has_other_account
  tick self_program_id pre_01 pre_10 pre_50 timestamp = do
    assert (not (has_other_account pre_01 pre_10 pre_50)) "Invalid input accounts"
    assert (not (has_other_owner self_program_id pre_01 pre_10 pre_50))
        "Clock accounts must be owned by the clock program"
    previous ←
        expect (codec.from_bytes pre_01.account.account_data)
          "ClockAccountData deserialization should not fail"
    current_block_id ←
        expect (next_block_id previous.block_id) "Next block id should be within u64 boundaries"
    let updated_data =
        codec.to_bytes (record { block_id = current_block_id; timestamp = timestamp })
    post_01 ← update_if_multiple pre_01 1 current_block_id updated_data
    post_10 ← update_if_multiple pre_10 10 current_block_id updated_data
    post_50 ← update_if_multiple pre_50 50 current_block_id updated_data
    ok (post_01 ∷ post_10 ∷ post_50 ∷ [])

  unfoldable pub run_clock :
      ProgramId → List AccountWithMetadata → ℕ → Guest (List AccountPostState)
  unfolding tick
  run_clock self_program_id (pre_01 ∷ pre_10 ∷ pre_50 ∷ []) timestamp =
      tick self_program_id pre_01 pre_10 pre_50 timestamp
  run_clock self_program_id pre_states timestamp = panic "Invalid number of input accounts"

  unfoldable pub clock_main : ProgramInput ℕ → InstructionData → Guest ProgramOutput
  unfolding run_clock
  clock_main input words = do
    post_states ← run_clock input.self_program_id input.pre_states input.instruction
    ok (
        program_output input.self_program_id input.caller_program_id words input.pre_states
          post_states)
