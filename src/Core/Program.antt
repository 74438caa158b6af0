-- ===== src/Core/Program.antt =====
-- nssa/core/src/program.rs: the data that programs exchange with the execution environment.
-- Instruction data is a list of `u32` words, and a `PdaSeed` the number of its 32 bytes.
use logos_execution_zone.Prelude.{
  ℕ, Option, none, some, List, [], Result, ok, ◌>>=◌, ◌==◌, if◌then◌else◌,
}
use logos_execution_zone.Core.Account.{ProgramId, default_program_id, Account, AccountWithMetadata}
use logos_execution_zone.Core.Window.{ValidityWindow, InvalidWindow, new_unbounded, try_from}

-- `MAX_NUMBER_CHAINED_CALLS`
abbrev pub max_number_chained_calls : ℕ
max_number_chained_calls = 10

abbrev pub InstructionData : Type 0
InstructionData = List ℕ

abbrev pub PdaSeed : Type 0
PdaSeed = ℕ

pub record ProgramInput (T : Type 0) : Type 0 where
  pub self_program_id : ProgramId
  pub caller_program_id : Option ProgramId
  pub pre_states : List AccountWithMetadata
  pub instruction : T

pub data Claim : Type 0 where
  authorized : Claim
  pda : PdaSeed → Claim

pub record AccountPostState : Type 0 where
  pub account : Account
  pub claim : Option Claim

-- `AccountPostState::new`
abbrev pub post_state : Account → AccountPostState
post_state account = record { account = account; claim = none }

abbrev pub new_claimed : Account → Claim → AccountPostState
new_claimed account claim = record { account = account; claim = some claim }

abbrev pub new_claimed_if_default : Account → Claim → AccountPostState
new_claimed_if_default account claim = record {
  account = account;
  claim = if account.program_owner == default_program_id then some claim else none;
}

pub record ChainedCall : Type 0 where
  pub program_id : ProgramId
  pub pre_states : List AccountWithMetadata
  pub instruction_data : InstructionData
  pub pda_seeds : List PdaSeed

-- `ChainedCall::new`, on an instruction that is serialised already.
abbrev pub chained_call : ProgramId → List AccountWithMetadata → InstructionData → ChainedCall
chained_call program_id pre_states instruction_data = record {
  program_id = program_id;
  pre_states = pre_states;
  instruction_data = instruction_data;
  pda_seeds = [];
}

abbrev pub with_pda_seeds : ChainedCall → List PdaSeed → ChainedCall
with_pda_seeds call seeds = record call { pda_seeds = seeds }

pub record ProgramOutput : Type 0 where
  pub self_program_id : ProgramId
  pub caller_program_id : Option ProgramId
  pub instruction_data : InstructionData
  pub pre_states : List AccountWithMetadata
  pub post_states : List AccountPostState
  pub chained_calls : List ChainedCall
  pub block_validity_window : ValidityWindow
  pub timestamp_validity_window : ValidityWindow

-- `ProgramOutput::new`
abbrev pub program_output :
    ProgramId
    → Option ProgramId
    → InstructionData
    → List AccountWithMetadata
    → List AccountPostState
    → ProgramOutput
program_output self caller instruction_data pre_states post_states = record {
  self_program_id = self;
  caller_program_id = caller;
  instruction_data = instruction_data;
  pre_states = pre_states;
  post_states = post_states;
  chained_calls = [];
  block_validity_window = new_unbounded;
  timestamp_validity_window = new_unbounded;
}

abbrev pub with_chained_calls : ProgramOutput → List ChainedCall → ProgramOutput
with_chained_calls output calls = record output { chained_calls = calls }

abbrev pub with_block_validity_window : ProgramOutput → ValidityWindow → ProgramOutput
with_block_validity_window output window = record output { block_validity_window = window }

unfoldable pub valid_from_timestamp : ProgramOutput → Option ℕ → Result InvalidWindow ProgramOutput
valid_from_timestamp output ts = do
  window ← try_from ts output.timestamp_validity_window.end
  ok (record output { timestamp_validity_window = window })

unfoldable pub valid_until_timestamp : ProgramOutput → Option ℕ → Result InvalidWindow ProgramOutput
valid_until_timestamp output ts = do
  window ← try_from output.timestamp_validity_window.start ts
  ok (record output { timestamp_validity_window = window })
