-- ===== src/Amm/Calls.antt =====
-- The calls of the token program in the terms of what they say: who is called, with which two accounts,
-- which words and which seeds.
use logos_execution_zone.Prelude.{true, List, [], ◌∷◌, ◌++◌, map, replicate, le_bytes, none}
use logos_execution_zone.Core.Account.{AccountId, ProgramId, AccountWithMetadata}
use logos_execution_zone.Core.Program.{AccountPostState, ChainedCall, InstructionData, PdaSeed}
use logos_execution_zone.Host.{Host}

abbrev pub token_call :
    ProgramId
    → AccountWithMetadata
    → AccountWithMetadata
    → InstructionData
    → List PdaSeed
    → ChainedCall
token_call program_id first second words seeds = record {
  program_id = program_id;
  pre_states = first ∷ second ∷ [];
  instruction_data = words;
  pda_seeds = seeds;
}

-- The account with the flag that says that it is authorised.
abbrev pub with_flag : AccountWithMetadata → AccountWithMetadata
with_flag pre = record { account = pre.account; is_authorized = true; account_id = pre.account_id }

-- Accounts that are returned as they came.
abbrev pub as_they_came : List AccountWithMetadata → List AccountPostState
as_they_came = map λ pre. record { account = pre.account; claim = none }

module _ (host : Host) (pool_id : AccountId) where
  -- The seeds of the vault of a token and of the liquidity token of a pool.
  abbrev pub vault_seed : AccountId → PdaSeed
  vault_seed token_id = host.sha256 (le_bytes 32 pool_id ++ le_bytes 32 token_id)

  abbrev pub lp_seed : PdaSeed
  lp_seed = host.sha256 (le_bytes 32 pool_id ++ replicate 32 0)
