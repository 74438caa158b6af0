-- ===== src/Amm/New.antt =====
-- programs/amm/src/new_definition.rs: the set-up of a pool. The square root of the standard library is
-- the floor of the root, found here by counting up to it from the bits of the argument.
pub mod Root
pub mod Setup
use logos_execution_zone.Prelude.{
  ℕ, zero, suc, ◌+◌, ◌*◌, ◌^◌, Bool, not, String, List, [], ◌∷◌, map, Guest, ok, ◌>>=◌, ◌>>◌,
  assert, expect, leb, ◌==◌, if◌then◌else◌, codes, wrapping_mul, true,
}
use logos_execution_zone.Core.Account.{
  AccountId, ProgramId, AccountWithMetadata, default_account, account_eq,
}
use logos_execution_zone.Core.Program.{
  AccountPostState, post_state, new_claimed_if_default, pda, ChainedCall, chained_call,
  with_pda_seeds,
}
use logos_execution_zone.Host.{Host}
use logos_execution_zone.Token.Core.{Codec, definition_id_of}
use logos_execution_zone.Token.Core as Token
use logos_execution_zone.Programs.Vault.{authorize, unchanged_post_states}
use logos_execution_zone.Amm.Core.{
  PoolDefinition, default_pool_definition, PoolCodec, data_from_pool, compute_pool_pda_seed,
  compute_pool_pda, compute_vault_pda, compute_liquidity_token_pda, compute_vault_pda_seed,
  compute_liquidity_token_pda_seed,
}

-- The largest number from `root` that differs from it in the lowest `k` bits and whose square is at
-- most `n`.
unfoldable pub root_from : ℕ → ℕ → ℕ → ℕ
root_from zero root n = root
root_from (suc k) root n =
    root_from k (if leb ((root + 2 ^ k) * (root + 2 ^ k)) n then root + 2 ^ k else root) n

-- `n.isqrt()` on `u128`
unfoldable pub isqrt : ℕ → ℕ
unfolding root_from
isqrt n = root_from 64 0 n

module _ (codec : Codec) (pools : PoolCodec) (host : Host) where
  -- The pool that an account already holds.
  unfoldable pub pool_account_data : AccountWithMetadata → Guest PoolDefinition
  pool_account_data pool =
      if account_eq pool.account default_account
      then ok default_pool_definition
      else expect (pools.decode_pool pool.account.account_data)
          "AMM program expects a valid Pool account"

  -- The checks before the minting: the definitions of the two tokens.
  unfoldable pub validate_new_pool :
      AccountWithMetadata
      → AccountWithMetadata
      → AccountWithMetadata
      → AccountWithMetadata
      → AccountWithMetadata
      → AccountWithMetadata
      → ProgramId
      → Guest (AccountId × AccountId)
  unfolding compute_pool_pda compute_vault_pda compute_liquidity_token_pda pool_account_data
  validate_new_pool pool vault_a vault_b pool_definition_lp user_holding_a user_holding_b
        amm_program_id =
      do
        holding_a ←
            expect (codec.decode_holding user_holding_a.account.account_data)
              "New definition: AMM Program expects valid Token Holding account for Token A"
        holding_b ←
            expect (codec.decode_holding user_holding_b.account.account_data)
              "New definition: AMM Program expects valid Token Holding account for Token B"
        assert (user_holding_b.account.program_owner == user_holding_a.account.program_owner)
            "User Token holdings must use the same Token Program"
        assert (not (definition_id_of holding_a == definition_id_of holding_b))
            "Cannot set up a swap for a token with itself"
        pool_pda ←
            compute_pool_pda host amm_program_id (definition_id_of holding_a)
              (definition_id_of holding_b)
        assert (pool.account_id == pool_pda) "Pool Definition Account ID does not match PDA"
        assert
            (vault_a.account_id
              == compute_vault_pda host amm_program_id pool.account_id (definition_id_of holding_a))
            "Vault ID does not match PDA"
        assert
            (vault_b.account_id
              == compute_vault_pda host amm_program_id pool.account_id (definition_id_of holding_b))
            "Vault ID does not match PDA"
        assert
            (pool_definition_lp.account_id
              == compute_liquidity_token_pda host amm_program_id pool.account_id)
            "Liquidity pool Token Definition Account ID does not match PDA"
        existing ← pool_account_data pool
        assert (not existing.active) "Cannot initialize an active Pool Definition"
        ok (definition_id_of holding_a, definition_id_of holding_b)

  -- The pool that is set up.
  unfoldable pub pool_post_definition :
      AccountWithMetadata
      → AccountWithMetadata
      → AccountWithMetadata
      → (definition_token_a_id definition_token_b_id : AccountId)
      → (token_a_amount token_b_amount : ℕ) → PoolDefinition
  unfolding isqrt
  pool_post_definition vault_a vault_b pool_definition_lp definition_token_a_id
        definition_token_b_id token_a_amount token_b_amount =
      record {
        definition_token_a_id = definition_token_a_id;
        definition_token_b_id = definition_token_b_id;
        vault_a_id = vault_a.account_id;
        vault_b_id = vault_b.account_id;
        liquidity_pool_id = pool_definition_lp.account_id;
        liquidity_pool_supply = isqrt (wrapping_mul token_a_amount token_b_amount);
        reserve_a = token_a_amount;
        reserve_b = token_b_amount;
        fees = 0;
        active = true;
      }

  -- The calls: liquidity tokens issued, then the transfers of the two tokens.
  unfoldable pub new_pool_calls :
      AccountWithMetadata
      → AccountWithMetadata
      → AccountWithMetadata
      → AccountWithMetadata
      → AccountWithMetadata
      → AccountWithMetadata
      → AccountWithMetadata
      → PoolDefinition
      → List ChainedCall
  unfolding compute_vault_pda_seed compute_liquidity_token_pda_seed
  new_pool_calls pool vault_a vault_b pool_definition_lp user_holding_a user_holding_b
        user_holding_lp pool_def_data =
      let token_program_id = user_holding_a.account.program_owner in
      let initial_lp = pool_def_data.liquidity_pool_supply in
      with_pda_seeds
        (chained_call token_program_id (authorize pool_definition_lp ∷ user_holding_lp ∷ []) (
          pools.token_words (
            if account_eq pool.account default_account
            then Token.new_fungible_definition (codes "LP Token") initial_lp
            else Token.mint initial_lp)))
        (compute_liquidity_token_pda_seed host pool.account_id ∷ [])
      ∷ with_pda_seeds
          (chained_call token_program_id (user_holding_b ∷ authorize vault_b ∷ [])
            (pools.token_words (Token.transfer pool_def_data.reserve_b)))
          (compute_vault_pda_seed host pool.account_id pool_def_data.definition_token_b_id ∷ [])
      ∷ with_pda_seeds
          (chained_call token_program_id (user_holding_a ∷ authorize vault_a ∷ [])
            (pools.token_words (Token.transfer pool_def_data.reserve_a)))
          (compute_vault_pda_seed host pool.account_id pool_def_data.definition_token_a_id ∷ [])
      ∷ []

  -- The two amounts are not zero: the program's `main` has checked it.
  unfoldable pub new_definition :
      AccountWithMetadata
      → AccountWithMetadata
      → AccountWithMetadata
      → AccountWithMetadata
      → AccountWithMetadata
      → AccountWithMetadata
      → AccountWithMetadata
      → (token_a_amount token_b_amount : ℕ) → ProgramId
      → Guest (List AccountPostState × List ChainedCall)
  unfolding validate_new_pool pool_post_definition new_pool_calls compute_pool_pda_seed
  new_definition pool vault_a vault_b pool_definition_lp user_holding_a user_holding_b
        user_holding_lp token_a_amount token_b_amount amm_program_id =
      do
        definitions ←
            validate_new_pool pool vault_a vault_b pool_definition_lp user_holding_a user_holding_b
              amm_program_id
        let pool_def_data =
            pool_post_definition vault_a vault_b pool_definition_lp definitions.0 definitions.1
              token_a_amount token_b_amount
        pool_data ← data_from_pool pools pool_def_data
        pool_pda_seed ← compute_pool_pda_seed host definitions.0 definitions.1
        ok (
          new_claimed_if_default (record pool.account { account_data = pool_data })
                (pda pool_pda_seed)
              ∷ unchanged_post_states (
                  vault_a ∷ vault_b ∷ pool_definition_lp ∷ user_holding_a ∷ user_holding_b
                  ∷ user_holding_lp ∷ []),
          new_pool_calls pool vault_a vault_b pool_definition_lp user_holding_a user_holding_b
              user_holding_lp pool_def_data,
        )
