-- ===== src/Amm/Remove.antt =====
-- programs/amm/src/remove.rs: withdrawals of both tokens of a pool for liquidity tokens.
pub mod Share
use logos_execution_zone.Prelude.{
  ℕ, Bool, not, String, List, [], ◌∷◌, map, Guest, ok, ◌>>=◌, ◌>>◌, assert, expect, leb, ◌==◌,
  wrapping_sub, wrapping_mul,
}
use logos_execution_zone.Core.Account.{AccountWithMetadata}
use logos_execution_zone.Core.Program.{
  AccountPostState, post_state, ChainedCall, chained_call, with_pda_seeds,
}
use logos_execution_zone.Host.{Host}
use logos_execution_zone.Token.Core.{Codec, definition_id_of}
use logos_execution_zone.Token.Core as Token
use logos_execution_zone.Programs.Vault.{authorize, unchanged_post_states}
use logos_execution_zone.Amm.Core.{
  PoolDefinition, PoolCodec, data_from_pool, fungible_balance, divide, compute_vault_pda_seed,
  compute_liquidity_token_pda_seed,
}

-- The amounts that a withdrawal pays and the liquidity tokens that it burns.
pub record Withdrawal : Type 0 where
  pub withdraw_amount_a : ℕ
  pub withdraw_amount_b : ℕ
  pub delta_lp : ℕ

-- Steps 2 to 4 of `remove_liquidity`, after the checks of the user's holding.
unfoldable pub withdrawal_amounts :
    PoolDefinition
    → (remove_liquidity_amount min_amount_to_remove_token_a min_amount_to_remove_token_b : ℕ)
    → Guest Withdrawal
withdrawal_amounts pool_def_data remove_liquidity_amount min_amount_to_remove_token_a
      min_amount_to_remove_token_b =
    do
      withdraw_amount_a ←
          divide (wrapping_mul pool_def_data.reserve_a remove_liquidity_amount)
            pool_def_data.liquidity_pool_supply
      withdraw_amount_b ←
          divide (wrapping_mul pool_def_data.reserve_b remove_liquidity_amount)
            pool_def_data.liquidity_pool_supply
      assert (leb min_amount_to_remove_token_a withdraw_amount_a)
          "Insufficient minimal withdraw amount (Token A) provided for liquidity amount"
      assert (leb min_amount_to_remove_token_b withdraw_amount_b)
          "Insufficient minimal withdraw amount (Token B) provided for liquidity amount"
      delta_lp ←
          divide (wrapping_mul pool_def_data.liquidity_pool_supply remove_liquidity_amount)
            pool_def_data.liquidity_pool_supply
      ok (record {
        withdraw_amount_a = withdraw_amount_a;
        withdraw_amount_b = withdraw_amount_b;
        delta_lp = delta_lp;
      })

-- Step 5: the pool after a withdrawal.
unfoldable pub withdrawn_pool : PoolDefinition → Withdrawal → PoolDefinition
withdrawn_pool pool_def_data withdrawal =
    let left = wrapping_sub pool_def_data.liquidity_pool_supply withdrawal.delta_lp in
    record pool_def_data {
      liquidity_pool_supply = left;
      reserve_a = wrapping_sub pool_def_data.reserve_a withdrawal.withdraw_amount_a;
      reserve_b = wrapping_sub pool_def_data.reserve_b withdrawal.withdraw_amount_b;
      active = not (left == 0);
    }

module _ (codec : Codec) (pools : PoolCodec) (host : Host) where
  -- Step 1 and the checks of step 2.
  unfoldable pub validate_withdrawal :
      AccountWithMetadata
      → AccountWithMetadata
      → AccountWithMetadata
      → AccountWithMetadata
      → AccountWithMetadata
      → (min_amount_to_remove_token_a min_amount_to_remove_token_b : ℕ) → Guest PoolDefinition
  validate_withdrawal pool vault_a vault_b pool_definition_lp user_holding_lp
        min_amount_to_remove_token_a min_amount_to_remove_token_b =
      do
        pool_def_data ←
            expect (pools.decode_pool pool.account.account_data)
              "Remove liquidity: AMM Program expects a valid Pool Definition Account"
        assert pool_def_data.active "Pool is inactive"
        assert (pool_def_data.liquidity_pool_id == pool_definition_lp.account_id)
            "LP definition mismatch"
        assert (vault_a.account_id == pool_def_data.vault_a_id) "Vault A was not provided"
        assert (vault_b.account_id == pool_def_data.vault_b_id) "Vault B was not provided"
        assert (not (min_amount_to_remove_token_a == 0)) "Minimum withdraw amount must be nonzero"
        assert (not (min_amount_to_remove_token_b == 0)) "Minimum withdraw amount must be nonzero"
        user_holding_lp_data ←
            expect (codec.decode_holding user_holding_lp.account.account_data)
              "Remove liquidity: AMM Program expects a valid Token Account for liquidity token"
        user_lp_balance ←
            fungible_balance user_holding_lp_data
              "Remove liquidity: AMM Program expects a valid Fungible Token Holding Account for liquidity token"
        assert (leb user_lp_balance pool_def_data.liquidity_pool_supply)
            "Invalid liquidity account provided"
        assert (definition_id_of user_holding_lp_data == pool_def_data.liquidity_pool_id)
            "Invalid liquidity account provided"
        ok pool_def_data

  -- The calls of step 5: liquidity tokens burned, then the transfers out of the two vaults.
  unfoldable pub withdrawal_calls :
      AccountWithMetadata
      → AccountWithMetadata
      → AccountWithMetadata
      → AccountWithMetadata
      → AccountWithMetadata
      → AccountWithMetadata
      → AccountWithMetadata
      → PoolDefinition
      → Withdrawal
      → List ChainedCall
  unfolding compute_vault_pda_seed compute_liquidity_token_pda_seed
  withdrawal_calls pool vault_a vault_b pool_definition_lp user_holding_a user_holding_b
        user_holding_lp pool_def_data withdrawal =
      let token_program_id = user_holding_a.account.program_owner in
      with_pda_seeds
        (chained_call token_program_id (authorize pool_definition_lp ∷ user_holding_lp ∷ [])
          (pools.token_words (Token.burn withdrawal.delta_lp)))
        (compute_liquidity_token_pda_seed host pool.account_id ∷ [])
      ∷ with_pda_seeds
          (chained_call token_program_id (authorize vault_b ∷ user_holding_b ∷ [])
            (pools.token_words (Token.transfer withdrawal.withdraw_amount_b)))
          (compute_vault_pda_seed host pool.account_id pool_def_data.definition_token_b_id ∷ [])
      ∷ with_pda_seeds
          (chained_call token_program_id (authorize vault_a ∷ user_holding_a ∷ [])
            (pools.token_words (Token.transfer withdrawal.withdraw_amount_a)))
          (compute_vault_pda_seed host pool.account_id pool_def_data.definition_token_a_id ∷ [])
      ∷ []

  -- Step 5: the accounts and the calls that are returned.
  unfoldable pub settle_withdrawal :
      AccountWithMetadata
      → AccountWithMetadata
      → AccountWithMetadata
      → AccountWithMetadata
      → AccountWithMetadata
      → AccountWithMetadata
      → AccountWithMetadata
      → PoolDefinition
      → Withdrawal
      → Guest (List AccountPostState × List ChainedCall)
  unfolding withdrawn_pool withdrawal_calls
  settle_withdrawal pool vault_a vault_b pool_definition_lp user_holding_a user_holding_b
        user_holding_lp pool_def_data withdrawal =
      do
        pool_data ← data_from_pool pools (withdrawn_pool pool_def_data withdrawal)
        ok (
          post_state (record pool.account { account_data = pool_data })
              ∷ unchanged_post_states (
                  vault_a ∷ vault_b ∷ pool_definition_lp ∷ user_holding_a ∷ user_holding_b
                  ∷ user_holding_lp ∷ []),
          withdrawal_calls pool vault_a vault_b pool_definition_lp user_holding_a user_holding_b
              user_holding_lp pool_def_data withdrawal,
        )

  -- `remove_liquidity_amount` is not zero: the program's `main` has checked it.
  unfoldable pub remove_liquidity :
      AccountWithMetadata
      → AccountWithMetadata
      → AccountWithMetadata
      → AccountWithMetadata
      → AccountWithMetadata
      → AccountWithMetadata
      → AccountWithMetadata
      → (remove_liquidity_amount min_amount_to_remove_token_a min_amount_to_remove_token_b : ℕ)
      → Guest (List AccountPostState × List ChainedCall)
  unfolding validate_withdrawal withdrawal_amounts settle_withdrawal
  remove_liquidity pool vault_a vault_b pool_definition_lp user_holding_a user_holding_b
        user_holding_lp remove_liquidity_amount min_amount_to_remove_token_a
        min_amount_to_remove_token_b =
      do
        pool_def_data ←
            validate_withdrawal pool vault_a vault_b pool_definition_lp user_holding_lp
              min_amount_to_remove_token_a min_amount_to_remove_token_b
        withdrawal ←
            withdrawal_amounts pool_def_data remove_liquidity_amount min_amount_to_remove_token_a
              min_amount_to_remove_token_b
        settle_withdrawal pool vault_a vault_b pool_definition_lp user_holding_a user_holding_b
            user_holding_lp pool_def_data withdrawal
