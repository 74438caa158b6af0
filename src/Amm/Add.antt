-- ===== src/Amm/Add.antt =====
-- programs/amm/src/add.rs: deposits of both tokens of a pool for liquidity tokens.
pub mod Amounts
pub mod Share
use logos_execution_zone.Prelude.{
  ℕ, Bool, not, ◌&&◌, String, List, [], ◌∷◌, map, Guest, ok, ◌>>=◌, ◌>>◌, assert, expect, leb, ltb,
  ◌==◌, if◌then◌else◌, wrapping_add, wrapping_mul,
}
use logos_execution_zone.Core.Account.{AccountWithMetadata}
use logos_execution_zone.Core.Program.{
  AccountPostState, post_state, ChainedCall, chained_call, with_pda_seeds,
}
use logos_execution_zone.Host.{Host}
use logos_execution_zone.Token.Core.{Codec}
use logos_execution_zone.Token.Core as Token
use logos_execution_zone.Programs.Vault.{authorize, unchanged_post_states}
use logos_execution_zone.Amm.Core.{
  PoolDefinition, PoolCodec, data_from_pool, fungible_balance, divide,
  compute_liquidity_token_pda_seed,
}

-- `if ideal > max { max } else { ideal }`
abbrev pub limit : ℕ → ℕ → ℕ
limit ideal most = if ltb most ideal then most else ideal

-- `std::cmp::min`
abbrev pub min : ℕ → ℕ → ℕ
min a b = if leb a b then a else b

-- The amounts of steps 2 and 3 of `add_liquidity`.
unfoldable pub actual_amounts :
    PoolDefinition → (max_amount_to_add_token_a max_amount_to_add_token_b : ℕ) → Guest (ℕ × ℕ)
actual_amounts pool_def_data max_amount_to_add_token_a max_amount_to_add_token_b = do
  ideal_a ←
      divide (wrapping_mul pool_def_data.reserve_a max_amount_to_add_token_b)
        pool_def_data.reserve_b
  ideal_b ←
      divide (wrapping_mul pool_def_data.reserve_b max_amount_to_add_token_a)
        pool_def_data.reserve_a
  let actual_amount_a = limit ideal_a max_amount_to_add_token_a
  let actual_amount_b = limit ideal_b max_amount_to_add_token_b
  assert (leb actual_amount_a max_amount_to_add_token_a)
      "Actual trade amounts cannot exceed max_amounts"
  assert (leb actual_amount_b max_amount_to_add_token_b)
      "Actual trade amounts cannot exceed max_amounts"
  assert (not (actual_amount_a == 0)) "A trade amount is 0"
  assert (not (actual_amount_b == 0)) "A trade amount is 0"
  ok (actual_amount_a, actual_amount_b)

-- The liquidity tokens of step 4.
unfoldable pub payable_lp :
    PoolDefinition → (actual_amount_a actual_amount_b min_amount_liquidity : ℕ) → Guest ℕ
payable_lp pool_def_data actual_amount_a actual_amount_b min_amount_liquidity = do
  share_a ←
      divide (wrapping_mul pool_def_data.liquidity_pool_supply actual_amount_a)
        pool_def_data.reserve_a
  share_b ←
      divide (wrapping_mul pool_def_data.liquidity_pool_supply actual_amount_b)
        pool_def_data.reserve_b
  let delta_lp = min share_a share_b
  assert (not (delta_lp == 0)) "Payable LP must be nonzero"
  assert (leb min_amount_liquidity delta_lp) "Payable LP is less than provided minimum LP amount"
  ok delta_lp

-- Step 5: the pool after a deposit.
unfoldable pub deposited_pool : PoolDefinition → (amount_a amount_b delta_lp : ℕ) → PoolDefinition
deposited_pool pool_def_data amount_a amount_b delta_lp = record pool_def_data {
  liquidity_pool_supply = wrapping_add pool_def_data.liquidity_pool_supply delta_lp;
  reserve_a = wrapping_add pool_def_data.reserve_a amount_a;
  reserve_b = wrapping_add pool_def_data.reserve_b amount_b;
}

module _ (codec : Codec) (pools : PoolCodec) (host : Host) where
  -- Step 1 and the checks of step 2.
  unfoldable pub validate_deposit :
      AccountWithMetadata
      → AccountWithMetadata
      → AccountWithMetadata
      → AccountWithMetadata
      → (max_amount_to_add_token_a max_amount_to_add_token_b : ℕ) → Guest PoolDefinition
  validate_deposit pool vault_a vault_b pool_definition_lp max_amount_to_add_token_a
        max_amount_to_add_token_b =
      do
        pool_def_data ←
            expect (pools.decode_pool pool.account.account_data)
              "Add liquidity: AMM Program expects valid Pool Definition Account"
        assert (vault_a.account_id == pool_def_data.vault_a_id) "Vault A was not provided"
        assert (pool_def_data.liquidity_pool_id == pool_definition_lp.account_id)
            "LP definition mismatch"
        assert (vault_b.account_id == pool_def_data.vault_b_id) "Vault B was not provided"
        assert (not (max_amount_to_add_token_a == 0) && not (max_amount_to_add_token_b == 0))
            "Both max-balances must be nonzero"
        vault_b_token_holding ←
            expect (codec.decode_holding vault_b.account.account_data)
              "Add liquidity: AMM Program expects valid Token Holding Account for Vault B"
        vault_b_balance ←
            fungible_balance vault_b_token_holding
              "Add liquidity: AMM Program expects valid Fungible Token Holding Account for Vault B"
        vault_a_token_holding ←
            expect (codec.decode_holding vault_a.account.account_data)
              "Add liquidity: AMM Program expects valid Token Holding Account for Vault A"
        vault_a_balance ←
            fungible_balance vault_a_token_holding
              "Add liquidity: AMM Program expects valid Fungible Token Holding Account for Vault A"
        assert (not (pool_def_data.reserve_a == 0)) "Reserves must be nonzero"
        assert (not (pool_def_data.reserve_b == 0)) "Reserves must be nonzero"
        assert (leb pool_def_data.reserve_a vault_a_balance)
            "Vaults' balances must be at least the reserve amounts"
        assert (leb pool_def_data.reserve_b vault_b_balance)
            "Vaults' balances must be at least the reserve amounts"
        ok pool_def_data

  -- The calls of step 5: liquidity tokens minted, then the transfers of the two tokens.
  unfoldable pub deposit_calls :
      AccountWithMetadata
      → AccountWithMetadata
      → AccountWithMetadata
      → AccountWithMetadata
      → AccountWithMetadata
      → AccountWithMetadata
      → AccountWithMetadata
      → (amount_a amount_b delta_lp : ℕ) → List ChainedCall
  unfolding compute_liquidity_token_pda_seed
  deposit_calls pool vault_a vault_b pool_definition_lp user_holding_a user_holding_b
        user_holding_lp amount_a amount_b delta_lp =
      let token_program_id = user_holding_a.account.program_owner in
      with_pda_seeds
        (chained_call token_program_id (authorize pool_definition_lp ∷ user_holding_lp ∷ [])
          (pools.token_words (Token.mint delta_lp)))
        (compute_liquidity_token_pda_seed host pool.account_id ∷ [])
      ∷ chained_call token_program_id (user_holding_b ∷ vault_b ∷ [])
          (pools.token_words (Token.transfer amount_b))
      ∷ chained_call token_program_id (user_holding_a ∷ vault_a ∷ [])
          (pools.token_words (Token.transfer amount_a))
      ∷ []

  -- Step 5: the accounts and the calls that are returned.
  unfoldable pub settle_deposit :
      AccountWithMetadata
      → AccountWithMetadata
      → AccountWithMetadata
      → AccountWithMetadata
      → AccountWithMetadata
      → AccountWithMetadata
      → AccountWithMetadata
      → PoolDefinition
      → (amount_a amount_b delta_lp : ℕ) → Guest (List AccountPostState × List ChainedCall)
  unfolding deposited_pool deposit_calls
  settle_deposit pool vault_a vault_b pool_definition_lp user_holding_a user_holding_b
        user_holding_lp pool_def_data amount_a amount_b delta_lp =
      do
        pool_data ← data_from_pool pools (deposited_pool pool_def_data amount_a amount_b delta_lp)
        ok (
          post_state (record pool.account { account_data = pool_data })
              ∷ unchanged_post_states (
                  vault_a ∷ vault_b ∷ pool_definition_lp ∷ user_holding_a ∷ user_holding_b
                  ∷ user_holding_lp ∷ []),
          deposit_calls pool vault_a vault_b pool_definition_lp user_holding_a user_holding_b
              user_holding_lp amount_a amount_b delta_lp,
        )

  -- `min_amount_liquidity` is not zero: the program's `main` has checked it.
  unfoldable pub add_liquidity :
      AccountWithMetadata
      → AccountWithMetadata
      → AccountWithMetadata
      → AccountWithMetadata
      → AccountWithMetadata
      → AccountWithMetadata
      → AccountWithMetadata
      → (min_amount_liquidity max_amount_to_add_token_a max_amount_to_add_token_b : ℕ)
      → Guest (List AccountPostState × List ChainedCall)
  unfolding validate_deposit actual_amounts payable_lp settle_deposit
  add_liquidity pool vault_a vault_b pool_definition_lp user_holding_a user_holding_b
        user_holding_lp min_amount_liquidity max_amount_to_add_token_a max_amount_to_add_token_b =
      do
        pool_def_data ←
            validate_deposit pool vault_a vault_b pool_definition_lp max_amount_to_add_token_a
              max_amount_to_add_token_b
        amounts ← actual_amounts pool_def_data max_amount_to_add_token_a max_amount_to_add_token_b
        delta_lp ← payable_lp pool_def_data amounts.0 amounts.1 min_amount_liquidity
        settle_deposit pool vault_a vault_b pool_definition_lp user_holding_a user_holding_b
            user_holding_lp pool_def_data amounts.0 amounts.1 delta_lp
