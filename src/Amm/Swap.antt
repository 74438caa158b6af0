-- ===== src/Amm/Swap.antt =====
-- programs/amm/src/swap.rs: exchanges against a pool at a constant product.
pub mod Legs
pub mod Exchange
pub mod Product
use logos_execution_zone.Prelude.{
  ℕ, Bool, true, false, not, String, List, [], ◌∷◌, map, ◌+◌, ◌-◌, ◌/◌, ◌%◌, Guest, ok, panic,
  ◌>>=◌, ◌>>◌, assert, expect, leb, ltb, ◌==◌, if◌then◌else◌, checked_mul, wrapping_add,
  wrapping_sub,
}
use logos_execution_zone.Core.Account.{AccountId, AccountWithMetadata}
use logos_execution_zone.Core.Program.{
  AccountPostState, post_state, ChainedCall, chained_call, with_pda_seeds,
}
use logos_execution_zone.Host.{Host}
use logos_execution_zone.Token.Core.{Codec, definition_id_of}
use logos_execution_zone.Token.Core as Token
use logos_execution_zone.Programs.Vault.{authorize}
use logos_execution_zone.Amm.Core.{
  PoolDefinition, PoolCodec, data_from_pool, fungible_balance, divide, compute_vault_pda_seed,
}
use logos_execution_zone.Amm.Arithmetic.{rounded_up}

-- What a swap's logic returns: the calls, the amount deposited and the amount withdrawn.
abbrev pub Legs : Type 0
Legs = List ChainedCall × ℕ × ℕ

-- `a.div_ceil(b)`, which panics on zero
abbrev pub div_ceil : ℕ → ℕ → Guest ℕ
div_ceil a b = if b == 0 then panic "attempt to divide by zero" else ok (rounded_up a b)

module _ (codec : Codec) (pools : PoolCodec) where
  unfoldable pub validate_swap_setup :
      AccountWithMetadata → AccountWithMetadata → AccountWithMetadata → Guest PoolDefinition
  validate_swap_setup pool vault_a vault_b = do
    pool_def_data ←
        expect (pools.decode_pool pool.account.account_data)
          "AMM Program expects a valid Pool Definition Account"
    assert pool_def_data.active "Pool is inactive"
    assert (vault_a.account_id == pool_def_data.vault_a_id) "Vault A was not provided"
    assert (vault_b.account_id == pool_def_data.vault_b_id) "Vault B was not provided"
    vault_a_token_holding ←
        expect (codec.decode_holding vault_a.account.account_data)
          "AMM Program expects a valid Token Holding Account for Vault A"
    vault_a_balance ←
        fungible_balance vault_a_token_holding
          "AMM Program expects a valid Fungible Token Holding Account for Vault A"
    assert (leb pool_def_data.reserve_a vault_a_balance) "Reserve for Token A exceeds vault balance"
    vault_b_token_holding ←
        expect (codec.decode_holding vault_b.account.account_data)
          "AMM Program expects a valid Token Holding Account for Vault B"
    vault_b_balance ←
        fungible_balance vault_b_token_holding
          "AMM Program expects a valid Fungible Token Holding Account for Vault B"
    assert (leb pool_def_data.reserve_b vault_b_balance) "Reserve for Token B exceeds vault balance"
    ok pool_def_data

  unfoldable pub create_swap_post_states :
      AccountWithMetadata
      → PoolDefinition
      → List AccountWithMetadata
      → (deposit_a withdraw_a deposit_b withdraw_b : ℕ) → Guest (List AccountPostState)
  create_swap_post_states pool pool_def_data others deposit_a withdraw_a deposit_b withdraw_b = do
    pool_data ← data_from_pool pools (record pool_def_data {
      reserve_a = wrapping_sub (wrapping_add pool_def_data.reserve_a deposit_a) withdraw_a;
      reserve_b = wrapping_sub (wrapping_add pool_def_data.reserve_b deposit_b) withdraw_b;
    })
    ok (
        post_state (record pool.account { account_data = pool_data })
        ∷ map (λ (other : AccountWithMetadata). post_state other.account) others)

  -- The common body of `swap_exact_input` and `swap_exact_output`: `logic` takes the user's and the
  -- vault's account of the deposit, those of the withdrawal, and the two reserves.
  unfoldable pub swap_with :
      (AccountWithMetadata
        → AccountWithMetadata
        → AccountWithMetadata
        → AccountWithMetadata
        → ℕ
        → ℕ
        → Guest Legs)
      → AccountWithMetadata
      → AccountWithMetadata
      → AccountWithMetadata
      → AccountWithMetadata
      → AccountWithMetadata
      → AccountId
      → Guest (List AccountPostState × List ChainedCall)
  unfolding validate_swap_setup create_swap_post_states
  swap_with logic pool vault_a vault_b user_holding_a user_holding_b token_in_id = do
    pool_def_data ← validate_swap_setup pool vault_a vault_b
    if token_in_id == pool_def_data.definition_token_a_id
        then (do
          legs ←
              logic user_holding_a vault_a vault_b user_holding_b pool_def_data.reserve_a
                pool_def_data.reserve_b
          post_states ←
              create_swap_post_states pool pool_def_data
                (vault_a ∷ vault_b ∷ user_holding_a ∷ user_holding_b ∷ []) legs.1 0 0 legs.2
          ok (post_states, legs.0))
        else if token_in_id == pool_def_data.definition_token_b_id
        then (do
          legs ←
              logic user_holding_b vault_b vault_a user_holding_a pool_def_data.reserve_b
                pool_def_data.reserve_a
          post_states ←
              create_swap_post_states pool pool_def_data
                (vault_a ∷ vault_b ∷ user_holding_a ∷ user_holding_b ∷ []) 0 legs.2 legs.1 0
          ok (post_states, legs.0))
        else panic "AccountId is not a token type for the pool"

  module _ (host : Host) where
    -- The two transfers that end both kinds of logic.
    unfoldable pub swap_calls :
        AccountWithMetadata
        → AccountWithMetadata
        → AccountWithMetadata
        → AccountWithMetadata
        → AccountId
        → AccountId
        → ℕ
        → ℕ
        → List ChainedCall
    unfolding compute_vault_pda_seed
    swap_calls user_deposit vault_deposit vault_withdraw user_withdraw definition_id pool_id
          deposit_amount withdraw_amount =
        let token_program_id = user_deposit.account.program_owner in
        chained_call token_program_id (user_deposit ∷ vault_deposit ∷ [])
          (pools.token_words (Token.transfer deposit_amount))
        ∷ with_pda_seeds
            (chained_call token_program_id (authorize vault_withdraw ∷ user_withdraw ∷ [])
              (pools.token_words (Token.transfer withdraw_amount)))
            (compute_vault_pda_seed host pool_id definition_id ∷ [])
        ∷ []

    unfoldable pub swap_logic :
        (swap_amount_in min_amount_out : ℕ)
        → AccountId
        → AccountWithMetadata
        → AccountWithMetadata
        → AccountWithMetadata
        → AccountWithMetadata
        → (reserve_deposit_vault_amount reserve_withdraw_vault_amount : ℕ) → Guest Legs
    unfolding swap_calls
    swap_logic swap_amount_in min_amount_out pool_id user_deposit vault_deposit vault_withdraw
          user_withdraw reserve_deposit_vault_amount reserve_withdraw_vault_amount =
        do
          product ←
              expect (checked_mul reserve_withdraw_vault_amount swap_amount_in)
                "reserve * amount_in overflows u128"
          withdraw_amount ←
              divide product (wrapping_add reserve_deposit_vault_amount swap_amount_in)
          assert (leb min_amount_out withdraw_amount)
              "Withdraw amount is less than minimal amount out"
          assert (not (withdraw_amount == 0)) "Withdraw amount should be nonzero"
          holding ←
              expect (codec.decode_holding vault_withdraw.account.account_data)
                "Swap Logic: AMM Program expects valid token data"
          ok (
            swap_calls user_deposit vault_deposit vault_withdraw user_withdraw
                (definition_id_of holding) pool_id swap_amount_in withdraw_amount,
            swap_amount_in,
            withdraw_amount,
          )

    unfoldable pub exact_output_swap_logic :
        (exact_amount_out max_amount_in : ℕ)
        → AccountId
        → AccountWithMetadata
        → AccountWithMetadata
        → AccountWithMetadata
        → AccountWithMetadata
        → (reserve_deposit_vault_amount reserve_withdraw_vault_amount : ℕ) → Guest Legs
    unfolding swap_calls
    exact_output_swap_logic exact_amount_out max_amount_in pool_id user_deposit vault_deposit
          vault_withdraw user_withdraw reserve_deposit_vault_amount reserve_withdraw_vault_amount =
        do
          assert (not (exact_amount_out == 0)) "Exact amount out must be nonzero"
          assert (ltb exact_amount_out reserve_withdraw_vault_amount)
              "Exact amount out exceeds reserve"
          product ←
              expect (checked_mul reserve_deposit_vault_amount exact_amount_out)
                "reserve * amount_out overflows u128"
          deposit_amount ← div_ceil product (reserve_withdraw_vault_amount - exact_amount_out)
          assert (leb deposit_amount max_amount_in) "Required input exceeds maximum amount in"
          holding ←
              expect (codec.decode_holding vault_withdraw.account.account_data)
                "Exact Output Swap Logic: AMM Program expects valid token data"
          ok (
            swap_calls user_deposit vault_deposit vault_withdraw user_withdraw
                (definition_id_of holding) pool_id deposit_amount exact_amount_out,
            deposit_amount,
            exact_amount_out,
          )

    unfoldable pub swap_exact_input :
        AccountWithMetadata
        → AccountWithMetadata
        → AccountWithMetadata
        → AccountWithMetadata
        → AccountWithMetadata
        → (swap_amount_in min_amount_out : ℕ) → AccountId
        → Guest (List AccountPostState × List ChainedCall)
    unfolding swap_with swap_logic
    swap_exact_input pool vault_a vault_b user_holding_a user_holding_b swap_amount_in
          min_amount_out token_in_id =
        swap_with (swap_logic swap_amount_in min_amount_out pool.account_id) pool vault_a vault_b
          user_holding_a user_holding_b token_in_id

    unfoldable pub swap_exact_output :
        AccountWithMetadata
        → AccountWithMetadata
        → AccountWithMetadata
        → AccountWithMetadata
        → AccountWithMetadata
        → (exact_amount_out max_amount_in : ℕ) → AccountId
        → Guest (List AccountPostState × List ChainedCall)
    unfolding swap_with exact_output_swap_logic
    swap_exact_output pool vault_a vault_b user_holding_a user_holding_b exact_amount_out
          max_amount_in token_in_id =
        swap_with (exact_output_swap_logic exact_amount_out max_amount_in pool.account_id) pool
          vault_a vault_b user_holding_a user_holding_b token_in_id
