-- ===== src/Amm/New/Setup.antt =====
-- What setting up a pool has checked and written.
use logos_execution_zone.Prelude.{
  ℕ, codes, ◌⊎◌, if◌then◌else◌, ◌+◌, ◌*◌, ◌≤◌, ◌<◌, ◌≡◌, ◌≢◌, true, false, ok, some, List, [], ◌∷◌,
}
use logos_execution_zone.Core.Account.{
  AccountId, ProgramId, Account, AccountWithMetadata, default_account, account_eq,
}
use logos_execution_zone.Core.Program.{
  AccountPostState, ChainedCall, PdaSeed, pda, new_claimed_if_default,
}
use logos_execution_zone.Host.{Host, for_public_pda}
use logos_execution_zone.Token.Core.{Codec, TokenHolding, definition_id_of}
use logos_execution_zone.Token.Core as Token
use logos_execution_zone.Amm.Calls.{token_call, with_flag, as_they_came, lp_seed, vault_seed}
use logos_execution_zone.Amm.Core.{
  PoolDefinition, PoolCodec, compute_pool_pda_seed, compute_pool_pda,
}
use logos_execution_zone.Amm.New.{pool_account_data}

-- A liquidity token is issued anew with its supply where there was no pool account, and minted
-- otherwise.
abbrev pub IsIssue : Account → ℕ → Token.Instruction → Type 0
IsIssue account supply issue =
    ((account ≡ default_account)
      × (issue ≡ Token.new_fungible_definition (codes "LP Token") supply))
    ⊎ ((account ≢ default_account) × (issue ≡ Token.mint supply))

abbrev issue_for : Account → ℕ → Token.Instruction
issue_for account supply =
    if account_eq account default_account
    then Token.new_fungible_definition (codes "LP Token") supply
    else Token.mint supply

module _ (codec : Codec) (pools : PoolCodec) (host : Host)
    (pool vault_a vault_b pool_lp user_a user_b : AccountWithMetadata) (amm : ProgramId) where
  -- The accounts that a new pool for the tokens `a` and `b` may have.
  pub record AreNewAccounts (a b : AccountId) : Type 0 where
    pub holding_a : TokenHolding
    pub holding_b : TokenHolding
    pub holds_a : codec.decode_holding user_a.account.account_data ≡ some holding_a
    pub holds_b : codec.decode_holding user_b.account.account_data ≡ some holding_b
    pub is_a : a ≡ definition_id_of holding_a
    pub is_b : b ≡ definition_id_of holding_b
    pub same_program : user_b.account.program_owner ≡ user_a.account.program_owner
    pub different : a ≢ b
    pub pool_derived : compute_pool_pda host amm a b ≡ ok pool.account_id
    pub vault_a_derived :
        vault_a.account_id ≡ for_public_pda host amm (vault_seed host pool.account_id a)
    pub vault_b_derived :
        vault_b.account_id ≡ for_public_pda host amm (vault_seed host pool.account_id b)
    pub lp_derived : pool_lp.account_id ≡ for_public_pda host amm (lp_seed host pool.account_id)
    pub before : PoolDefinition
    pub held_before : pool_account_data codec pools host pool ≡ ok before
    pub inactive_before : before.active ≡ false

module _ (codec : Codec) (pools : PoolCodec) (host : Host)
    (pool vault_a vault_b pool_lp user_a user_b user_lp : AccountWithMetadata)
    (amm : ProgramId) where
  -- A new pool of `amount_a` and `amount_b`, by an execution that has returned `posts` and `calls`.
  pub record IsNewPool (amount_a amount_b : ℕ) (posts : List AccountPostState)
      (calls : List ChainedCall) : Type 0 where
    pub token_a : AccountId
    pub token_b : AccountId
    pub accounts :
        AreNewAccounts codec pools host pool vault_a vault_b pool_lp user_a user_b amm token_a
          token_b
    pub after : PoolDefinition
    pub seed : PdaSeed
    pub pool_seed : compute_pool_pda_seed host token_a token_b ≡ ok seed
    pub written : after ≡ record {
      definition_token_a_id = token_a;
      definition_token_b_id = token_b;
      vault_a_id = vault_a.account_id;
      vault_b_id = vault_b.account_id;
      liquidity_pool_id = pool_lp.account_id;
      liquidity_pool_supply = after.liquidity_pool_supply;
      reserve_a = amount_a;
      reserve_b = amount_b;
      fees = 0;
      active = true;
    }
    pub root_low : after.liquidity_pool_supply * after.liquidity_pool_supply ≤ amount_a * amount_b
    pub root_high :
        amount_a * amount_b < (after.liquidity_pool_supply + 1) * (after.liquidity_pool_supply + 1)
    pub results :
        posts
        ≡ new_claimed_if_default
            (record pool.account { account_data = pools.encode_pool after })
            (pda seed)
          ∷ as_they_came (vault_a ∷ vault_b ∷ pool_lp ∷ user_a ∷ user_b ∷ user_lp ∷ [])
    pub issue : Token.Instruction
    pub issues : IsIssue pool.account after.liquidity_pool_supply issue
    pub transfers :
        calls
        ≡ token_call user_a.account.program_owner
            (with_flag pool_lp)
            user_lp
            (pools.token_words issue)
            (lp_seed host pool.account_id ∷ [])
          ∷ token_call user_a.account.program_owner user_b
              (with_flag vault_b)
              (pools.token_words (Token.transfer amount_b))
              (vault_seed host pool.account_id token_b ∷ [])
          ∷ token_call user_a.account.program_owner user_a
              (with_flag vault_a)
              (pools.token_words (Token.transfer amount_a))
              (vault_seed host pool.account_id token_a ∷ [])
          ∷ []
