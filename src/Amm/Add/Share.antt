-- ===== src/Amm/Add/Share.antt =====
-- A deposit never lowers what backs a liquidity token.
use logos_execution_zone.Prelude.{
  ℕ, ◌+◌, ◌*◌, ◌≤◌, ◌<◌, ◌≡◌, refl, ok, some, List, [], ◌∷◌, arith, >>=-eq-ok, wrapping_add_exact,
  u128_max,
}
use logos_execution_zone.Core.Account.{AccountWithMetadata}
use logos_execution_zone.Core.Program.{AccountPostState, ChainedCall, post_state}
use logos_execution_zone.Host.{Host}
use logos_execution_zone.Token.Core.{Codec, data_from_bytes-eq}
use logos_execution_zone.Token.Core as Token
use logos_execution_zone.Amm.Calls.{token_call, with_flag, as_they_came, lp_seed}
use logos_execution_zone.Amm.Core.{
  PoolDefinition, PoolCodec, data_from_pool, compute_liquidity_token_pda_seed,
}
use logos_execution_zone.Amm.Add.{
  actual_amounts, payable_lp, deposited_pool, deposit_calls, validate_deposit, settle_deposit,
  add_liquidity,
}
use logos_execution_zone.Amm.Add.Amounts.{
  AreActual, IsPayable, AreExact, IsMinted, actual_amounts-AreActual, payable_lp-IsPayable,
  actual_amounts_exact, payable_lp_exact, room_for, lp_bound,
}

module _ (codec : Codec) (pools : PoolCodec) (host : Host)
    (pool vault_a vault_b pool_lp user_a user_b user_lp : AccountWithMetadata) where
  -- What a deposit at the pool `p` that has returned `posts` and `calls` has done.
  pub record IsDeposit (p : PoolDefinition) (min_lp max_a max_b : ℕ) (posts : List AccountPostState)
      (calls : List ChainedCall) : Type 0 where
    pub amount_a : ℕ
    pub amount_b : ℕ
    pub delta_lp : ℕ
    pub after : PoolDefinition
    pub actual : AreActual p max_a max_b (amount_a, amount_b)
    pub payable : IsPayable p amount_a amount_b min_lp delta_lp
    pub exact : AreExact p max_a max_b (amount_a, amount_b)
    pub minted : IsMinted p amount_a amount_b delta_lp
    pub moved : after ≡ record p {
      liquidity_pool_supply = p.liquidity_pool_supply + delta_lp;
      reserve_a = p.reserve_a + amount_a;
      reserve_b = p.reserve_b + amount_b;
    }
    pub backing_a :
        p.reserve_a * after.liquidity_pool_supply ≤ after.reserve_a * p.liquidity_pool_supply
    pub backing_b :
        p.reserve_b * after.liquidity_pool_supply ≤ after.reserve_b * p.liquidity_pool_supply
    pub results :
        posts
        ≡ post_state (record pool.account { account_data = pools.encode_pool after })
          ∷ as_they_came (vault_a ∷ vault_b ∷ pool_lp ∷ user_a ∷ user_b ∷ user_lp ∷ [])
    pub transfers :
        calls
        ≡ token_call user_a.account.program_owner
            (with_flag pool_lp)
            user_lp
            (pools.token_words (Token.mint delta_lp))
            (lp_seed host pool.account_id ∷ [])
          ∷ token_call user_a.account.program_owner user_b vault_b
              (pools.token_words (Token.transfer amount_b))
              []
          ∷ token_call user_a.account.program_owner user_a vault_a
              (pools.token_words (Token.transfer amount_a))
              []
          ∷ []

  module _ (min_lp max_a max_b : ℕ) (p : PoolDefinition) where
    validate_deposit-decodes :
        (found : PoolDefinition)
        → validate_deposit codec pools host pool vault_a vault_b pool_lp max_a max_b ≡ ok found
        → pools.decode_pool pool.account.account_data ≡ some p
        → (found ≡ p) × (0 < p.reserve_a)
    unfolding validate_deposit
    validate_deposit-decodes found h decoded =
        let same : found ≡ p = ground arith in
        let positive : 0 < found.reserve_a = ground arith in (same, rw same at positive)

    add_liquidity_of_amounts :
        (amounts : ℕ × ℕ) (delta_lp : ℕ) {posts : List AccountPostState} {calls : List ChainedCall}
        → settle_deposit codec pools host pool vault_a vault_b pool_lp user_a user_b user_lp p
            amounts.0 amounts.1 delta_lp
          ≡ ok (posts, calls)
        → AreActual p max_a max_b amounts
        → IsPayable p amounts.0 amounts.1 min_lp delta_lp
        → AreExact p max_a max_b amounts
        → IsMinted p amounts.0 amounts.1 delta_lp
        → p.reserve_a + max_a ≤ u128_max
        → p.reserve_b + max_b ≤ u128_max
        → p.liquidity_pool_supply + delta_lp ≤ u128_max
        → IsDeposit p min_lp max_a max_b posts calls
    unfolding settle_deposit deposit_calls compute_liquidity_token_pda_seed
    add_liquidity_of_amounts amounts delta_lp h actual payable exact minted room_a room_b room_lp =
        let a = wrapping_add_exact p.reserve_a amounts.0 (omega arith) in
        let b = wrapping_add_exact p.reserve_b amounts.1 (omega arith) in
        let lp = wrapping_add_exact p.liquidity_pool_supply delta_lp room_lp in
        let (bytes, encoded, h1) =
          >>=-eq-ok (data_from_pool pools (deposited_pool p amounts.0 amounts.1 delta_lp)) _ h in
        let e = data_from_bytes-eq _ "Token definition encoded data should fit into Data" encoded in
        record {
          amount_a = amounts.0;
          amount_b = amounts.1;
          delta_lp = delta_lp;
          after = deposited_pool p amounts.0 amounts.1 delta_lp;
          actual = actual;
          payable = payable;
          exact = exact;
          minted = minted;
          moved = rw (a, b, lp) refl;
          backing_a = rw (a, lp) (grind arith);
          backing_b = rw (b, lp) (grind arith);
          results = cc (h1, e);
          transfers = cc h1;
        }

    -- A deposit that returns, with room for it in the reserves and for the most that it can mint in
    -- the supply, is at the pool that the account holds. Each amount is positive, and the lesser of its
    -- limit and of what the ratio of the reserves gives for the other limit. The minted tokens are the
    -- lesser of the shares of the supply that the two amounts stand for, and at least the minimum;
    -- ratio and shares are of products in 128 bits, rounded down. The deposit adds exactly these to
    -- the pool, which it changes in nothing else, and neither reserve backs a liquidity token less
    -- than before. The calls mint the tokens to the user and transfer the amounts to the vaults, and
    -- the accounts but the pool's are returned as they came.
    pub add_liquidity-IsDeposit :
        {posts : List AccountPostState} {calls : List ChainedCall}
        → add_liquidity codec pools host pool vault_a vault_b pool_lp user_a user_b user_lp min_lp
            max_a max_b
          ≡ ok (posts, calls)
        → pools.decode_pool pool.account.account_data ≡ some p
        → p.reserve_a + max_a ≤ u128_max
        → p.reserve_b + max_b ≤ u128_max
        → p.liquidity_pool_supply + p.liquidity_pool_supply * max_a ≤ u128_max
        → IsDeposit p min_lp max_a max_b posts calls
    unfolding add_liquidity
    add_liquidity-IsDeposit h decoded room_a room_b room_lp =
        let (found, valid, h1) =
          >>=-eq-ok (validate_deposit codec pools host pool vault_a vault_b pool_lp max_a max_b) _
            h in
        let (same, positive) = validate_deposit-decodes found valid decoded in
        let h2 = rw same at h1 in
        let (amounts, made, h3) = >>=-eq-ok (actual_amounts p max_a max_b) _ h2 in
        let (delta_lp, paid, h4) = >>=-eq-ok (payable_lp p amounts.0 amounts.1 min_lp) _ h3 in
        let actual = actual_amounts-AreActual p max_a max_b made in
        let payable = payable_lp-IsPayable p amounts.0 amounts.1 min_lp paid in
        let few = lp_bound p amounts max_a max_b min_lp delta_lp actual payable positive in
        add_liquidity_of_amounts amounts delta_lp h4 actual payable
          (actual_amounts_exact p max_a max_b made)
          (payable_lp_exact p amounts.0 amounts.1 min_lp paid) room_a room_b
          (room_for _ _ _ few room_lp)
