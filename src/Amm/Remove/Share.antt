-- ===== src/Amm/Remove/Share.antt =====
-- A withdrawal never lowers what backs the liquidity tokens that are left.
use logos_execution_zone.Prelude.{
  ℕ, ◌-◌, ◌*◌, ◌/◌, ◌≤◌, ◌<◌, ◌≡◌, refl, subst, ok, some, not, List, [], ◌∷◌, arith, >>=-eq-ok,
  assert, leb, leb→le, ◌==◌, assert-eq-ok, wrapping_mul, wrapping_sub_exact, wrapping_mul_exact,
  u128_max,
}
use logos_execution_zone.Core.Account.{AccountWithMetadata}
use logos_execution_zone.Core.Program.{AccountPostState, ChainedCall, post_state}
use logos_execution_zone.Host.{Host}
use logos_execution_zone.Token.Core.{Codec, data_from_bytes-eq}
use logos_execution_zone.Token.Core as Token
use logos_execution_zone.Amm.Calls.{token_call, with_flag, as_they_came, lp_seed, vault_seed}
use logos_execution_zone.Amm.Core.{
  PoolDefinition, PoolInRange, PoolCodec, IsPoolCodec, divide, data_from_pool,
  compute_liquidity_token_pda_seed, compute_vault_pda_seed,
}
use logos_execution_zone.Amm.Arithmetic.{quotient_bounds, quotient_exact, share_leaves_rest}
use logos_execution_zone.Amm.Remove.{
  Withdrawal, withdrawal_amounts, withdrawn_pool, validate_withdrawal, withdrawal_calls,
  settle_withdrawal, remove_liquidity,
}

-- The quotient of a product that does not wrap around.
divide_exact :
    (a b c : ℕ) {q : ℕ}
    → a * b ≤ u128_max
    → divide (wrapping_mul a b) c ≡ ok q
    → (q ≡ a * b / c) × (0 < c)
divide_exact a b c {q} room h =
    let exact = wrapping_mul_exact a b room in
    let positive : 0 < c = ground arith in
    (rw exact at (let e : q ≡ wrapping_mul a b / c = ground arith in e), positive)

-- Each payout is the share of the burned tokens in its reserve, rounded down and not below the
-- minimum.
pub record IsShare (p : PoolDefinition) (burned min_a min_b : ℕ) (w : Withdrawal) : Type 0 where
  pub burns : w.delta_lp ≡ burned
  pub enough_a : min_a ≤ w.withdraw_amount_a
  pub enough_b : min_b ≤ w.withdraw_amount_b
  pub share_a : w.withdraw_amount_a ≡ p.reserve_a * burned / p.liquidity_pool_supply
  pub share_b : w.withdraw_amount_b ≡ p.reserve_b * burned / p.liquidity_pool_supply
  pub issued : 0 < p.liquidity_pool_supply

withdrawal_amounts-IsShare :
    (p : PoolDefinition) (burned min_a min_b : ℕ) {w : Withdrawal}
    → p.reserve_a * burned ≤ u128_max
    → p.reserve_b * burned ≤ u128_max
    → p.liquidity_pool_supply * burned ≤ u128_max
    → withdrawal_amounts p burned min_a min_b ≡ ok w
    → IsShare p burned min_a min_b w
unfolding withdrawal_amounts
withdrawal_amounts-IsShare p burned min_a min_b {w} room_a room_b room_lp h =
    let (a, da, h1) =
      >>=-eq-ok (divide (wrapping_mul p.reserve_a burned) p.liquidity_pool_supply) _ h in
    let (b, db, h2) =
      >>=-eq-ok (divide (wrapping_mul p.reserve_b burned) p.liquidity_pool_supply) _ h1 in
    let (_, enough_a, h3) =
      >>=-eq-ok
        (assert (leb min_a a)
          "Insufficient minimal withdraw amount (Token A) provided for liquidity amount")
        _ h2 in
    let (_, enough_b, h4) =
      >>=-eq-ok
        (assert (leb min_b b)
          "Insufficient minimal withdraw amount (Token B) provided for liquidity amount")
        _ h3 in
    let (lp, dl, h5) =
      >>=-eq-ok (divide (wrapping_mul p.liquidity_pool_supply burned) p.liquidity_pool_supply) _
        h4 in
    let (ea, issued) = divide_exact p.reserve_a burned p.liquidity_pool_supply room_a da in
    let (eb, _) = divide_exact p.reserve_b burned p.liquidity_pool_supply room_b db in
    let (el, _) = divide_exact p.liquidity_pool_supply burned p.liquidity_pool_supply room_lp dl in
    let all = quotient_exact p.liquidity_pool_supply burned issued in
    let e : record { withdraw_amount_a = a; withdraw_amount_b = b; delta_lp = lp } ≡ w = cc h5 in
    subst (λ v. IsShare p burned min_a min_b v) e
      record {
        burns = cc (el, all);
        enough_a = leb→le min_a a (
            assert-eq-ok _
              "Insufficient minimal withdraw amount (Token A) provided for liquidity amount"
              enough_a);
        enough_b = leb→le min_b b (
            assert-eq-ok _
              "Insufficient minimal withdraw amount (Token B) provided for liquidity amount"
              enough_b);
        share_a = ea;
        share_b = eb;
        issued = issued;
      }

module _ (codec : Codec) (pools : PoolCodec) (host : Host)
    (pool vault_a vault_b pool_lp user_a user_b user_lp : AccountWithMetadata) where
  -- What a withdrawal at the pool `p` that has returned `posts` and `calls` has done.
  pub record IsWithdrawal (p : PoolDefinition) (burned min_a min_b : ℕ)
      (posts : List AccountPostState) (calls : List ChainedCall) : Type 0 where
    pub withdrawal : Withdrawal
    pub after : PoolDefinition
    pub share : IsShare p burned min_a min_b withdrawal
    pub covered_a : withdrawal.withdraw_amount_a ≤ p.reserve_a
    pub covered_b : withdrawal.withdraw_amount_b ≤ p.reserve_b
    pub moved : after ≡ record p {
      liquidity_pool_supply = p.liquidity_pool_supply - burned;
      reserve_a = p.reserve_a - withdrawal.withdraw_amount_a;
      reserve_b = p.reserve_b - withdrawal.withdraw_amount_b;
      active = not (p.liquidity_pool_supply - burned == 0);
    }
    pub backing_a :
        p.reserve_a * after.liquidity_pool_supply ≤ after.reserve_a * p.liquidity_pool_supply
    pub backing_b :
        p.reserve_b * after.liquidity_pool_supply ≤ after.reserve_b * p.liquidity_pool_supply
    pub results :
        posts
        ≡ post_state (record pool.account { account_data = pools.encode_pool after })
          ∷ as_they_came (vault_a ∷ vault_b ∷ pool_lp ∷ user_a ∷ user_b ∷ user_lp ∷ [])
    pub transfers :
        calls
        ≡ token_call user_a.account.program_owner
            (with_flag pool_lp)
            user_lp
            (pools.token_words (Token.burn burned))
            (lp_seed host pool.account_id ∷ [])
          ∷ token_call user_a.account.program_owner
              (with_flag vault_b)
              user_b
              (pools.token_words (Token.transfer withdrawal.withdraw_amount_b))
              (vault_seed host pool.account_id p.definition_token_b_id ∷ [])
          ∷ token_call user_a.account.program_owner
              (with_flag vault_a)
              user_a
              (pools.token_words (Token.transfer withdrawal.withdraw_amount_a))
              (vault_seed host pool.account_id p.definition_token_a_id ∷ [])
          ∷ []

  module _ (burned min_a min_b : ℕ) (p : PoolDefinition) where
    validate_withdrawal-decodes :
        (found : PoolDefinition)
        → validate_withdrawal codec pools host pool vault_a vault_b pool_lp user_lp min_a min_b
          ≡ ok found
        → pools.decode_pool pool.account.account_data ≡ some p
        → found ≡ p
    unfolding validate_withdrawal
    validate_withdrawal-decodes found h decoded = ground arith

    settle_withdrawal-IsWithdrawal :
        (w : Withdrawal) {posts : List AccountPostState} {calls : List ChainedCall}
        → settle_withdrawal codec pools host pool vault_a vault_b pool_lp user_a user_b user_lp p w
          ≡ ok (posts, calls)
        → PoolInRange p
        → burned ≤ p.liquidity_pool_supply
        → IsShare p burned min_a min_b w
        → IsWithdrawal p burned min_a min_b posts calls
    unfolding settle_withdrawal withdrawal_calls compute_liquidity_token_pda_seed
        compute_vault_pda_seed
    settle_withdrawal-IsWithdrawal w h range held share =
        let s = p.liquidity_pool_supply in
        let (low_a, _) = quotient_bounds (p.reserve_a * burned) s (share.issued) in
        let (low_b, _) = quotient_bounds (p.reserve_b * burned) s (share.issued) in
        let (cover_a, back_a) =
          share_leaves_rest p.reserve_a s burned w.withdraw_amount_a held (share.issued)
            (rw (share.share_a) low_a) in
        let (cover_b, back_b) =
          share_leaves_rest p.reserve_b s burned w.withdraw_amount_b held (share.issued)
            (rw (share.share_b) low_b) in
        let lp = wrapping_sub_exact s burned held (range.0) in
        let a = wrapping_sub_exact p.reserve_a w.withdraw_amount_a cover_a (range.1) in
        let b = wrapping_sub_exact p.reserve_b w.withdraw_amount_b cover_b (range.2) in
        let (bytes, encoded, h1) = >>=-eq-ok (data_from_pool pools (withdrawn_pool p w)) _ h in
        let e = data_from_bytes-eq _ "Token definition encoded data should fit into Data" encoded in
        record {
          withdrawal = w;
          after = withdrawn_pool p w;
          share = share;
          covered_a = cover_a;
          covered_b = cover_b;
          moved = rw (share.burns, lp, a, b) refl;
          backing_a = rw (share.burns, lp, a) back_a;
          backing_b = rw (share.burns, lp, b) back_b;
          results = cc (h1, e);
          transfers = let burns = share.burns in cc (h1, burns);
        }

    -- A withdrawal that returns, of no more liquidity tokens than were issued and with room for the
    -- products, is at the pool that the account holds. It burns exactly the given tokens and pays
    -- their share of each reserve, rounded down and not below the minimum. It changes in the pool only
    -- the reserves, by what it pays, the supply, by what it burns, and the activity, which ends with
    -- the last token. Neither reserve backs a token that is left less than before. The calls burn the
    -- tokens and transfer the payouts out of the vaults, and the accounts but the pool's are
    -- returned as they came.
    pub remove_liquidity-IsWithdrawal :
        (laws : IsPoolCodec pools) {posts : List AccountPostState} {calls : List ChainedCall}
        → remove_liquidity codec pools host pool vault_a vault_b pool_lp user_a user_b user_lp
            burned min_a min_b
          ≡ ok (posts, calls)
        → pools.decode_pool pool.account.account_data ≡ some p
        → burned ≤ p.liquidity_pool_supply
        → p.reserve_a * burned ≤ u128_max
        → p.reserve_b * burned ≤ u128_max
        → p.liquidity_pool_supply * burned ≤ u128_max
        → IsWithdrawal p burned min_a min_b posts calls
    unfolding remove_liquidity
    remove_liquidity-IsWithdrawal laws h decoded held room_a room_b room_lp =
        let (found, valid, h1) =
          >>=-eq-ok
            (validate_withdrawal codec pools host pool vault_a vault_b pool_lp user_lp min_a min_b)
            _ h in
        let same = validate_withdrawal-decodes found valid decoded in
        let h2 = rw same at h1 in
        let (w, made, h3) = >>=-eq-ok (withdrawal_amounts p burned min_a min_b) _ h2 in
        settle_withdrawal-IsWithdrawal w h3 (laws.pool_range pool.account.account_data p decoded)
          held (withdrawal_amounts-IsShare p burned min_a min_b room_a room_b room_lp made)
