-- ===== src/Amm/Swap/Product.antt =====
-- Swaps keep the product of the reserves.
use logos_execution_zone.Prelude.{
  ℕ, ◌+◌, ◌-◌, ◌*◌, ◌≤◌, ◌≡◌, ◌⊎◌, Guest, inl, inr, subst, ok, some, List, [], ◌∷◌, arith,
  wrapping_add, wrapping_sub, u128_max,
}
use logos_execution_zone.Core.Account.{AccountId, AccountWithMetadata}
use logos_execution_zone.Core.Program.{AccountPostState, ChainedCall}
use logos_execution_zone.Host.{Host}
use logos_execution_zone.Token.Core.{Codec}
use logos_execution_zone.Amm.Core.{PoolDefinition, PoolInRange, PoolCodec, IsPoolCodec}
use logos_execution_zone.Amm.Swap.{
  Legs, swap_with, swap_logic, exact_output_swap_logic, swap_exact_input, swap_exact_output,
}
use logos_execution_zone.Amm.Swap.Legs.{
  Terms, ExactInput, ExactOutput, AreLegs, swap_logic-AreLegs, exact_output_swap_logic-AreLegs,
}
use logos_execution_zone.Amm.Swap.Exchange.{
  IsSetup, swapped_posts, Direction, a_to_b, b_to_a, swap_with-eq-ok,
}

deposited : (r x : ℕ) → r + x ≤ u128_max → wrapping_sub (wrapping_add r x) 0 ≡ r + x
unfolding wrapping_add wrapping_sub
deposited r x h = omega arith

withdrawn : (r y : ℕ) → y ≤ r → r ≤ u128_max → wrapping_sub (wrapping_add r 0) y ≡ r - y
unfolding wrapping_add wrapping_sub
withdrawn r y h k = omega arith

module _ (codec : Codec) (pools : PoolCodec) (host : Host)
    (pool vault_a vault_b user_a user_b : AccountWithMetadata) (token_in : AccountId)
    (terms : Terms) where
  -- The deposit and the two transfers of one direction, and the pool after them.
  abbrev pub Exchanged : PoolDefinition → Legs → PoolDefinition → Type 0
  Exchanged p legs q =
      ((token_in ≡ p.definition_token_a_id)
        × AreLegs codec pools host pool.account_id user_a vault_a vault_b user_b p.reserve_a
            p.reserve_b legs
        × terms legs p.reserve_a p.reserve_b
        × (q ≡ record p { reserve_a = p.reserve_a + legs.1; reserve_b = p.reserve_b - legs.2 }))
      ⊎ ((token_in ≡ p.definition_token_b_id)
          × AreLegs codec pools host pool.account_id user_b vault_b vault_a user_a p.reserve_b
              p.reserve_a legs
          × terms legs p.reserve_b p.reserve_a
          × (q ≡ record p { reserve_a = p.reserve_a - legs.2; reserve_b = p.reserve_b + legs.1 }))

  -- A swap at the pool `p` that has returned `posts` and `calls`.
  pub record IsSwap (p : PoolDefinition) (posts : List AccountPostState) (calls : List ChainedCall)
      : Type 0 where
    pub legs : Legs
    pub after : PoolDefinition
    pub setup : IsSetup codec pools pool vault_a vault_b p
    pub exchanged : Exchanged p legs after
    pub product : p.reserve_a * p.reserve_b ≤ after.reserve_a * after.reserve_b
    pub results :
        posts ≡ swapped_posts codec pools pool after (vault_a ∷ vault_b ∷ user_a ∷ user_b ∷ [])
    pub transfers : calls ≡ legs.0
    pub decoded_after : pools.decode_pool (pools.encode_pool after) ≡ some after

  module _ (p q : PoolDefinition) (legs : Legs) (range : PoolInRange p) (most : ℕ)
      (bounded : (legs : Legs) (reserve_in reserve_out : ℕ)
        → terms legs reserve_in reserve_out
        → legs.1 ≤ most)
      (room_a : p.reserve_a + most ≤ u128_max) (room_b : p.reserve_b + most ≤ u128_max) where
    Exchanged-InRange : Exchanged p legs q → PoolInRange q
    Exchanged-InRange (inl (t, fair, e, moved)) =
        let covered = fair.covered in let least = bounded legs _ _ e in rw moved (omega arith)
    Exchanged-InRange (inr (t, fair, e, moved)) =
        let covered = fair.covered in let least = bounded legs _ _ e in rw moved (omega arith)

    Exchanged-product : Exchanged p legs q → p.reserve_a * p.reserve_b ≤ q.reserve_a * q.reserve_b
    Exchanged-product (inl (t, fair, e, moved)) = rw moved fair.product
    Exchanged-product (inr (t, fair, e, moved)) = let kept = fair.product in rw moved (grind arith)

    module _
        (logic : AccountWithMetadata
          → AccountWithMetadata
          → AccountWithMetadata
          → AccountWithMetadata
          → ℕ
          → ℕ
          → Guest Legs) where
      Exchanged-of_Direction :
          Direction codec pools logic pool vault_a vault_b user_a user_b token_in p legs q
          → (logic user_a vault_a vault_b user_b p.reserve_a p.reserve_b ≡ ok legs
              → AreLegs codec pools host pool.account_id user_a vault_a vault_b user_b p.reserve_a
                  p.reserve_b legs
                × terms legs p.reserve_a p.reserve_b)
          → (logic user_b vault_b vault_a user_a p.reserve_b p.reserve_a ≡ ok legs
              → AreLegs codec pools host pool.account_id user_b vault_b vault_a user_a p.reserve_b
                  p.reserve_a legs
                × terms legs p.reserve_b p.reserve_a)
          → Exchanged p legs q
      Exchanged-of_Direction (a_to_b t ran moved) fair_a fair_b =
          let (fair, e) = fair_a ran in
          let least = bounded legs _ _ e in
          let more = deposited p.reserve_a legs.1 (omega arith) in
          let less = withdrawn p.reserve_b legs.2 (fair.covered) (omega arith) in
          inl (t, fair, e, rw (more, less) at moved)
      Exchanged-of_Direction (b_to_a t ran moved) fair_a fair_b =
          let (fair, e) = fair_b ran in
          let least = bounded legs _ _ e in
          let more = deposited p.reserve_b legs.1 (omega arith) in
          let less = withdrawn p.reserve_a legs.2 (fair.covered) (omega arith) in
          inr (t, fair, e, rw (more, less) at moved)

module _ (codec : Codec) (pools : PoolCodec) (laws : IsPoolCodec pools) (host : Host)
    (pool vault_a vault_b user_a user_b : AccountWithMetadata) where
  -- A logic whose legs are right makes a swap that is right.
  swap_with-IsSwap :
      (terms : Terms) (most : ℕ)
      (logic : AccountWithMetadata
        → AccountWithMetadata
        → AccountWithMetadata
        → AccountWithMetadata
        → ℕ
        → ℕ
        → Guest Legs)
      (token_in : AccountId) (p : PoolDefinition) {posts : List AccountPostState}
      {calls : List ChainedCall}
      → ((legs : Legs) (reserve_in reserve_out : ℕ)
          → terms legs reserve_in reserve_out
          → legs.1 ≤ most)
      → ((user_deposit vault_deposit vault_withdraw user_withdraw : AccountWithMetadata)
            (reserve_in reserve_out : ℕ) (legs : Legs)
          → logic user_deposit vault_deposit vault_withdraw user_withdraw reserve_in reserve_out
            ≡ ok legs
          → reserve_in + most ≤ u128_max
          → AreLegs codec pools host pool.account_id user_deposit vault_deposit vault_withdraw
              user_withdraw reserve_in reserve_out legs
            × terms legs reserve_in reserve_out)
      → swap_with codec pools logic pool vault_a vault_b user_a user_b token_in ≡ ok (posts, calls)
      → pools.decode_pool pool.account.account_data ≡ some p
      → p.reserve_a + most ≤ u128_max
      → p.reserve_b + most ≤ u128_max
      → IsSwap codec pools host pool vault_a vault_b user_a user_b token_in terms p posts calls
  swap_with-IsSwap terms most logic token_in p bounded fair h decoded room_a room_b =
      let (found, legs, q, setup, called, posted, direction) =
        swap_with-eq-ok codec pools logic pool vault_a vault_b user_a user_b token_in h in
      let same : found ≡ p = let first = setup.decoded in cc in
      let setup_p = subst (λ r. IsSetup codec pools pool vault_a vault_b r) same setup in
      let direction_p =
        subst
          (λ r. Direction codec pools logic pool vault_a vault_b user_a user_b token_in r legs q)
          same direction in
      let range = laws.pool_range pool.account.account_data p decoded in
      let exchanged =
        Exchanged-of_Direction codec pools host pool vault_a vault_b user_a user_b token_in terms p
          q legs range most bounded room_a room_b logic direction_p
          (λ e. fair _ _ _ _ _ _ legs e room_a) (λ e. fair _ _ _ _ _ _ legs e room_b) in
      record {
        legs = legs;
        after = q;
        setup = setup_p;
        exchanged = exchanged;
        product =
            Exchanged-product codec pools host pool vault_a vault_b user_a user_b token_in terms p q
              legs range most bounded room_a room_b exchanged;
        results = posted;
        transfers = called;
        decoded_after = laws.pool_roundtrip q (
            Exchanged-InRange codec pools host pool vault_a vault_b user_a user_b token_in terms p q
              legs range most bounded room_a room_b exchanged);
      }

  -- A swap for an exact input that returns, with room for the deposit in either reserve, is at the
  -- active pool that the account holds, with the vaults of the pool. One reserve gains exactly the
  -- deposit and the other loses exactly the payout; the product of the reserves does not fall, and
  -- nothing else of the pool changes. The payout is the product of the deposit and the other
  -- reserve, divided by the reserve with the deposit and rounded down; it is positive and not below
  -- the minimum. The calls are a transfer of the deposit from the user to the vault and one of the
  -- payout from the other vault to the user, and the accounts but the pool's are returned as they
  -- came.
  pub swap_exact_input-IsSwap :
      (amount_in min_out : ℕ) (token_in : AccountId) (p : PoolDefinition)
      {posts : List AccountPostState} {calls : List ChainedCall}
      → swap_exact_input codec pools host pool vault_a vault_b user_a user_b amount_in min_out
          token_in
        ≡ ok (posts, calls)
      → pools.decode_pool pool.account.account_data ≡ some p
      → p.reserve_a + amount_in ≤ u128_max
      → p.reserve_b + amount_in ≤ u128_max
      → IsSwap codec pools host pool vault_a vault_b user_a user_b token_in
          (ExactInput amount_in min_out)
          p
          posts
          calls
  unfolding swap_exact_input
  swap_exact_input-IsSwap amount_in min_out token_in p h decoded room_a room_b =
      swap_with-IsSwap (ExactInput amount_in min_out) amount_in
        (swap_logic codec pools host amount_in min_out pool.account_id) token_in p
        (λ legs ri ro e. omega (arith, e.0))
        (λ ud vd vw uw ri ro legs ran room.
          swap_logic-AreLegs codec pools host pool.account_id ud vd vw uw ri ro amount_in min_out
            ran room)
        h decoded room_a room_b

  -- A swap for an exact output that returns, with room for the largest deposit in either reserve, is
  -- such an exchange too. The payout is the one asked for, the deposit is not above the maximum, and
  -- it is the least deposit for which the product of the reserves does not fall.
  pub swap_exact_output-IsSwap :
      (exact_out max_in : ℕ) (token_in : AccountId) (p : PoolDefinition)
      {posts : List AccountPostState} {calls : List ChainedCall}
      → swap_exact_output codec pools host pool vault_a vault_b user_a user_b exact_out max_in
          token_in
        ≡ ok (posts, calls)
      → pools.decode_pool pool.account.account_data ≡ some p
      → p.reserve_a + max_in ≤ u128_max
      → p.reserve_b + max_in ≤ u128_max
      → IsSwap codec pools host pool vault_a vault_b user_a user_b token_in
          (ExactOutput exact_out max_in)
          p
          posts
          calls
  unfolding swap_exact_output
  swap_exact_output-IsSwap exact_out max_in token_in p h decoded room_a room_b =
      swap_with-IsSwap (ExactOutput exact_out max_in) max_in
        (exact_output_swap_logic codec pools host exact_out max_in pool.account_id) token_in p
        (λ legs ri ro e. e.1)
        (λ ud vd vw uw ri ro legs ran room.
          exact_output_swap_logic-AreLegs codec pools host pool.account_id ud vd vw uw ri ro
            exact_out max_in ran)
        h decoded room_a room_b
