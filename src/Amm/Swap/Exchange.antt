-- ===== src/Amm/Swap/Exchange.antt =====
-- What a swap that returns has done to the pool.
use logos_execution_zone.Prelude.{
  ℕ, ◌≡◌, refl, sym, Guest, expect-eq-ok, inl, inr, true, Bool-cases, ok, some, map, List, [], ◌∷◌,
  arith, >>=-eq-ok, expect, ◌==◌, ==_iff, wrapping_add, wrapping_sub,
}
use logos_execution_zone.Core.Account.{AccountId, AccountWithMetadata}
use logos_execution_zone.Core.Program.{AccountPostState, ChainedCall, post_state}
use logos_execution_zone.Token.Core.{Codec, data_from_bytes-eq}
use logos_execution_zone.Amm.Core.{PoolDefinition, PoolCodec, data_from_pool}
use logos_execution_zone.Amm.Swap.{Legs, validate_swap_setup, create_swap_post_states, swap_with}

module _ (codec : Codec) (pools : PoolCodec) where
  -- The setup returns the pool that the account holds, if it is active and the vaults are its own.
  pub record IsSetup (pool vault_a vault_b : AccountWithMetadata) (p : PoolDefinition)
      : Type 0 where
    pub decoded : pools.decode_pool pool.account.account_data ≡ some p
    pub is_active : p.active ≡ true
    pub own_vault_a : vault_a.account_id ≡ p.vault_a_id
    pub own_vault_b : vault_b.account_id ≡ p.vault_b_id

  pub validate_swap_setup-IsSetup :
      (pool vault_a vault_b : AccountWithMetadata) {p : PoolDefinition}
      → validate_swap_setup codec pools pool vault_a vault_b ≡ ok p
      → IsSetup pool vault_a vault_b p
  unfolding validate_swap_setup
  validate_swap_setup-IsSetup pool vault_a vault_b {p} h =
      let (d, decoded, h1) =
        >>=-eq-ok
          (expect (pools.decode_pool pool.account.account_data)
            "AMM Program expects a valid Pool Definition Account")
          _ h in
      let same : d ≡ p = ground arith in
      record {
        decoded =
            rw (sym same)
              (expect-eq-ok _ "AMM Program expects a valid Pool Definition Account" decoded);
        is_active = ground arith;
        own_vault_a = ground arith;
        own_vault_b = ground arith;
      }

  -- The post states of a swap, for the pool `q` that it leaves.
  abbrev pub swapped_posts :
      AccountWithMetadata → PoolDefinition → List AccountWithMetadata → List AccountPostState
  swapped_posts pool q others =
      post_state (record pool.account { account_data = pools.encode_pool q })
      ∷ map (λ (other : AccountWithMetadata). post_state other.account) others

  -- `reserve_a + deposit_a - withdraw_a`, and so for the other reserve
  abbrev pub moved_reserves :
      PoolDefinition → (deposit_a withdraw_a deposit_b withdraw_b : ℕ) → PoolDefinition
  moved_reserves p deposit_a withdraw_a deposit_b withdraw_b = record p {
    reserve_a = wrapping_sub (wrapping_add p.reserve_a deposit_a) withdraw_a;
    reserve_b = wrapping_sub (wrapping_add p.reserve_b deposit_b) withdraw_b;
  }

  create_swap_post_states-eq-ok :
      (pool : AccountWithMetadata) (p : PoolDefinition) (others : List AccountWithMetadata)
      (deposit_a withdraw_a deposit_b withdraw_b : ℕ) {posts : List AccountPostState}
      → create_swap_post_states codec pools pool p others deposit_a withdraw_a deposit_b withdraw_b
        ≡ ok posts
      → posts
        ≡ swapped_posts pool (moved_reserves p deposit_a withdraw_a deposit_b withdraw_b) others
  unfolding create_swap_post_states
  create_swap_post_states-eq-ok pool p others deposit_a withdraw_a deposit_b withdraw_b h =
      let (bytes, encoded, h1) =
        >>=-eq-ok
          (data_from_pool pools (moved_reserves p deposit_a withdraw_a deposit_b withdraw_b)) _ h in
      let e =
        data_from_bytes-eq
          (pools.encode_pool (moved_reserves p deposit_a withdraw_a deposit_b withdraw_b))
          "Token definition encoded data should fit into Data" encoded in
      cc (h1, e)

  module _
      (logic : AccountWithMetadata
        → AccountWithMetadata
        → AccountWithMetadata
        → AccountWithMetadata
        → ℕ
        → ℕ
        → Guest Legs)
      (pool vault_a vault_b user_a user_b : AccountWithMetadata) (token_in : AccountId) where
    -- One of the two directions of a swap.
    pub data Direction (p : PoolDefinition) (legs : Legs) (q : PoolDefinition) : Type 0 where
      a_to_b :
          token_in ≡ p.definition_token_a_id
          → logic user_a vault_a vault_b user_b p.reserve_a p.reserve_b ≡ ok legs
          → q ≡ moved_reserves p legs.1 0 0 legs.2
          → Direction p legs q
      b_to_a :
          token_in ≡ p.definition_token_b_id
          → logic user_b vault_b vault_a user_a p.reserve_b p.reserve_a ≡ ok legs
          → q ≡ moved_reserves p 0 legs.2 legs.1 0
          → Direction p legs q

    pub swap_with-eq-ok :
        {posts : List AccountPostState} {calls : List ChainedCall}
        → swap_with codec pools logic pool vault_a vault_b user_a user_b token_in
          ≡ ok (posts, calls)
        → (p : PoolDefinition) × (legs : Legs) × (q : PoolDefinition) × IsSetup pool vault_a vault_b
            p
          × (calls ≡ legs.0)
          × (posts ≡ swapped_posts pool q (vault_a ∷ vault_b ∷ user_a ∷ user_b ∷ []))
          × Direction p legs q
    unfolding swap_with
    swap_with-eq-ok {posts} {calls} h =
        let (p, set_up, h1) =
          >>=-eq-ok (validate_swap_setup codec pools pool vault_a vault_b) _ h in
        let setup = validate_swap_setup-IsSetup pool vault_a vault_b set_up in
        elim (Bool-cases (token_in == p.definition_token_a_id)) [
          | inl a ↦
              let h2 = rw a at h1 in
              let (legs, ran, h3) =
                >>=-eq-ok (logic user_a vault_a vault_b user_b p.reserve_a p.reserve_b) _ h2 in
              let (made, written, h4) =
                >>=-eq-ok
                  (create_swap_post_states codec pools pool p
                    (vault_a ∷ vault_b ∷ user_a ∷ user_b ∷ []) legs.1 0 0 legs.2)
                  _ h3 in
              let e =
                create_swap_post_states-eq-ok pool p (vault_a ∷ vault_b ∷ user_a ∷ user_b ∷ [])
                  legs.1 0 0 legs.2 written in
              (
                p,
                legs,
                moved_reserves p legs.1 0 0 legs.2,
                setup,
                cc h4,
                cc (e, h4),
                a_to_b ((==_iff _ _).0 a) ran refl,
              )
          | inr other ↦ elim (Bool-cases (token_in == p.definition_token_b_id)) [
            | inl b ↦
                let h2 = rw (other, b) at h1 in
                let (legs, ran, h3) =
                  >>=-eq-ok (logic user_b vault_b vault_a user_a p.reserve_b p.reserve_a) _ h2 in
                let (made, written, h4) =
                  >>=-eq-ok
                    (create_swap_post_states codec pools pool p
                      (vault_a ∷ vault_b ∷ user_a ∷ user_b ∷ []) 0 legs.2 legs.1 0)
                    _ h3 in
                let e =
                  create_swap_post_states-eq-ok pool p (vault_a ∷ vault_b ∷ user_a ∷ user_b ∷ []) 0
                    legs.2 legs.1 0 written in
                (
                  p,
                  legs,
                  moved_reserves p 0 legs.2 legs.1 0,
                  setup,
                  cc h4,
                  cc (e, h4),
                  b_to_a ((==_iff _ _).0 b) ran refl,
                )
            | inr neither ↦ let h2 = rw (other, neither) at h1 in cc h2
          ]
        ]
