-- ===== src/Amm/Swap/Legs.antt =====
-- What the two kinds of logic compute: the amounts and the two transfers.
use logos_execution_zone.Prelude.{
  ℕ, [], ◌∷◌, ◌+◌, ◌-◌, ◌*◌, ◌/◌, ◌≤◌, ◌<◌, ◌≡◌, ◌∙◌, sym, ok, not, some, arith, assert,
  assert-eq-ok, >>=-eq-ok, expect, expect-eq-ok, leb, ltb, leb→le, ◌==◌, checked_mul, wrapping_add,
  wrapping_add_exact, u128_max,
}
use logos_execution_zone.Core.Account.{AccountId, AccountWithMetadata}
use logos_execution_zone.Host.{Host}
use logos_execution_zone.Token.Core.{Codec, TokenHolding, definition_id_of}
use logos_execution_zone.Token.Core as Token
use logos_execution_zone.Amm.Core.{PoolCodec, divide, compute_vault_pda_seed}
use logos_execution_zone.Amm.Calls.{token_call, with_flag, vault_seed}
use logos_execution_zone.Amm.Arithmetic.{
  quotient_bounds, rounded_up, rounded_up_bounds, smaller_deposit_fails, payout_keeps_product,
  deposit_keeps_product,
}
use logos_execution_zone.Amm.Swap.{Legs, div_ceil, swap_calls, swap_logic, exact_output_swap_logic}

-- The terms of a swap, on its legs and the reserves of the deposit and of the withdrawal.
abbrev pub Terms : Type 1
Terms = Legs → ℕ → ℕ → Type 0

-- The deposit is the one given. The payout is the reserve's share of it, rounded down, and not below the
-- one asked for, nor zero.
abbrev pub ExactInput : ℕ → ℕ → Terms
ExactInput amount_in min_out legs reserve_in reserve_out =
    (legs.1 ≡ amount_in)
    × (min_out ≤ legs.2)
    × (0 < legs.2)
    × (legs.2 ≡ reserve_out * amount_in / (reserve_in + amount_in))

-- The payout is the one asked for, and the deposit is the least that keeps the product.
abbrev pub ExactOutput : ℕ → ℕ → Terms
ExactOutput exact_out max_in legs reserve_in reserve_out =
    (legs.2 ≡ exact_out)
    × (legs.1 ≤ max_in)
    × ((less : ℕ)
        → less < legs.1
        → (reserve_in + less) * (reserve_out - exact_out) < reserve_in * reserve_out)

module _ (codec : Codec) (pools : PoolCodec) (host : Host) (pool_id : AccountId)
    (user_deposit vault_deposit vault_withdraw user_withdraw : AccountWithMetadata)
    (reserve_in reserve_out : ℕ) where
  -- The amounts keep the product of the reserves, and the calls transfer the deposit from the user to
  -- the vault, and the payout from the other vault, with its seed, to the user.
  pub record AreLegs (legs : Legs) : Type 0 where
    pub holding : TokenHolding
    pub holds : codec.decode_holding vault_withdraw.account.account_data ≡ some holding
    pub transfers :
        legs.0
        ≡ token_call user_deposit.account.program_owner user_deposit vault_deposit
            (pools.token_words (Token.transfer legs.1))
            []
          ∷ token_call user_deposit.account.program_owner
              (with_flag vault_withdraw)
              user_withdraw
              (pools.token_words (Token.transfer legs.2))
              (vault_seed host pool_id (definition_id_of holding) ∷ [])
          ∷ []
    pub covered : legs.2 ≤ reserve_out
    pub product : reserve_in * reserve_out ≤ (reserve_in + legs.1) * (reserve_out - legs.2)

  pub swap_logic-AreLegs :
      (amount_in min_out : ℕ) {legs : Legs}
      → swap_logic codec pools host amount_in min_out pool_id user_deposit vault_deposit
          vault_withdraw user_withdraw reserve_in reserve_out
        ≡ ok legs
      → reserve_in + amount_in ≤ u128_max
      → AreLegs legs × ExactInput amount_in min_out legs reserve_in reserve_out
  unfolding swap_logic swap_calls compute_vault_pda_seed
  swap_logic-AreLegs amount_in min_out {legs} h room =
      let (product, multiplied, h1) =
        >>=-eq-ok (expect (checked_mul reserve_out amount_in) "reserve * amount_in overflows u128")
          _ h in
      let (withdraw, divided, h2) =
        >>=-eq-ok (divide product (wrapping_add reserve_in amount_in)) _ h1 in
      let (_, enough, h3) =
        >>=-eq-ok (assert (leb min_out withdraw) "Withdraw amount is less than minimal amount out")
          _ h2 in
      let (_, nonzero, h4) =
        >>=-eq-ok (assert (not (withdraw == 0)) "Withdraw amount should be nonzero") _ h3 in
      let (holding, held, h5) =
        >>=-eq-ok
          (expect (codec.decode_holding vault_withdraw.account.account_data)
            "Swap Logic: AMM Program expects valid token data")
          _ h4 in
      let exact = wrapping_add_exact reserve_in amount_in room in
      let positive : 0 < reserve_in + amount_in = ground (arith, exact) in
      let e : product ≡ reserve_out * amount_in = ground arith in
      let q : withdraw ≡ reserve_out * amount_in / (reserve_in + amount_in) =
        ground (arith, exact) in
      let low = quotient_bounds (reserve_out * amount_in) (reserve_in + amount_in) positive in
      let kept =
        payout_keeps_product reserve_in reserve_out amount_in withdraw positive (rw q (low.0)) in
      let paid : legs.2 ≡ withdraw = cc h5 in
      let taken : legs.1 ≡ amount_in = cc h5 in
      (
        record {
          holding = holding;
          holds = expect-eq-ok _ "Swap Logic: AMM Program expects valid token data" held;
          transfers = cc h5;
          covered = rw paid kept.0;
          product = rw (paid, taken) kept.1;
        },
        (
          taken,
          rw paid (
              leb→le min_out withdraw
                (assert-eq-ok _ "Withdraw amount is less than minimal amount out" enough)),
          ground (arith, paid),
          paid ∙ q,
        ),
      )

  pub exact_output_swap_logic-AreLegs :
      (exact_out max_in : ℕ) {legs : Legs}
      → exact_output_swap_logic codec pools host exact_out max_in pool_id user_deposit vault_deposit
          vault_withdraw user_withdraw reserve_in reserve_out
        ≡ ok legs
      → AreLegs legs × ExactOutput exact_out max_in legs reserve_in reserve_out
  unfolding exact_output_swap_logic swap_calls compute_vault_pda_seed
  exact_output_swap_logic-AreLegs exact_out max_in {legs} h =
      let (_, nonzero, h1) =
        >>=-eq-ok (assert (not (exact_out == 0)) "Exact amount out must be nonzero") _ h in
      let (_, below, h2) =
        >>=-eq-ok (assert (ltb exact_out reserve_out) "Exact amount out exceeds reserve") _ h1 in
      let (product, multiplied, h3) =
        >>=-eq-ok (expect (checked_mul reserve_in exact_out) "reserve * amount_out overflows u128")
          _ h2 in
      let (deposit, divided, h4) = >>=-eq-ok (div_ceil product (reserve_out - exact_out)) _ h3 in
      let (_, enough, h5) =
        >>=-eq-ok (assert (leb deposit max_in) "Required input exceeds maximum amount in") _ h4 in
      let (holding, held, h6) =
        >>=-eq-ok
          (expect (codec.decode_holding vault_withdraw.account.account_data)
            "Exact Output Swap Logic: AMM Program expects valid token data")
          _ h5 in
      let short : exact_out < reserve_out = ground arith in
      let left : 0 < reserve_out - exact_out = omega arith in
      let e : product ≡ reserve_in * exact_out = ground arith in
      let q : deposit ≡ rounded_up (reserve_in * exact_out) (reserve_out - exact_out) =
        ground arith in
      let (low, high) = rounded_up_bounds (reserve_in * exact_out) (reserve_out - exact_out) left in
      let paid : legs.2 ≡ exact_out = cc h6 in
      let taken : legs.1 ≡ deposit = cc h6 in
      (
        record {
          holding = holding;
          holds =
              expect-eq-ok _ "Exact Output Swap Logic: AMM Program expects valid token data" held;
          transfers = cc h6;
          covered = rw paid (omega arith);
          product =
              rw (paid, taken, q)
                (deposit_keeps_product reserve_in reserve_out _ exact_out (omega arith) low);
        },
        (
          paid,
          rw taken (
              leb→le deposit max_in
                (assert-eq-ok _ "Required input exceeds maximum amount in" enough)),
          λ less l.
              smaller_deposit_fails reserve_in reserve_out
                (rounded_up (reserve_in * exact_out) (reserve_out - exact_out)) exact_out less short
                high (rw (sym q, sym taken) l),
        ),
      )
