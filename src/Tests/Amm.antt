-- ===== src/Tests/Amm.antt =====
-- The theorems on pools at concrete accounts, with an encoding of pools as lists of numbers.
use logos_execution_zone.Prelude.{
  ℕ, zero, suc, ◌≡◌, refl, subst, true, false, Bool, ◌&&◌, Option, none, some, List, [], ◌∷◌, ◌++◌,
  leb, if◌then◌else◌, u128_max, arith, le_bytes, wrapping_add, wrapping_sub, wrapping_mul,
}
use logos_execution_zone.Core.Account.{AccountWithMetadata, default_account}
use logos_execution_zone.Core.Program.{AccountPostState, post_state}
use logos_execution_zone.Host.{for_public_pda}
use logos_execution_zone.Token.Core.{TokenHolding, data_from_bytes}
use logos_execution_zone.Token.Core as Token
use logos_execution_zone.Programs.Vault.{unchanged_post_states}
use logos_execution_zone.Amm.Core.{
  PoolDefinition, PoolCodec, IsPoolCodec, PoolInRange, compute_vault_pda_seed, compute_vault_pda,
  compute_liquidity_token_pda_seed, compute_liquidity_token_pda,
}
use logos_execution_zone.Amm.Swap.{
  swap_calls, validate_swap_setup, create_swap_post_states, swap_with, swap_logic,
  exact_output_swap_logic, swap_exact_input, swap_exact_output,
}
use logos_execution_zone.Amm.Swap.Legs.{ExactInput, ExactOutput}
use logos_execution_zone.Amm.Swap.Exchange.{swapped_posts}
use logos_execution_zone.Amm.Swap.Product.{
  IsSwap, swap_exact_input-IsSwap, swap_exact_output-IsSwap,
}
use logos_execution_zone.Amm.Add.{
  validate_deposit, actual_amounts, payable_lp, deposited_pool, deposit_calls, settle_deposit,
  add_liquidity,
}
use logos_execution_zone.Amm.Add.Share.{IsDeposit, add_liquidity-IsDeposit}
use logos_execution_zone.Amm.Remove.{
  validate_withdrawal, withdrawal_amounts, withdrawn_pool, withdrawal_calls, settle_withdrawal,
  remove_liquidity,
}
use logos_execution_zone.Amm.Remove.Share.{IsWithdrawal, remove_liquidity-IsWithdrawal}
use logos_execution_zone.Tests.Coding.{codec}
use logos_execution_zone.Tests.World.{host, digest}

abbrev bit : Bool → ℕ
bit true = 1
bit false = 0

abbrev flag : ℕ → Bool
flag zero = false
flag (suc n) = true

abbrev fits : PoolDefinition → Bool
fits p =
    leb p.liquidity_pool_supply u128_max
    && leb p.reserve_a u128_max
    && leb p.reserve_b u128_max
    && leb p.fees u128_max

abbrev checked : PoolDefinition → Option PoolDefinition
checked p = if fits p then some p else none

abbrev encode_pool : PoolDefinition → List ℕ
encode_pool p =
    p.definition_token_a_id
    ∷ p.definition_token_b_id
    ∷ p.vault_a_id
    ∷ p.vault_b_id
    ∷ p.liquidity_pool_id
    ∷ p.liquidity_pool_supply
    ∷ p.reserve_a
    ∷ p.reserve_b
    ∷ p.fees
    ∷ bit p.active
    ∷ []

abbrev pool_of : (a b va vb lp supply ra rb fees active : ℕ) → PoolDefinition
pool_of a b va vb lp supply ra rb fees active = record {
  definition_token_a_id = a;
  definition_token_b_id = b;
  vault_a_id = va;
  vault_b_id = vb;
  liquidity_pool_id = lp;
  liquidity_pool_supply = supply;
  reserve_a = ra;
  reserve_b = rb;
  fees = fees;
  active = flag active;
}

abbrev decode_pool : List ℕ → Option PoolDefinition
decode_pool (a ∷ b ∷ va ∷ vb ∷ lp ∷ supply ∷ ra ∷ rb ∷ fees ∷ active ∷ []) =
    checked (pool_of a b va vb lp supply ra rb fees active)
decode_pool _ = none

abbrev words_of : Token.Instruction → List ℕ
words_of (Token.transfer amount) = 0 ∷ amount ∷ []
words_of (Token.mint amount) = 1 ∷ amount ∷ []
words_of (Token.burn amount) = 2 ∷ amount ∷ []
words_of instruction = 3 ∷ []

abbrev pools : PoolCodec
pools = record { encode_pool = encode_pool; decode_pool = decode_pool; token_words = words_of }

flag-bit : (b : Bool) → flag (bit b) ≡ b
flag-bit true = refl
flag-bit false = refl

checked-some : (p : PoolDefinition) → PoolInRange p → checked p ≡ some p
checked-some p h = ground arith

checked-range : (p q : PoolDefinition) → checked p ≡ some q → PoolInRange q
checked-range p q h =
    let e : p ≡ q = ground arith in
    let range : PoolInRange p = ground arith in subst PoolInRange e range

pool_roundtrip : (p : PoolDefinition) → PoolInRange p → decode_pool (encode_pool p) ≡ some p
pool_roundtrip p h = rw (flag-bit p.active) (checked-some p h)

pool_range : (bytes : List ℕ) (p : PoolDefinition) → decode_pool bytes ≡ some p → PoolInRange p
pool_range (a ∷ b ∷ va ∷ vb ∷ lp ∷ supply ∷ ra ∷ rb ∷ fees ∷ active ∷ []) p h =
    checked-range (pool_of a b va vb lp supply ra rb fees active) p h
pool_range _ p h = cc

pools-IsPoolCodec : IsPoolCodec pools
pools-IsPoolCodec = record { pool_roundtrip = pool_roundtrip; pool_range = pool_range }

abbrev account_with : (id owner : ℕ) → List ℕ → AccountWithMetadata
account_with id owner bytes = record {
  account = record { program_owner = owner; balance = 0; account_data = bytes; nonce = 0 };
  is_authorized = false;
  account_id = id;
}

abbrev holder : (id token balance : ℕ) → AccountWithMetadata
holder id token balance =
    account_with id 5 (codec.encode_holding (TokenHolding.fungible token balance))

-- 100 units of token 1 and 50 of token 2, with 70 liquidity tokens of token 30.
abbrev before : PoolDefinition
before = record {
  definition_token_a_id = 1;
  definition_token_b_id = 2;
  vault_a_id = 11;
  vault_b_id = 12;
  liquidity_pool_id = 30;
  liquidity_pool_supply = 70;
  reserve_a = 100;
  reserve_b = 50;
  fees = 0;
  active = true;
}

abbrev pool : AccountWithMetadata
pool = account_with 10 9 (encode_pool before)

abbrev vault_a : AccountWithMetadata
vault_a = holder 11 1 100

abbrev vault_b : AccountWithMetadata
vault_b = holder 12 2 50

abbrev lp_definition : AccountWithMetadata
lp_definition = account_with 30 5 []

abbrev alice_a : AccountWithMetadata
alice_a = holder 21 1 1000

abbrev alice_b : AccountWithMetadata
alice_b = holder 22 2 1000

abbrev alice_lp : AccountWithMetadata
alice_lp = holder 23 30 70

abbrev after_swap : (reserve_a reserve_b : ℕ) → PoolDefinition
after_swap reserve_a reserve_b = record before { reserve_a = reserve_a; reserve_b = reserve_b }

abbrev swap_posts : PoolDefinition → List AccountPostState
swap_posts q = swapped_posts codec pools pool q (vault_a ∷ vault_b ∷ alice_a ∷ alice_b ∷ [])

-- Ten units of token 1 buy four of token 2.
swap_exact_input-IsSwap_example :
    IsSwap codec pools host pool vault_a vault_b alice_a alice_b 1
      (ExactInput 10 3)
      before
      (swap_posts (after_swap 110 46))
      (swap_calls codec pools host alice_a vault_a vault_b alice_b 2 10 10 4)
unfolding swap_calls validate_swap_setup create_swap_post_states swap_with swap_logic
    swap_exact_input wrapping_add wrapping_sub compute_vault_pda_seed le_bytes digest
    data_from_bytes
swap_exact_input-IsSwap_example =
    swap_exact_input-IsSwap codec pools pools-IsPoolCodec host pool vault_a vault_b alice_a alice_b
      10 3 1 before refl refl (omega arith) (omega arith)

-- Five units of token 1 cost three of token 2.
swap_exact_output-IsSwap_example :
    IsSwap codec pools host pool vault_a vault_b alice_a alice_b 2
      (ExactOutput 5 4)
      before
      (swap_posts (after_swap 95 53))
      (swap_calls codec pools host alice_b vault_b vault_a alice_a 1 10 3 5)
unfolding swap_calls validate_swap_setup create_swap_post_states swap_with exact_output_swap_logic
    swap_exact_output wrapping_add wrapping_sub compute_vault_pda_seed le_bytes digest
    data_from_bytes
swap_exact_output-IsSwap_example =
    swap_exact_output-IsSwap codec pools pools-IsPoolCodec host pool vault_a vault_b alice_a alice_b
      5 4 2 before refl refl (omega arith) (omega arith)

abbrev others : List AccountWithMetadata
others = vault_a ∷ vault_b ∷ lp_definition ∷ alice_a ∷ alice_b ∷ alice_lp ∷ []

abbrev pool_posts : PoolDefinition → List AccountPostState
pool_posts q =
    post_state (record pool.account { account_data = encode_pool q }) ∷ unchanged_post_states others

-- Up to 20 and 5 units are 10 and 5, for seven liquidity tokens.
add_liquidity-IsDeposit_example :
    IsDeposit codec pools host pool vault_a vault_b lp_definition alice_a alice_b alice_lp before 7
      20 5
      (pool_posts (record before { liquidity_pool_supply = 77; reserve_a = 110; reserve_b = 55 }))
      (deposit_calls codec pools host pool vault_a vault_b lp_definition alice_a alice_b alice_lp 10
        5 7)
unfolding validate_deposit actual_amounts payable_lp deposited_pool deposit_calls settle_deposit
    add_liquidity wrapping_add wrapping_mul compute_liquidity_token_pda_seed le_bytes digest
    data_from_bytes
add_liquidity-IsDeposit_example =
    add_liquidity-IsDeposit codec pools host pool vault_a vault_b lp_definition alice_a alice_b
      alice_lp 7 20 5 before refl refl (omega arith) (omega arith) (omega arith)

-- Seven liquidity tokens give 10 and 5 units back.
remove_liquidity-IsWithdrawal_example :
    IsWithdrawal codec pools host pool vault_a vault_b lp_definition alice_a alice_b alice_lp before
      7 10 4
      (pool_posts (record before { liquidity_pool_supply = 63; reserve_a = 90; reserve_b = 45 }))
      (withdrawal_calls codec pools host pool vault_a vault_b lp_definition alice_a alice_b alice_lp
        before
        (record { withdraw_amount_a = 10; withdraw_amount_b = 5; delta_lp = 7 }))
unfolding validate_withdrawal withdrawal_amounts withdrawn_pool withdrawal_calls settle_withdrawal
    remove_liquidity wrapping_sub wrapping_mul compute_vault_pda_seed
    compute_liquidity_token_pda_seed le_bytes digest data_from_bytes
remove_liquidity-IsWithdrawal_example =
    remove_liquidity-IsWithdrawal codec pools host pool vault_a vault_b lp_definition alice_a
      alice_b alice_lp 7 10 4 before pools-IsPoolCodec refl refl (omega arith) (omega arith)
      (omega arith) (omega arith)

-- The accounts derived from tokens 1 and 2 by the program 9.
abbrev seed_of_pair : ℕ
seed_of_pair = digest (le_bytes 32 2 ++ le_bytes 32 1)

abbrev new_id : ℕ
new_id = for_public_pda host 9 seed_of_pair

abbrev new_pool : AccountWithMetadata
new_pool = record { account = default_account; is_authorized = false; account_id = new_id }

abbrev new_vault_a : AccountWithMetadata
new_vault_a = account_with (compute_vault_pda host 9 new_id 1) 0 []

abbrev new_vault_b : AccountWithMetadata
new_vault_b = account_with (compute_vault_pda host 9 new_id 2) 0 []

abbrev new_lp : AccountWithMetadata
new_lp = account_with (compute_liquidity_token_pda host 9 new_id) 0 []

abbrev set_up : PoolDefinition
set_up = record {
  definition_token_a_id = 1;
  definition_token_b_id = 2;
  vault_a_id = new_vault_a.account_id;
  vault_b_id = new_vault_b.account_id;
  liquidity_pool_id = new_lp.account_id;
  liquidity_pool_supply = 70;
  reserve_a = 100;
  reserve_b = 50;
  fees = 0;
  active = true;
}
