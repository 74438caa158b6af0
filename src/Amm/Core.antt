-- ===== src/Amm/Core.antt =====
-- programs/amm/core/src/lib.rs: the pool, the instructions and the accounts derived from a pool. The
-- derived `borsh` encoding of the pool and the serializer of token instructions are parameters.
use logos_execution_zone.Prelude.{
  ℕ, String, ◌≤◌, ◌≡◌, Bool, true, false, Option, some, List, ◌∷◌, ◌++◌, ◌/◌, Guest, ok, panic,
  ◌>>=◌, ltb, ◌==◌, if◌then◌else◌, le_bytes, replicate, u128_max,
}
use logos_execution_zone.Core.Account.{AccountId, ProgramId}
use logos_execution_zone.Core.Program.{PdaSeed, InstructionData}
use logos_execution_zone.Host.{Host, for_public_pda}
use logos_execution_zone.Token.Core.{TokenHolding, data_from_bytes}
use logos_execution_zone.Token.Core as Token

pub data Instruction : Type 0 where
  new_definition : ℕ → ℕ → ProgramId → Instruction
  add_liquidity : ℕ → ℕ → ℕ → Instruction
  remove_liquidity : ℕ → ℕ → ℕ → Instruction
  swap_exact_input : ℕ → ℕ → AccountId → Instruction
  swap_exact_output : ℕ → ℕ → AccountId → Instruction

pub record PoolDefinition : Type 0 where
  pub definition_token_a_id : AccountId
  pub definition_token_b_id : AccountId
  pub vault_a_id : AccountId
  pub vault_b_id : AccountId
  pub liquidity_pool_id : AccountId
  pub liquidity_pool_supply : ℕ
  pub reserve_a : ℕ
  pub reserve_b : ℕ
  pub fees : ℕ
  pub active : Bool

-- `PoolDefinition::default()`
abbrev pub default_pool_definition : PoolDefinition
default_pool_definition = record {
  definition_token_a_id = 0;
  definition_token_b_id = 0;
  vault_a_id = 0;
  vault_b_id = 0;
  liquidity_pool_id = 0;
  liquidity_pool_supply = 0;
  reserve_a = 0;
  reserve_b = 0;
  fees = 0;
  active = false;
}

-- The numbers of a pool are `u128`.
abbrev pub PoolInRange : PoolDefinition → Type 0
PoolInRange pool =
    (pool.liquidity_pool_supply ≤ u128_max)
    × (pool.reserve_a ≤ u128_max)
    × (pool.reserve_b ≤ u128_max)
    × (pool.fees ≤ u128_max)

pub record PoolCodec : Type 0 where
  pub encode_pool : PoolDefinition → List ℕ
  pub decode_pool : List ℕ → Option PoolDefinition
  -- the words of an instruction of the token program
  pub token_words : Token.Instruction → InstructionData

pub record IsPoolCodec (codec : PoolCodec) : Type 0 where
  pub pool_roundtrip :
      (pool : PoolDefinition)
      → PoolInRange pool
      → codec.decode_pool (codec.encode_pool pool) ≡ some pool
  pub pool_range :
      (bytes : List ℕ) (pool : PoolDefinition)
      → codec.decode_pool bytes ≡ some pool
      → PoolInRange pool

-- `Data::from(&PoolDefinition)`
abbrev pub data_from_pool : PoolCodec → PoolDefinition → Guest (List ℕ)
data_from_pool codec pool =
    data_from_bytes (codec.encode_pool pool) "Token definition encoded data should fit into Data"

-- `let TokenHolding::Fungible { balance, .. } = holding else { panic!(message) }`
abbrev pub fungible_balance : TokenHolding → String → Guest ℕ
fungible_balance (TokenHolding.fungible definition_id balance) message = ok balance
fungible_balance holding message = panic message

-- `a / b`, which panics on zero
abbrev pub divide : ℕ → ℕ → Guest ℕ
divide a b = if b == 0 then panic "attempt to divide by zero" else ok (a / b)

-- `[u8; 32]::cmp` is less.
unfoldable pub bytes_less : List ℕ → List ℕ → Bool
bytes_less (x ∷ xs) (y ∷ ys) = elim (x == y) [ true ↦ bytes_less xs ys | false ↦ ltb x y ]
bytes_less _ _ = false

module _ (host : Host) where
  unfoldable pub compute_pool_pda_seed : AccountId → AccountId → Guest PdaSeed
  unfolding bytes_less
  compute_pool_pda_seed definition_token_a_id definition_token_b_id =
      let bytes_a = le_bytes 32 definition_token_a_id in
      let bytes_b = le_bytes 32 definition_token_b_id in
      if bytes_less bytes_a bytes_b
      then ok (host.sha256 (bytes_b ++ bytes_a))
      else if bytes_less bytes_b bytes_a
      then ok (host.sha256 (bytes_a ++ bytes_b))
      else panic "Definitions match"

  unfoldable pub compute_pool_pda : ProgramId → AccountId → AccountId → Guest AccountId
  unfolding compute_pool_pda_seed
  compute_pool_pda amm_program_id definition_token_a_id definition_token_b_id = do
    seed ← compute_pool_pda_seed definition_token_a_id definition_token_b_id
    ok (for_public_pda host amm_program_id seed)

  unfoldable pub compute_vault_pda_seed : AccountId → AccountId → PdaSeed
  compute_vault_pda_seed pool_id definition_token_id =
      host.sha256 (le_bytes 32 pool_id ++ le_bytes 32 definition_token_id)

  unfoldable pub compute_vault_pda : ProgramId → AccountId → AccountId → AccountId
  unfolding compute_vault_pda_seed
  compute_vault_pda amm_program_id pool_id definition_token_id =
      for_public_pda host amm_program_id (compute_vault_pda_seed pool_id definition_token_id)

  unfoldable pub compute_liquidity_token_pda_seed : AccountId → PdaSeed
  compute_liquidity_token_pda_seed pool_id = host.sha256 (le_bytes 32 pool_id ++ replicate 32 0)

  unfoldable pub compute_liquidity_token_pda : ProgramId → AccountId → AccountId
  unfolding compute_liquidity_token_pda_seed
  compute_liquidity_token_pda amm_program_id pool_id =
      for_public_pda host amm_program_id (compute_liquidity_token_pda_seed pool_id)
