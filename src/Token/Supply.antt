-- ===== src/Token/Supply.antt =====
-- programs/token/src/mint.rs and programs/token/src/burn.rs
pub mod Change
pub mod Mint
pub mod Burn
use logos_execution_zone.Prelude.{
  ℕ, String, Bool, true, false, Option, List, [], ◌∷◌, Guest, ok, panic, ◌>>=◌, ◌>>◌, assert,
  expect, checked_add, checked_sub, if◌then◌else◌, ◌==◌,
}
use logos_execution_zone.Core.Account.{
  AccountId, Account, AccountWithMetadata, default_account, account_eq,
}
use logos_execution_zone.Core.Program.{
  AccountPostState, authorized, post_state, new_claimed_if_default,
}
use logos_execution_zone.Approval.{Authority, gate}
use logos_execution_zone.Token.Core.{
  Codec, TokenDefinition, TokenHolding, nft_master, nft_printed_copy, non_fungible,
  zeroized_from_definition, definition_id_of, data_from_definition, data_from_holding,
}

-- The match of `mint` on the definition and the holding.
unfoldable pub mint_units :
    TokenDefinition → TokenHolding → ℕ → Guest (TokenDefinition × TokenHolding)
mint_units (TokenDefinition.fungible name total_supply metadata authority)
      (TokenHolding.fungible d balance) amount =
    do
      balance_after ← expect (checked_add balance amount) "Balance overflow on minting"
      supply_after ← expect (checked_add total_supply amount) "Total supply overflow"
      ok (
        TokenDefinition.fungible name supply_after metadata authority,
        TokenHolding.fungible d balance_after,
      )
mint_units (TokenDefinition.non_fungible name supply metadata) (nft_master d print_balance) amount =
    panic "Cannot mint additional supply for Non-Fungible Tokens"
mint_units (TokenDefinition.non_fungible name supply metadata) (nft_printed_copy d owned) amount =
    panic "Cannot mint additional supply for Non-Fungible Tokens"
mint_units definition holding amount = panic "Mismatched Token Definition and Token Holding types"

-- The match of `mint_with_authority`, where the definition is fungible.
unfoldable pub mint_units_with_authority :
    TokenDefinition → TokenHolding → ℕ → Guest (TokenDefinition × TokenHolding)
mint_units_with_authority (TokenDefinition.fungible name total_supply metadata authority)
      (TokenHolding.fungible d balance) amount =
    do
      balance_after ← expect (checked_add balance amount) "Balance overflow on minting"
      supply_after ← expect (checked_add total_supply amount) "Total supply overflow"
      ok (
        TokenDefinition.fungible name supply_after metadata authority,
        TokenHolding.fungible d balance_after,
      )
mint_units_with_authority definition holding amount =
    panic "Mismatched Token Definition and Token Holding types"

-- The match of `burn`.
unfoldable pub burn_units :
    TokenDefinition → TokenHolding → ℕ → Guest (TokenDefinition × TokenHolding)
burn_units (TokenDefinition.fungible name total_supply metadata authority)
      (TokenHolding.fungible d balance) amount =
    do
      balance_after ← expect (checked_sub balance amount) "Insufficient balance to burn"
      supply_after ← expect (checked_sub total_supply amount) "Total supply underflow"
      ok (
        TokenDefinition.fungible name supply_after metadata authority,
        TokenHolding.fungible d balance_after,
      )
burn_units (TokenDefinition.non_fungible name printable_supply metadata)
      (nft_master d print_balance) amount =
    do
      supply_after ← expect (checked_sub printable_supply amount) "Printable supply underflow"
      balance_after ← expect (checked_sub print_balance amount) "Insufficient balance to burn"
      ok (TokenDefinition.non_fungible name supply_after metadata, nft_master d balance_after)
burn_units (TokenDefinition.non_fungible name printable_supply metadata) (nft_printed_copy d owned)
      amount =
    do
      assert (amount == 1) "Invalid balance to burn for NFT Printed Copy"
      assert owned "Cannot burn unowned NFT Printed Copy"
      supply_after ← expect (checked_sub printable_supply 1) "Printable supply underflow"
      ok (TokenDefinition.non_fungible name supply_after metadata, nft_printed_copy d false)
burn_units definition holding amount = panic "Mismatched Token Definition and Token Holding types"

-- The authority of a fungible definition.
unfoldable pub authority_of : TokenDefinition → String → Guest Authority
authority_of (TokenDefinition.fungible name supply metadata authority) message = ok authority
authority_of (TokenDefinition.non_fungible name supply metadata) message = panic message

module _ (codec : Codec) where
  unfoldable pub holding_or_fresh : AccountId → TokenDefinition → Account → Guest TokenHolding
  holding_or_fresh definition_id definition account =
      if account_eq account default_account
      then ok (zeroized_from_definition definition_id definition)
      else expect (codec.decode_holding account.account_data) "Token Holding account must be valid"

  -- The two post states that `mint` and `mint_with_authority` begin with.
  unfoldable pub minted_post_states :
      Account
      → Account
      → TokenDefinition × TokenHolding
      → Guest (AccountPostState × AccountPostState)
  minted_post_states definition_account holding_account after = do
    definition_data ← data_from_definition codec after.0
    holding_data ← data_from_holding codec after.1
    ok (
      post_state (record definition_account { account_data = definition_data }),
      new_claimed_if_default (record holding_account { account_data = holding_data }) authorized,
    )

  unfoldable pub mint :
      AccountWithMetadata → AccountWithMetadata → ℕ → Guest (List AccountPostState)
  unfolding holding_or_fresh mint_units minted_post_states
  mint definition_account user_holding_account amount_to_mint = do
    assert definition_account.is_authorized "Definition authorization is missing"
    definition ←
        expect (codec.decode_definition definition_account.account.account_data)
          "Token Definition account must be valid"
    holding ← holding_or_fresh definition_account.account_id definition user_holding_account.account
    assert (definition_account.account_id == definition_id_of holding)
        "Mismatch Token Definition and Token Holding"
    after ← mint_units definition holding amount_to_mint
    posts ← minted_post_states definition_account.account user_holding_account.account after
    ok (posts.0 ∷ posts.1 ∷ [])

  unfoldable pub mint_with_authority :
      AccountWithMetadata
      → AccountWithMetadata
      → AccountWithMetadata
      → ℕ
      → Guest (List AccountPostState)
  unfolding holding_or_fresh mint_units_with_authority minted_post_states authority_of
  mint_with_authority definition_account user_holding_account authority_account amount_to_mint = do
    definition ←
        expect (codec.decode_definition definition_account.account.account_data)
          "Token Definition account must be valid"
    authority ← authority_of definition "mint_with_authority is only supported for fungible tokens"
    gate authority authority_account
    holding ← holding_or_fresh definition_account.account_id definition user_holding_account.account
    assert (definition_account.account_id == definition_id_of holding)
        "Mismatch Token Definition and Token Holding"
    after ← mint_units_with_authority definition holding amount_to_mint
    posts ← minted_post_states definition_account.account user_holding_account.account after
    ok (posts.0 ∷ posts.1 ∷ new_claimed_if_default authority_account.account authorized ∷ [])

  unfoldable pub burn :
      AccountWithMetadata → AccountWithMetadata → ℕ → Guest (List AccountPostState)
  unfolding burn_units
  burn definition_account user_holding_account amount_to_burn = do
    assert user_holding_account.is_authorized "Authorization is missing"
    definition ←
        expect (codec.decode_definition definition_account.account.account_data)
          "Token Definition account must be valid"
    holding ←
        expect (codec.decode_holding user_holding_account.account.account_data)
          "Token Holding account must be valid"
    assert (definition_account.account_id == definition_id_of holding)
        "Mismatch Token Definition and Token Holding"
    after ← burn_units definition holding amount_to_burn
    definition_data ← data_from_definition codec after.0
    holding_data ← data_from_holding codec after.1
    ok (
        post_state (record definition_account.account { account_data = definition_data })
        ∷ post_state (record user_holding_account.account { account_data = holding_data })
        ∷ [])
