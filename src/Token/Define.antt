-- ===== src/Token/Define.antt =====
-- programs/token/src/new_definition.rs, initialize.rs, print_nft.rs and rotate.rs
pub mod Revoke
pub mod Issue
use logos_execution_zone.Prelude.{
  ℕ, String, Bool, true, Option, none, some, List, [], ◌∷◌, Guest, ok, panic, ◌>>=◌, ◌>>◌, assert,
  expect, checked_sub, ltb,
}
use logos_execution_zone.Core.Account.{AccountId, AccountWithMetadata, default_account, account_eq}
use logos_execution_zone.Core.Program.{
  AccountPostState, authorized, post_state, new_claimed, new_claimed_if_default,
}
use logos_execution_zone.Approval.{Authority, new, renounced, transfer, revoke}
use logos_execution_zone.Token.Core.{
  Text, Codec, NewTokenDefinition, TokenDefinition, TokenHolding, nft_master, nft_printed_copy,
  NewTokenMetadata, TokenMetadata, zeroized_from_definition, data_from_definition,
  data_from_holding, data_from_metadata,
}

abbrev pub authority_or_renounced : Option AccountId → Authority
authority_or_renounced none = renounced
authority_or_renounced (some admin) = new admin

-- The match of `new_definition_with_metadata`.
unfoldable pub new_pair :
    AccountId → AccountId → NewTokenDefinition → TokenDefinition × TokenHolding
new_pair definition_id metadata_id (NewTokenDefinition.fungible name total_supply) = (
  TokenDefinition.fungible name total_supply (some metadata_id) renounced,
  TokenHolding.fungible definition_id total_supply,
)
new_pair definition_id metadata_id (NewTokenDefinition.non_fungible name printable_supply) = (
  TokenDefinition.non_fungible name printable_supply metadata_id,
  nft_master definition_id printable_supply,
)

-- The match of `print_nft`: the master with one copy less, and its token.
unfoldable pub print_copy : TokenHolding → Guest (TokenHolding × AccountId)
print_copy (nft_master definition_id print_balance) = do
  assert (ltb 1 print_balance) "Insufficient balance to print another NFT copy"
  left ← expect (checked_sub print_balance 1) "Checked above"
  ok (nft_master definition_id left, definition_id)
print_copy holding = panic "Invalid Token Holding provided as NFT Master Account"

-- The definition with its authority replaced by what `change` makes of it.
unfoldable pub change_authority :
    (Authority → Guest Authority) → TokenDefinition → String → Guest TokenDefinition
change_authority change (TokenDefinition.fungible name supply metadata authority) message = do
  next ← change authority
  ok (TokenDefinition.fungible name supply metadata next)
change_authority change (TokenDefinition.non_fungible name supply metadata) message = panic message

module _ (codec : Codec) where
  unfoldable pub new_fungible_definition_with_authority :
      AccountWithMetadata
      → AccountWithMetadata
      → Text
      → ℕ
      → Option AccountId
      → Guest (List AccountPostState)
  new_fungible_definition_with_authority definition_target holding_target name total_supply
        mint_authority =
      do
        assert (account_eq definition_target.account default_account)
            "Definition target account must have default values"
        assert (account_eq holding_target.account default_account)
            "Holding target account must have default values"
        definition_data ← data_from_definition codec (
            TokenDefinition.fungible name total_supply none (authority_or_renounced mint_authority))
        holding_data ←
            data_from_holding codec
              (TokenHolding.fungible definition_target.account_id total_supply)
        ok (
            new_claimed (record definition_target.account { account_data = definition_data })
              authorized
            ∷ new_claimed (record holding_target.account { account_data = holding_data }) authorized
            ∷ [])

  -- The source repeats the body with a renounced authority.
  unfoldable pub new_fungible_definition :
      AccountWithMetadata → AccountWithMetadata → Text → ℕ → Guest (List AccountPostState)
  new_fungible_definition definition_target holding_target name total_supply = do
    assert (account_eq definition_target.account default_account)
        "Definition target account must have default values"
    assert (account_eq holding_target.account default_account)
        "Holding target account must have default values"
    definition_data ←
        data_from_definition codec (TokenDefinition.fungible name total_supply none renounced)
    holding_data ←
        data_from_holding codec (TokenHolding.fungible definition_target.account_id total_supply)
    ok (
        new_claimed (record definition_target.account { account_data = definition_data }) authorized
        ∷ new_claimed (record holding_target.account { account_data = holding_data }) authorized
        ∷ [])

  unfoldable pub new_definition_with_metadata :
      AccountWithMetadata
      → AccountWithMetadata
      → AccountWithMetadata
      → NewTokenDefinition
      → NewTokenMetadata
      → Guest (List AccountPostState)
  unfolding new_pair
  new_definition_with_metadata definition_target holding_target metadata_target new_definition
        metadata =
      do
        assert (account_eq definition_target.account default_account)
            "Definition target account must have default values"
        assert (account_eq holding_target.account default_account)
            "Holding target account must have default values"
        assert (account_eq metadata_target.account default_account)
            "Metadata target account must have default values"
        let pair = new_pair definition_target.account_id metadata_target.account_id new_definition
        definition_data ← data_from_definition codec pair.0
        holding_data ← data_from_holding codec pair.1
        metadata_data ← data_from_metadata codec (record {
          definition_id = definition_target.account_id;
          standard = metadata.standard;
          uri = metadata.uri;
          creators = metadata.creators;
          primary_sale_date = 0;
        })
        ok (
            new_claimed (record definition_target.account { account_data = definition_data })
              authorized
            ∷ new_claimed (record holding_target.account { account_data = holding_data }) authorized
            ∷ new_claimed (record metadata_target.account { account_data = metadata_data })
                authorized
            ∷ [])

  unfoldable pub initialize_account :
      AccountWithMetadata → AccountWithMetadata → Guest (List AccountPostState)
  initialize_account definition_account account_to_initialize = do
    assert (account_eq account_to_initialize.account default_account)
        "Only Uninitialized accounts can be initialized"
    definition ←
        expect (codec.decode_definition definition_account.account.account_data)
          "Definition account must be valid"
    holding_data ←
        data_from_holding codec (zeroized_from_definition definition_account.account_id definition)
    ok (
        post_state definition_account.account
        ∷ new_claimed (record account_to_initialize.account { account_data = holding_data })
            authorized
        ∷ [])

  unfoldable pub print_nft :
      AccountWithMetadata → AccountWithMetadata → Guest (List AccountPostState)
  unfolding print_copy
  print_nft master_account printed_account = do
    assert master_account.is_authorized "Master NFT Account must be authorized"
    assert (account_eq printed_account.account default_account)
        "Printed Account must be uninitialized"
    master ←
        expect (codec.decode_holding master_account.account.account_data)
          "Invalid Token Holding data"
    printed ← print_copy master
    master_data ← data_from_holding codec printed.0
    printed_data ← data_from_holding codec (nft_printed_copy printed.1 true)
    ok (
        post_state (record master_account.account { account_data = master_data })
        ∷ new_claimed (record printed_account.account { account_data = printed_data }) authorized
        ∷ [])

  -- What `rotate_authority` and `revoke_authority` share.
  unfoldable pub with_changed_authority :
      (Authority → Guest Authority)
      → AccountWithMetadata
      → AccountWithMetadata
      → String
      → Guest (List AccountPostState)
  unfolding change_authority
  with_changed_authority change definition_account authority_account message = do
    definition ←
        expect (codec.decode_definition definition_account.account.account_data)
          "Token Definition account must be valid"
    changed ← change_authority change definition message
    definition_data ← data_from_definition codec changed
    ok (
        post_state (record definition_account.account { account_data = definition_data })
        ∷ new_claimed_if_default authority_account.account authorized
        ∷ [])

  unfoldable pub rotate_authority :
      AccountWithMetadata → AccountWithMetadata → AccountId → Guest (List AccountPostState)
  unfolding with_changed_authority
  rotate_authority definition_account authority_account new_admin =
      with_changed_authority (λ authority. transfer authority authority_account new_admin)
        definition_account authority_account
        "rotate_authority is only supported for fungible tokens"

  unfoldable pub revoke_authority :
      AccountWithMetadata → AccountWithMetadata → Guest (List AccountPostState)
  unfolding with_changed_authority
  revoke_authority definition_account authority_account =
      with_changed_authority (λ authority. revoke authority authority_account) definition_account
        authority_account "revoke_authority is only supported for fungible tokens"
