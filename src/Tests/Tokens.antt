-- ===== src/Tests/Tokens.antt =====
-- The token program on concrete accounts.
use logos_execution_zone.Prelude.{
  ℕ, ◌-◌, ◌<◌, ◌≡◌, ◌↔◌, refl, some, none, true, false, List, [], ◌∷◌, ok, panic, arith, le_bytes,
}
use logos_execution_zone.Core.Account.{
  AccountId, AccountWithMetadata, default_account, account_eq, bytes_eq,
}
use logos_execution_zone.Core.Program.{
  AccountPostState, post_state, new_claimed, new_claimed_if_default, authorized,
}
use logos_execution_zone.Approval.{Authority, gate, revoke, renounced_error}
use logos_execution_zone.Token.Core.{
  TokenDefinition, TokenHolding, data_from_bytes, amount_of, definition_id_of,
}
use logos_execution_zone.Token.Transfer.{transfer, recipient_holding_of, move_holdings}
use logos_execution_zone.Token.Transfer.Moves.{IsTransfer, transfer-IsTransfer}
use logos_execution_zone.Token.Supply.{
  mint, mint_with_authority, burn, holding_or_fresh, mint_units, mint_units_with_authority,
  burn_units, minted_post_states, authority_of,
}
use logos_execution_zone.Token.Supply.Mint.{IsMint, mint-IsMint, mint_with_authority-IsMint}
use logos_execution_zone.Token.Supply.Burn.{IsBurn, burn-IsBurn}
use logos_execution_zone.Token.Define.{
  revoke_authority, rotate_authority, with_changed_authority, change_authority, print_nft,
  print_copy, new_fungible_definition_with_authority,
}
use logos_execution_zone.Token.Define.Revoke.{revoke_authority-is_final}
use logos_execution_zone.Token.Define.Issue.{
  IsIssue, print_nft-amounts, new_fungible_definition_with_authority-IsIssue,
}
use logos_execution_zone.Token.Core as Token
use logos_execution_zone.Token.Program.{run_instruction}
use logos_execution_zone.Host.{for_public_pda}
use logos_execution_zone.Programs.Ata.{
  Effects, compute_ata_seed, get_associated_token_account_id, verify_ata_and_get_seed,
  transfer_from_associated_token_account,
}
use logos_execution_zone.Programs.Ata.Paid.{
  opened, ata_effects, IsOwnTransfer, PanicsOr, transfer_from_associated_token_account-IsTransfer,
}
use logos_execution_zone.Tests.World.{host, digest}
use logos_execution_zone.Tests.Coding.{codec, codec-IsCodec}

abbrev token_account : ℕ → List ℕ → AccountWithMetadata
token_account id bytes = record {
  account = record { program_owner = 60; balance = 0; account_data = bytes; nonce = 0 };
  is_authorized = true;
  account_id = id;
}

abbrev fresh_account : ℕ → AccountWithMetadata
fresh_account id = record { account = default_account; is_authorized = true; account_id = id }

-- A token with a supply of 100, administered by account 4, all held by account 2.
abbrev definition : AccountWithMetadata
definition = token_account 1 (
    codec.encode_definition
      (TokenDefinition.fungible (84 ∷ []) 100 none (record { admin = some 4 })))

abbrev holding : AccountWithMetadata
holding = token_account 2 (codec.encode_holding (TokenHolding.fungible 1 100))

abbrev administrator : AccountWithMetadata
administrator = token_account 4 []

-- The post state of an account whose data have changed.
abbrev written : AccountWithMetadata → List ℕ → AccountPostState
written pre bytes = post_state (record pre.account { account_data = bytes })

abbrev supplied : ℕ → AccountPostState
supplied supply = written definition (
    codec.encode_definition
      (TokenDefinition.fungible (84 ∷ []) supply none (record { admin = some 4 })))

abbrev held : ℕ → AccountPostState
held amount = written holding (codec.encode_holding (TokenHolding.fungible 1 amount))

abbrev sent : List AccountPostState
sent =
    held 70
    ∷ new_claimed
        (record default_account {
          account_data = codec.encode_holding (TokenHolding.fungible 1 30);
        })
        authorized
    ∷ []

transfer_lem : transfer codec holding (fresh_account 3) 30 ≡ ok sent
unfolding transfer recipient_holding_of move_holdings account_eq bytes_eq data_from_bytes
transfer_lem = refl

transfer-IsTransfer_example : IsTransfer codec holding (fresh_account 3) 30 sent
transfer-IsTransfer_example =
    transfer-IsTransfer codec codec-IsCodec holding (fresh_account 3) 30 transfer_lem

-- The account of owner 8 for token 1, by the program 9.
abbrev owner : AccountWithMetadata
owner = fresh_account 8

abbrev ata : AccountWithMetadata
ata = record holding {
  account_id = for_public_pda host 9 (compute_ata_seed host 8 1);
  is_authorized = false;
}

abbrev words_of : Token.Instruction → List ℕ
words_of (Token.transfer amount) = 0 ∷ amount ∷ []
words_of instruction = 5 ∷ []

abbrev ata_effected : Effects
ata_effected = ata_effects host codec words_of owner ata (fresh_account 3) 30 1

ata_called :
    transfer_from_associated_token_account host codec words_of owner ata (fresh_account 3) 9 30
    ≡ ok ata_effected
unfolding transfer_from_associated_token_account verify_ata_and_get_seed
    get_associated_token_account_id compute_ata_seed digest le_bytes for_public_pda
ata_called = refl

ata_sent : run_instruction codec (Token.transfer 30) (opened ata ∷ fresh_account 3 ∷ []) ≡ ok sent
unfolding run_instruction transfer recipient_holding_of move_holdings account_eq bytes_eq
    data_from_bytes
ata_sent = refl

transfer_from_associated_token_account-IsTransfer_example :
    ((transfer_from_associated_token_account host codec words_of owner ata (fresh_account 3) 9 30
        ≡ ok ata_effected)
      ↔ IsOwnTransfer host codec words_of owner ata (fresh_account 3) 9 30 ata_effected)
    × PanicsOr
        (IsTransfer codec (opened ata) (fresh_account 3) 30)
        (run_instruction codec (Token.transfer 30) (opened ata ∷ fresh_account 3 ∷ []))
transfer_from_associated_token_account-IsTransfer_example =
    transfer_from_associated_token_account-IsTransfer host codec words_of codec-IsCodec owner ata
      (fresh_account 3) 9 30 ata_effected

mint_lem : mint codec definition holding 20 ≡ ok (supplied 120 ∷ held 120 ∷ [])
unfolding mint holding_or_fresh mint_units minted_post_states account_eq bytes_eq data_from_bytes
mint_lem = refl

mint-IsMint_example :
    (true ≡ true)
    × ((before : TokenDefinition) × (results : AccountPostState × AccountPostState) × (supplied 120
            ∷ held 120
            ∷ []
          ≡ results.0 ∷ results.1 ∷ [])
        × IsMint codec definition holding 20 before results.0 results.1)
mint-IsMint_example = mint-IsMint codec codec-IsCodec definition holding 20 mint_lem

mint_with_authority_lem :
    mint_with_authority codec definition holding administrator 20
    ≡ ok (supplied 120 ∷ held 120 ∷ post_state administrator.account ∷ [])
unfolding mint_with_authority holding_or_fresh mint_units_with_authority minted_post_states
    authority_of gate account_eq bytes_eq data_from_bytes
mint_with_authority_lem = ground arith

mint_with_authority-IsMint_example :
    (before : TokenDefinition) × (results : AccountPostState × AccountPostState)
    × (authority : Authority) × (supplied 120 ∷ held 120 ∷ post_state administrator.account ∷ []
        ≡ results.0 ∷ results.1 ∷ new_claimed_if_default administrator.account authorized ∷ [])
    × IsMint codec definition holding 20 before results.0 results.1
    × (authority_of before "mint_with_authority is only supported for fungible tokens"
        ≡ ok authority)
    × (authority.admin ≡ some 4)
    × (true ≡ true)
mint_with_authority-IsMint_example =
    mint_with_authority-IsMint codec codec-IsCodec definition holding administrator 20
      mint_with_authority_lem

burn_lem : burn codec definition holding 40 ≡ ok (supplied 60 ∷ held 60 ∷ [])
unfolding burn burn_units data_from_bytes
burn_lem = refl

burn-IsBurn_example : IsBurn codec definition holding 40 (supplied 60 ∷ held 60 ∷ [])
burn-IsBurn_example = burn-IsBurn codec codec-IsCodec definition holding 40 burn_lem

-- The definition after its authority has been revoked.
abbrev orphaned : AccountWithMetadata
orphaned = token_account 1 (
    codec.encode_definition (TokenDefinition.fungible (84 ∷ []) 100 none (record { admin = none })))

revoke_lem :
    revoke_authority codec definition administrator
    ≡ ok (post_state orphaned.account ∷ post_state administrator.account ∷ [])
unfolding revoke_authority with_changed_authority change_authority revoke gate data_from_bytes
revoke_lem = ground arith

revoke_authority-is_final_example :
    (true ≡ true)
    × ((before : TokenDefinition) × (codec.decode_definition definition.account.account_data
          ≡ some before)
        × (authority_of before "" ≡ ok (record { admin = some 4 })))
    × (mint_with_authority codec orphaned holding administrator 1 ≡ panic renounced_error)
    × (rotate_authority codec orphaned administrator 5 ≡ panic renounced_error)
    × (revoke_authority codec orphaned administrator ≡ panic renounced_error)
revoke_authority-is_final_example =
    revoke_authority-is_final codec codec-IsCodec definition administrator orphaned holding
      administrator 1 5 revoke_lem refl

abbrev master : AccountWithMetadata
master = token_account 7 (codec.encode_holding (TokenHolding.nft_master 6 3))

abbrev printed : List AccountPostState
printed =
    written master (codec.encode_holding (TokenHolding.nft_master 6 2))
    ∷ new_claimed
        (record default_account {
          account_data = codec.encode_holding (TokenHolding.nft_printed_copy 6 true);
        })
        authorized
    ∷ []

print_lem : print_nft codec master (fresh_account 8) ≡ ok printed
unfolding print_nft print_copy account_eq bytes_eq data_from_bytes
print_lem = refl

print_nft-amounts_example :
    (token : AccountId) × (units : ℕ) × (master_data : List ℕ) × (copy_data : List ℕ) × (true
      ≡ true)
    × (default_account ≡ default_account)
    × (codec.decode_holding master.account.account_data
        ≡ some (TokenHolding.nft_master token units))
    × (1 < units)
    × (codec.decode_holding master_data ≡ some (TokenHolding.nft_master token (units - 1)))
    × (codec.decode_holding copy_data ≡ some (TokenHolding.nft_printed_copy token true))
    × (printed
        ≡ post_state (record master.account { account_data = master_data })
          ∷ new_claimed (record default_account { account_data = copy_data }) authorized
          ∷ [])
print_nft-amounts_example = print_nft-amounts codec codec-IsCodec master (fresh_account 8) print_lem

abbrev issued : List AccountPostState
issued =
    new_claimed
      (record default_account {
        account_data =
            codec.encode_definition
              (TokenDefinition.fungible (84 ∷ []) 100 none (record { admin = some 4 }));
      })
      authorized
    ∷ new_claimed
        (record default_account {
          account_data = codec.encode_holding (TokenHolding.fungible 1 100);
        })
        authorized
    ∷ []

issue_lem :
    new_fungible_definition_with_authority codec
      (fresh_account 1)
      (fresh_account 2)
      (84 ∷ [])
      100
      (some 4)
    ≡ ok issued
unfolding new_fungible_definition_with_authority account_eq bytes_eq data_from_bytes
issue_lem = refl

new_fungible_definition_with_authority-IsIssue_example :
    (results : AccountPostState × AccountPostState) × (issued ≡ results.0 ∷ results.1 ∷ [])
    × IsIssue codec (fresh_account 1) (fresh_account 2) 100 results.0 results.1
new_fungible_definition_with_authority-IsIssue_example =
    new_fungible_definition_with_authority-IsIssue codec codec-IsCodec (fresh_account 1)
      (fresh_account 2) (84 ∷ []) 100 (some 4) (omega arith) issue_lem
