-- ===== src/Token/Transfer.antt =====
-- programs/token/src/transfer.rs
pub mod Moves
use logos_execution_zone.Prelude.{
  ℕ, Bool, true, false, not, Option, List, [], ◌∷◌, Guest, ok, panic, ◌>>=◌, ◌>>◌, assert, expect,
  checked_add, checked_sub, if◌then◌else◌, ◌==◌,
}
use logos_execution_zone.Core.Account.{Account, AccountWithMetadata, default_account, account_eq}
use logos_execution_zone.Core.Program.{
  AccountPostState, authorized, post_state, new_claimed_if_default,
}
use logos_execution_zone.Token.Core.{
  Codec, TokenHolding, nft_master, nft_printed_copy, zeroized_clone_from, definition_id_of,
  data_from_holding,
}

-- The match on the two holdings.
unfoldable pub move_holdings : TokenHolding → TokenHolding → ℕ → Guest (TokenHolding × TokenHolding)
move_holdings (TokenHolding.fungible d sender_balance) (TokenHolding.fungible e recipient_balance)
      amount =
    do
      sender_left ← expect (checked_sub sender_balance amount) "Insufficient balance"
      recipient_left ← expect (checked_add recipient_balance amount) "Recipient balance overflow"
      ok (TokenHolding.fungible d sender_left, TokenHolding.fungible e recipient_left)
move_holdings (nft_master d sender_print_balance) (nft_master e recipient_print_balance) amount = do
  assert (recipient_print_balance == 0) "Invalid balance in recipient account for NFT transfer"
  assert (sender_print_balance == amount) "Invalid balance for NFT Master transfer"
  ok (nft_master d recipient_print_balance, nft_master e sender_print_balance)
move_holdings (nft_printed_copy d sender_owned) (nft_printed_copy e recipient_owned) amount = do
  assert (amount == 1) "Invalid balance for NFT Printed Copy transfer"
  assert sender_owned "Sender does not own the NFT Printed Copy"
  assert (not recipient_owned) "Recipient already owns the NFT Printed Copy"
  ok (nft_printed_copy d false, nft_printed_copy e true)
move_holdings sender recipient amount = panic "Mismatched token holding types for transfer"

module _ (codec : Codec) where
  -- The holding of the recipient, fresh if its account is default.
  unfoldable pub recipient_holding_of : TokenHolding → Account → Guest TokenHolding
  recipient_holding_of sender_holding recipient =
      if account_eq recipient default_account
      then ok (zeroized_clone_from sender_holding)
      else expect (codec.decode_holding recipient.account_data) "Invalid recipient data"

  unfoldable pub transfer :
      AccountWithMetadata → AccountWithMetadata → ℕ → Guest (List AccountPostState)
  unfolding recipient_holding_of move_holdings
  transfer sender recipient balance_to_move = do
    assert sender.is_authorized "Sender authorization is missing"
    sender_holding ← expect (codec.decode_holding sender.account.account_data) "Invalid sender data"
    recipient_holding ← recipient_holding_of sender_holding recipient.account
    assert (definition_id_of sender_holding == definition_id_of recipient_holding)
        "Sender and recipient definition id mismatch"
    moved ← move_holdings sender_holding recipient_holding balance_to_move
    sender_data ← data_from_holding codec moved.0
    recipient_data ← data_from_holding codec moved.1
    ok (
        post_state (record sender.account { account_data = sender_data })
        ∷ new_claimed_if_default (record recipient.account { account_data = recipient_data })
            authorized
        ∷ [])
