-- ===== src/Tests/Programs.antt =====
-- The built-in programs on concrete accounts.
use logos_execution_zone.Prelude.{
  ℕ, ◌+◌, ◌≡◌, ◌↔◌, inr, refl, ◌≤◌, some, true, false, List, [], ◌∷◌, ok, panic, arith, u128_max,
}
use logos_execution_zone.Core.Account.{AccountWithMetadata, Account}
use logos_execution_zone.Core.Program.{AccountPostState, post_state}
use logos_execution_zone.Core.Validate.Rules.{IsWellBehaved}
use logos_execution_zone.Approval.{Authority, new, renounced, gate, revoke, renounced_error}
use logos_execution_zone.Approval
use logos_execution_zone.Approval.Gate.{gate_exact, revoke-is_final}
use logos_execution_zone.Programs.AuthTransfer
use logos_execution_zone.Programs.AuthTransfer.{transfer}
use logos_execution_zone.Programs.AuthTransfer.Accepted.{
  transfer_exact, transfer-IsWellBehaved, transferred,
}
use logos_execution_zone.Programs.Vault.{Serializer, claim, vault_calls}
use logos_execution_zone.Programs.Vault.Paid.{opened, payout_call, claim-pays}
use logos_execution_zone.Programs.Clock.{
  ClockAccountData, tick, update_if_multiple, has_other_account,
}
use logos_execution_zone.Programs.Clock.Ticks.{refreshed, tick-next_block}
use logos_execution_zone.Token.Core.{data_from_bytes}
use logos_execution_zone.Transaction.{clock_account_id, number_of_bytes}
use logos_execution_zone.Tests.Coding.{clock_codec, clock_codec-IsClockCodec}
use logos_execution_zone.Tests.World.{host}

abbrev account_of : ℕ → ℕ → List ℕ → Account
account_of owner balance bytes = record {
  program_owner = owner;
  balance = balance;
  account_data = bytes;
  nonce = 0;
}

abbrev sender : AccountWithMetadata
sender = record { account = account_of 40 100 []; is_authorized = true; account_id = 1 }

abbrev recipient : AccountWithMetadata
recipient = record { account = account_of 0 0 []; is_authorized = true; account_id = 2 }

transfer_exact_example : (transfer sender recipient 30 ≡ ok (transferred sender recipient 30)) ↔ (
    (sender.is_authorized ≡ true)
    × (30 ≤ sender.account.balance)
    × (recipient.account.balance + 30 ≤ u128_max)
    × (transferred sender recipient 30 ≡ transferred sender recipient 30))
transfer_exact_example = transfer_exact sender recipient 30 (transferred sender recipient 30)

sent : transfer sender recipient 30 ≡ ok (transferred sender recipient 30)
unfolding transfer
sent = refl

transfer-IsWellBehaved_example :
    IsWellBehaved 40 (sender ∷ recipient ∷ []) (transferred sender recipient 30)
transfer-IsWellBehaved_example =
    transfer-IsWellBehaved 40 sender recipient 30 (transferred sender recipient 30) sent
      (omega arith) (omega arith) refl (omega arith) (inr refl)

gate_exact_example :
    (gate (new 1) sender ≡ ok tt)
    ↔ (((new 1).admin ≡ some sender.account_id) × (sender.is_authorized ≡ true))
gate_exact_example = gate_exact (new 1) sender

revoked : revoke (new 1) sender ≡ ok renounced
unfolding revoke gate
revoked = ground arith

revoke-is_final_example :
    (gate renounced sender ≡ panic renounced_error)
    × (Approval.transfer renounced sender 3 ≡ panic renounced_error)
    × (revoke renounced sender ≡ panic renounced_error)
revoke-is_final_example = revoke-is_final (new 1) sender sender 3 revoked

abbrev serializer : Serializer
serializer = record {
  auth_transfer_words = λ i. elim i [
    | AuthTransfer.initialize ↦ 0 ∷ []
    | AuthTransfer.transfer_amount amount ↦ 1 ∷ amount ∷ []
  ];
  vault_words = λ i. [];
}

abbrev vault : AccountWithMetadata
vault = record { account = account_of 40 60 []; is_authorized = false; account_id = 3 }

claim-pays_example :
    ((vault_calls host serializer (claim 25) (sender ∷ vault ∷ [])
        ≡ ok (payout_call host serializer sender vault 25 ∷ []))
      ↔ ((sender.is_authorized ≡ true)
          × (payout_call host serializer sender vault 25 ∷ []
              ≡ payout_call host serializer sender vault 25 ∷ [])))
    × ((AuthTransfer.run_instruction
            (AuthTransfer.transfer_amount 25)
            (opened host serializer vault ∷ sender ∷ [])
          ≡ ok (transferred (opened host serializer vault) sender 25))
        ↔ ((25 ≤ 60)
            × (sender.account.balance + 25 ≤ u128_max)
            × (transferred (opened host serializer vault) sender 25
                ≡ transferred (opened host serializer vault) sender 25)))
claim-pays_example =
    claim-pays host serializer sender vault 25 (payout_call host serializer sender vault 25 ∷ [])
      (transferred (opened host serializer vault) sender 25)

abbrev clock_account : ℕ → List ℕ → AccountWithMetadata
clock_account id bytes = record {
  account = account_of 50 0 bytes;
  is_authorized = false;
  account_id = id;
}

abbrev clock_01 : AccountWithMetadata
clock_01 = clock_account (clock_account_id "/LEZ/ClockProgramAccount/0000001") (9 ∷ 900 ∷ [])

abbrev clock_10 : AccountWithMetadata
clock_10 = clock_account (clock_account_id "/LEZ/ClockProgramAccount/0000010") (0 ∷ 0 ∷ [])

abbrev clock_50 : AccountWithMetadata
clock_50 = clock_account (clock_account_id "/LEZ/ClockProgramAccount/0000050") (0 ∷ 0 ∷ [])

-- Block 10: the first two accounts are refreshed.
abbrev tenth_block : List AccountPostState
tenth_block =
    post_state (account_of 50 0 (10 ∷ 1000 ∷ []))
    ∷ post_state (account_of 50 0 (10 ∷ 1000 ∷ []))
    ∷ post_state (account_of 50 0 (0 ∷ 0 ∷ []))
    ∷ []

ticked : tick clock_codec 50 clock_01 clock_10 clock_50 1000 ≡ ok tenth_block
unfolding tick has_other_account update_if_multiple data_from_bytes number_of_bytes
ticked = refl

tick-next_block_example :
    (previous next : ClockAccountData) × (clock_codec.from_bytes clock_01.account.account_data
      ≡ some previous)
    × (next ≡ record { block_id = previous.block_id + 1; timestamp = 1000 })
    × (clock_codec.from_bytes (refreshed clock_codec clock_01 1 next).account_data ≡ some next)
    × (tenth_block
        ≡ post_state (refreshed clock_codec clock_01 1 next)
          ∷ post_state (refreshed clock_codec clock_10 10 next)
          ∷ post_state (refreshed clock_codec clock_50 50 next)
          ∷ [])
tick-next_block_example =
    tick-next_block clock_codec clock_codec-IsClockCodec 50 clock_01 clock_10 clock_50 1000
      (omega arith) ticked
