-- ===== src/Transaction.antt =====
-- common/src/transaction.rs: a transaction of any kind, as the sequencer checks and executes it.
pub mod Clock
pub mod Parts
pub mod Chain
pub mod Again
use logos_execution_zone.Prelude.{
  ℕ, Bool, true, false, not, ◌||◌, Option, none, some, List, [], ◌∷◌, codes, get, Dict, Result, ok,
  err, panic, ensure, expect, ◌>>=◌, ◌>>◌, ◌==◌, ◌+◌, ◌*◌, if◌then◌else◌, String,
}
use logos_execution_zone.Core.Account.{AccountId, Account, account_eq}
use logos_execution_zone.Transactions.{
  PublicTransaction, PrivacyPreservingTransaction, ProgramDeploymentTransaction,
}
use logos_execution_zone.Host.{Host, public_message_hash, private_message_hash}
use logos_execution_zone.State.{
  State, StateDiff, NssaError, invalid_input, get_account_by_id, apply_state_diff,
}
use logos_execution_zone.Diff.Checks.{signatures_are_valid_for}
use logos_execution_zone.Diff.Public.{from_public_transaction}
use logos_execution_zone.Diff.Private.{from_privacy_preserving_transaction}
use logos_execution_zone.Diff.Deploy.{from_program_deployment_transaction}

pub data NssaTransaction : Type 0 where
  public : PublicTransaction → NssaTransaction
  privacy_preserving : PrivacyPreservingTransaction → NssaTransaction
  program_deployment : ProgramDeploymentTransaction → NssaTransaction

pub data TransactionMalformationError : Type 0 where
  invalid_signature : TransactionMalformationError

-- An identifier is the number of its bytes, the least significant first.
unfoldable pub number_of_bytes : List ℕ → ℕ
number_of_bytes [] = 0
number_of_bytes (byte ∷ bytes) = byte + 256 * number_of_bytes bytes

-- programs/clock/core/src/lib.rs: the identifiers of the clock accounts
abbrev pub clock_account_id : String → AccountId
clock_account_id literal = number_of_bytes (codes literal)

unfoldable pub clock_program_account_ids : List AccountId
unfolding number_of_bytes
clock_program_account_ids =
    clock_account_id "/LEZ/ClockProgramAccount/0000001"
    ∷ clock_account_id "/LEZ/ClockProgramAccount/0000010"
    ∷ clock_account_id "/LEZ/ClockProgramAccount/0000050"
    ∷ []

-- `touches_clock`: a post state of the diff that differs from the account of the state.
unfoldable pub touches : List AccountId → Dict Account → State → Bool
touches [] diff state = false
touches (account_id ∷ ids) diff state =
    elim (get diff account_id) [
      | none ↦ false
      | some post ↦ not (account_eq post (get_account_by_id state account_id))
    ]
    || touches ids diff state

module _ (host : Host) where
  -- The stateless check of the signatures.
  unfoldable pub transaction_stateless_check :
      NssaTransaction → Result TransactionMalformationError NssaTransaction
  transaction_stateless_check (public tx) =
      if signatures_are_valid_for host (public_message_hash host tx.message)
        tx.signatures_and_public_keys
      then ok (public tx)
      else err invalid_signature
  transaction_stateless_check (privacy_preserving tx) =
      if signatures_are_valid_for host (private_message_hash host tx.message)
        tx.signatures_and_public_keys
      then ok (privacy_preserving tx)
      else err invalid_signature
  transaction_stateless_check (program_deployment tx) = ok (program_deployment tx)

  -- The direct invocation of the faucet program is refused.
  unfoldable pub check_faucet : NssaTransaction → Result NssaError (Unit {0})
  check_faucet (public tx) =
      ensure (not (tx.message.program_id == host.faucet_id))
        (invalid_input "Transaction invokes restricted faucet program")
  check_faucet (privacy_preserving tx) = ok tt
  check_faucet (program_deployment tx) = ok tt

  unfoldable pub validated_diff : NssaTransaction → State → ℕ → ℕ → Result NssaError StateDiff
  validated_diff (public tx) state block_id timestamp =
      from_public_transaction host tx state block_id timestamp
  validated_diff (privacy_preserving tx) state block_id timestamp =
      from_privacy_preserving_transaction host tx state block_id timestamp
  validated_diff (program_deployment tx) state block_id timestamp =
      from_program_deployment_transaction host tx state

  unfoldable pub validate_on_state : NssaTransaction → State → ℕ → ℕ → Result NssaError StateDiff
  unfolding check_faucet validated_diff clock_program_account_ids touches
  validate_on_state tx state block_id timestamp = do
    check_faucet tx
    diff ← validated_diff tx state block_id timestamp
    ensure (not (touches clock_program_account_ids diff.public_diff state))
        (invalid_input "Transaction modifies system clock accounts")
    ok diff

  -- The transaction and the state after it.
  unfoldable pub execute_check_on_state :
      NssaTransaction → State → ℕ → ℕ → Result NssaError (NssaTransaction × State)
  unfolding validate_on_state
  execute_check_on_state tx state block_id timestamp = do
    diff ← validate_on_state tx state block_id timestamp
    next ← expect (apply_state_diff host state diff) "panic while applying the diff"
    ok (tx, next)
