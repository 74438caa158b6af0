-- ===== src/Diff/Public/History.antt =====
-- What holds along any sequence of accepted public transactions.
use logos_execution_zone.Prelude.{ℕ, ◌≤◌, ◌<◌, ◌≡◌, ◌≢◌, refl, ◌∙◌, length, ok, err, arith, sym}
use logos_execution_zone.Core.Account.{AccountId, default_program_id}
use logos_execution_zone.Transactions.{PublicTransaction}
use logos_execution_zone.Host.{Host}
use logos_execution_zone.State.{State, invalid_input, get_account_by_id}
use logos_execution_zone.State.Totals.{total_balance}
use logos_execution_zone.Diff.Public.{transition_from_public_transaction}
use logos_execution_zone.Diff.Public.Sound.{ReturnsWords}
use logos_execution_zone.Diff.Public.Transition.{
  total_balance-transition, nonce-transition, owner-transition,
}
use logos_execution_zone.Diff.Public.Replay.{transition_refused_again}

-- The states that accepted public transactions lead to, one after the other.
pub data History (host : Host) (state : State) : State → Type 0 where
  begin : History host state state
  accept :
      {middle last : State} (tx : PublicTransaction) (block_id timestamp : ℕ)
      → History host state middle
      → transition_from_public_transaction host tx middle block_id timestamp ≡ ok last
      → History host state last

-- What does not change from one state to a later one, and nonces that only grow.
pub record IsLater (state later : State) : Type 0 where
  pub total : total_balance later.public_state ≡ total_balance state.public_state
  pub nonces :
      (j : AccountId) → (get_account_by_id state j).nonce ≤ (get_account_by_id later j).nonce
  pub owners :
      (j : AccountId)
      → (get_account_by_id state j).program_owner ≢ default_program_id
      → (get_account_by_id later j).program_owner ≡ (get_account_by_id state j).program_owner

module _ (host : Host) (words : ReturnsWords host) where
  -- If every output of the executor holds `u128` balances: through any sequence of accepted public
  -- transactions the total of the public balances is kept, no nonce shrinks, and an account whose
  -- owner is not the default one keeps it.
  pub History-IsLater : {state last : State} → History host state last → IsLater state last
  History-IsLater begin = record {
    total = refl;
    nonces = λ j. omega arith;
    owners = λ j owned. refl;
  }
  History-IsLater {state} {last} (accept {middle} tx block_id timestamp before accepted) =
      let past = History-IsLater before in
      record {
        total =
            total_balance-transition host tx middle block_id timestamp words accepted ∙ past.total;
        nonces = λ j. omega (
          arith,
          nonce-transition host tx middle block_id timestamp words accepted j,
          past.nonces j,
        );
        owners = λ j owned.
            let kept = past.owners j owned in
            owner-transition host tx middle block_id timestamp words accepted j
              (λ e. owned (sym kept ∙ e))
            ∙ kept;
      }

  -- If every output of the executor holds `u128` balances: a public transaction with at least one
  -- signature that was accepted once is refused with a nonce mismatch after any sequence of public
  -- transactions accepted after it.
  pub accepted_once :
      (tx : PublicTransaction) (state : State) (block_id timestamp : ℕ) {next later : State}
      (later_block later_timestamp : ℕ)
      → 0 < length tx.signatures_and_public_keys
      → transition_from_public_transaction host tx state block_id timestamp ≡ ok next
      → History host next later
      → transition_from_public_transaction host tx later later_block later_timestamp
        ≡ err (invalid_input "Nonce mismatch")
  accepted_once tx state block_id timestamp {later = later} later_block later_timestamp signed
        accepted history =
      transition_refused_again host words tx state block_id timestamp later later_block
        later_timestamp signed accepted (History-IsLater history).nonces
