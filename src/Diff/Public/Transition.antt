-- ===== src/Diff/Public/Transition.antt =====
-- What an accepted public transaction does to the state, for every behaviour of the programs.
use logos_execution_zone.Prelude.{
  ℕ, ◌+◌, ◌≡◌, ◌≢◌, ◌∙◌, true, some, List, [], ◌∷◌, ok, and_then-eq-some, >>=-eq-ok, expect-eq-ok,
  ◌==◌, n_unique, length, ensure-bind, arith,
}
use logos_execution_zone.Core.Account.{AccountId, default_program_id}
use logos_execution_zone.Core.Program.{max_number_chained_calls}
use logos_execution_zone.Transactions.{PublicTransaction}
use logos_execution_zone.Host.{Host, public_message_hash}
use logos_execution_zone.State.{
  State, StateDiff, get_account_by_id, write_accounts, increment_nonces, apply_state_diff,
  extend_commitments, invalid_input,
}
use logos_execution_zone.State.Totals.{
  total_balance, count, get_account-increment_nonces, total_balance-increment_nonces,
}
use logos_execution_zone.Diff.Checks.{check_signers, signer_account_ids}
use logos_execution_zone.Diff.Call.{current_account}
use logos_execution_zone.Diff.Call.Writes.{current_account-write_accounts}
use logos_execution_zone.Diff.Public.{
  process_calls, check_claimed, initial_call, from_public_transaction,
  transition_from_public_transaction,
}
use logos_execution_zone.Diff.Public.Sound.{
  ReturnsWords, IsSound, IsSound-empty, process_calls-IsSound,
}

module _ (host : Host) where
  -- The public accounts and the other parts of the state after a diff has been applied.
  pub apply_state_diff-parts :
      (state : State) (diff : StateDiff) {next : State}
      → apply_state_diff host state diff ≡ some next
      → (increment_nonces diff.signer_account_ids
            (write_accounts diff.public_diff state.public_state)
          ≡ some next.public_state)
        × (extend_commitments host diff.new_commitments state.commitment_set
            ≡ some next.commitment_set)
  unfolding apply_state_diff
  apply_state_diff-parts state diff h =
      let (accounts, e1, h1) =
        and_then-eq-some
          (increment_nonces diff.signer_account_ids
            (write_accounts diff.public_diff state.public_state))
          _ h in
      let (commitments, e2, h2) =
        and_then-eq-some (extend_commitments host diff.new_commitments state.commitment_set) _ h1 in
      (ground (arith, e1, h2), ground (arith, e2, h2))

  -- The signers of the transaction.
  abbrev pub signers : PublicTransaction → List AccountId
  signers tx = signer_account_ids host tx.signatures_and_public_keys

  module _ (tx : PublicTransaction) (state : State) (block_id timestamp : ℕ) where
    pub from_public_transaction-parts :
        {diff : StateDiff}
        → from_public_transaction host tx state block_id timestamp ≡ ok diff
        → ((n_unique tx.message.account_ids == length tx.message.account_ids) ≡ true)
          × (check_signers host state
                (public_message_hash host tx.message)
                tx.signatures_and_public_keys
                tx.message.nonces
              ≡ ok tt)
          × (process_calls host state block_id timestamp
                (max_number_chained_calls + 1)
                (initial_call host state tx ∷ [])
                []
              ≡ ok diff.public_diff)
          × (check_claimed state diff.public_diff ≡ ok tt)
          × (diff.signer_account_ids ≡ signers tx)
    unfolding from_public_transaction
    from_public_transaction-parts h =
        let (unique, h1) =
          ensure-bind (n_unique tx.message.account_ids == length tx.message.account_ids)
            (invalid_input "Duplicate account_ids found in message") _ h in
        let (_, signed, h2) =
          >>=-eq-ok
            (check_signers host state (public_message_hash host tx.message)
              tx.signatures_and_public_keys tx.message.nonces)
            _ h1 in
        let (final, processed, h3) =
          >>=-eq-ok
            (process_calls host state block_id timestamp (max_number_chained_calls + 1)
              (initial_call host state tx ∷ []) [])
            _ h2 in
        let (_, claimed, h4) = >>=-eq-ok (check_claimed state final) _ h3 in
        (
          unique,
          signed,
          ground (arith, processed, h4),
          ground (arith, claimed, h4),
          ground (arith, h4),
        )

    pub transition-parts :
        {next : State}
        → transition_from_public_transaction host tx state block_id timestamp ≡ ok next
        → (diff : StateDiff) × (from_public_transaction host tx state block_id timestamp ≡ ok diff)
          × (increment_nonces (signers tx) (write_accounts diff.public_diff state.public_state)
              ≡ some next.public_state)
    unfolding transition_from_public_transaction
    transition-parts h =
        let (diff, e, h1) =
          >>=-eq-ok (from_public_transaction host tx state block_id timestamp) _ h in
        let applied =
          expect-eq-ok (apply_state_diff host state diff) "panic while applying the diff" h1 in
        let (_, _, _, _, same) = from_public_transaction-parts e in
        (diff, e, rw same at ((apply_state_diff-parts state diff applied).0))

    module _ (words : ReturnsWords host) {next : State}
        (accepted : transition_from_public_transaction host tx state block_id timestamp
          ≡ ok next) where
      diff-IsSound :
          (diff : StateDiff) × IsSound state diff.public_diff
          × (increment_nonces (signers tx) (write_accounts diff.public_diff state.public_state)
              ≡ some next.public_state)
      diff-IsSound =
          let (diff, e, applied) = transition-parts accepted in
          let (_, _, processed, _, _) = from_public_transaction-parts e in
          (
            diff,
            process_calls-IsSound host words state block_id timestamp (max_number_chained_calls + 1)
                _ [] (IsSound-empty state) processed,
            applied,
          )

      -- If every output of the executor holds `u128` balances, an accepted public transaction
      -- keeps the total of all public balances, whatever its programs do.
      pub total_balance-transition :
          total_balance next.public_state ≡ total_balance state.public_state
      total_balance-transition =
          let (diff, sound, applied) = diff-IsSound in
          total_balance-increment_nonces (signers tx) _ applied ∙ sound.total

      after_nonces :
          (j : AccountId)
          → (diff : StateDiff) × IsSound state diff.public_diff
            × ((get_account_by_id next j).nonce
                ≡ (current_account state diff.public_diff j).nonce + count j (signers tx))
            × ((get_account_by_id next j).program_owner
                ≡ (current_account state diff.public_diff j).program_owner)
      after_nonces j =
          let (diff, sound, applied) = diff-IsSound in
          let e =
            get_account-increment_nonces (signers tx)
              (write_accounts diff.public_diff state.public_state) j applied in
          let c = current_account-write_accounts state diff.public_diff j in
          (diff, sound, ground (arith, e, c), ground (arith, e, c))

      -- If every output of the executor holds `u128` balances, an accepted public transaction
      -- raises the nonce of each account by the number of times that the account is among its
      -- signers.
      pub nonce-transition :
          (j : AccountId)
          → (get_account_by_id next j).nonce
            ≡ (get_account_by_id state j).nonce + count j (signers tx)
      nonce-transition j =
          let (diff, sound, e, _) = after_nonces j in omega (arith, e, sound.nonces j)

      -- If every output of the executor holds `u128` balances, an account whose owner is not the
      -- default one keeps its owner through an accepted public transaction.
      pub owner-transition :
          (j : AccountId)
          → (get_account_by_id state j).program_owner ≢ default_program_id
          → (get_account_by_id next j).program_owner ≡ (get_account_by_id state j).program_owner
      owner-transition j owned =
          let (diff, sound, _, e) = after_nonces j in e ∙ sound.owners j owned
