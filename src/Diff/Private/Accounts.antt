-- ===== src/Diff/Private/Accounts.antt =====
-- What an accepted privacy preserving transaction does to the public accounts.
use logos_execution_zone.Prelude.{ℕ, ◌⊎◌, inl, inr, ◌≡◌, ◌∙◌, ap, sym, ok, >>=-eq-ok, expect-eq-ok}
use logos_execution_zone.Core.Account.{AccountId, Account}
use logos_execution_zone.Transactions.{PrivacyPreservingTransaction}
use logos_execution_zone.Host.{Host}
use logos_execution_zone.State.{State, get_account_by_id, write_accounts, apply_state_diff}
use logos_execution_zone.State.Totals.{count, add_nonce, get_account-increment_nonces}
use logos_execution_zone.Diff.Call.{current_account}
use logos_execution_zone.Diff.Call.Writes.{current_account-write_accounts}
use logos_execution_zone.Diff.Public.Transition.{apply_state_diff-parts}
use logos_execution_zone.Diff.Private.{
  from_privacy_preserving_transaction, transition_from_privacy_preserving_transaction,
}
use logos_execution_zone.Diff.Private.Listed.{IsListed, IsUnlisted}
use logos_execution_zone.Diff.Private.Spent.{
  signers, from_privacy_preserving_transaction-IsVerified,
}

module _ (host : Host) (tx : PrivacyPreservingTransaction) (state : State)
    (block_id timestamp : ℕ) where
  -- After an accepted transaction each account that its message lists with a post state is that post
  -- state, and every other account is as before, but for the nonce, which is raised by the number
  -- of times that the account is among the signers.
  pub account-transition :
      {next : State} (j : AccountId)
      → transition_from_privacy_preserving_transaction host tx state block_id timestamp ≡ ok next
      → ((post : Account) × IsListed tx.message.public_account_ids tx.message.public_post_states j
            post
          × (get_account_by_id next j ≡ add_nonce (count j (signers host tx)) post))
        ⊎ (IsUnlisted tx.message.public_account_ids tx.message.public_post_states j
            × (get_account_by_id next j
                ≡ add_nonce (count j (signers host tx)) (get_account_by_id state j)))
  unfolding transition_from_privacy_preserving_transaction current_account
  account-transition {next} j h =
      let (diff, valid, h1) =
        >>=-eq-ok (from_privacy_preserving_transaction host tx state block_id timestamp) _ h in
      let applied =
        expect-eq-ok (apply_state_diff host state diff) "panic while applying the diff" h1 in
      let (written, _) = apply_state_diff-parts host state diff applied in
      let verified =
        from_privacy_preserving_transaction-IsVerified host tx state block_id timestamp valid in
      let result = verified.result in
      let raised =
        get_account-increment_nonces diff.signer_account_ids
          (write_accounts diff.public_diff state.public_state) j written in
      let before = current_account-write_accounts state diff.public_diff j in
      let e : get_account_by_id next j
          ≡ add_nonce (count j diff.signer_account_ids) (current_account state diff.public_diff j) =
        raised ∙ ap (add_nonce (count j diff.signer_account_ids)) (sym before) in
      let ids = ap (λ d. d.signer_account_ids) result in
      let written_diff = ap (λ d. d.public_diff) result in
      let f : get_account_by_id next j
          ≡ add_nonce (count j (signers host tx)) (current_account state verified.writes j) =
        rw (ids, written_diff) at e in
      elim (verified.listed j) [
        | inl (post, found, listed) ↦ inl (post, listed, rw found at f)
        | inr (nothing, unlisted) ↦ inr (unlisted, rw nothing at f)
      ]
