-- ===== src/Transaction/Clock.antt =====
-- No transaction that a user submits moves the clock.
use logos_execution_zone.Prelude.{
  ℕ, ◌≡◌, ◌∙◌, true, false, not, some, List, [], ◌∷◌, Dict, get, contains, ok, ensure-bind, expect,
  expect-eq-ok, >>=-eq-ok, arith, ap, Option-cases, inl, inr,
}
use logos_execution_zone.Core.Account.{AccountId, Account, account_eq_sound}
use logos_execution_zone.Host.{Host}
use logos_execution_zone.State.{
  State, StateDiff, invalid_input, get_account, get_account_by_id, write_accounts, apply_state_diff,
}
use logos_execution_zone.State.Totals.{
  count, get_account-write_accounts, get_account-increment_nonces, add_nonce,
}
use logos_execution_zone.Diff.Public.Transition.{apply_state_diff-parts}
use logos_execution_zone.Transaction.{
  NssaTransaction, clock_program_account_ids, touches, check_faucet, validated_diff,
  validate_on_state, execute_check_on_state,
}

untouched :
    (ids : List AccountId) (diff : Dict Account) (state : State) (j : AccountId)
    → touches ids diff state ≡ false
    → contains ids j ≡ true
    → get_account (write_accounts diff state.public_state) j ≡ get_account state.public_state j
unfolding touches
untouched [] diff state j h found = cc
untouched (k ∷ ids) diff state j h found = elim (Option-cases (get diff j)) [
  | inl e ↦ ground (arith, e, get_account-write_accounts diff state.public_state j)
  | inr (post, e) ↦ ground (
    arith,
    e,
    get_account-write_accounts diff state.public_state j,
    untouched ids diff state j,
    account_eq_sound post (get_account state.public_state j),
  )
]

module _ (host : Host) (tx : NssaTransaction) (state : State) (block_id timestamp : ℕ) where
  pub validate_on_state-parts :
      {diff : StateDiff}
      → validate_on_state host tx state block_id timestamp ≡ ok diff
      → (check_faucet host tx ≡ ok tt)
        × (validated_diff host tx state block_id timestamp ≡ ok diff)
        × (touches clock_program_account_ids diff.public_diff state ≡ false)
  unfolding validate_on_state
  validate_on_state-parts h =
      let (_, allowed, h1) = >>=-eq-ok (check_faucet host tx) _ h in
      let (diff, e, h2) = >>=-eq-ok (validated_diff host tx state block_id timestamp) _ h1 in
      let (still, h3) =
        ensure-bind (not (touches clock_program_account_ids diff.public_diff state))
          (invalid_input "Transaction modifies system clock accounts") _ h2 in
      (allowed, ground (arith, e, h3), ground (arith, still, h3))

  pub execute_check_on_state-parts :
      {tx' : NssaTransaction} {next : State}
      → execute_check_on_state host tx state block_id timestamp ≡ ok (tx', next)
      → (diff : StateDiff) × (validate_on_state host tx state block_id timestamp ≡ ok diff)
        × (apply_state_diff host state diff ≡ some next)
  unfolding execute_check_on_state
  execute_check_on_state-parts h =
      let (diff, e, h1) = >>=-eq-ok (validate_on_state host tx state block_id timestamp) _ h in
      let (after, e2, h2) =
        >>=-eq-ok (expect (apply_state_diff host state diff) "panic while applying the diff") _
          h1 in
      (
        diff,
        e,
        ground (
          arith,
          expect-eq-ok (apply_state_diff host state diff) "panic while applying the diff" e2,
          h2,
        ),
      )

  -- A transaction that the sequencer executes for a user changes of the clock accounts nothing but
  -- the nonce, by the number of times that the account has signed.
  pub clock-execute_check_on_state :
      {tx' : NssaTransaction} {next : State}
      → execute_check_on_state host tx state block_id timestamp ≡ ok (tx', next)
      → (j : AccountId) → contains clock_program_account_ids j ≡ true
      → (diff : StateDiff) × (validated_diff host tx state block_id timestamp ≡ ok diff)
        × (get_account_by_id next j
            ≡ add_nonce (count j diff.signer_account_ids) (get_account_by_id state j))
  clock-execute_check_on_state h j clock =
      let (diff, e, applied) = execute_check_on_state-parts h in
      let (_, valid, still) = validate_on_state-parts e in
      let (nonces, _) = apply_state_diff-parts host state diff applied in
      (
        diff,
        valid,
        get_account-increment_nonces diff.signer_account_ids
              (write_accounts diff.public_diff state.public_state) j nonces
            ∙ ap (add_nonce (count j diff.signer_account_ids))
                (untouched clock_program_account_ids diff.public_diff state j still clock),
      )
