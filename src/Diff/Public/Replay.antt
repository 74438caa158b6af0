-- ===== src/Diff/Public/Replay.antt =====
-- A public transaction that was accepted once is refused from then on.
use logos_execution_zone.Prelude.{
  ℕ, ◌+◌, ◌≤◌, ◌<◌, ◌≡◌, List, [], ◌∷◌, ok, err, length, length-map, arith,
}
use logos_execution_zone.Core.Account.{AccountId, Nonce}
use logos_execution_zone.Transactions.{PublicTransaction, Signature, PublicKey}
use logos_execution_zone.Host.{Host, account_id_of_public_key, public_message_hash}
use logos_execution_zone.State.{State, get_account_by_id, invalid_input}
use logos_execution_zone.State.Totals.{count}
use logos_execution_zone.Diff.Checks.{check_signers, check_nonces, signer_account_ids}
use logos_execution_zone.Diff.Public.{from_public_transaction, transition_from_public_transaction}
use logos_execution_zone.Diff.Public.Sound.{ReturnsWords}
use logos_execution_zone.Diff.Public.Transition.{
  signers, nonce-transition, transition-parts, from_public_transaction-parts,
}

-- The nonces of the signers have all grown past those of `state`.
abbrev HaveGrown : State → State → List AccountId → Type 0
HaveGrown state later ids =
    (j : AccountId)
    → (get_account_by_id state j).nonce + count j ids ≤ (get_account_by_id later j).nonce

-- One signer with a nonce that has been used is enough.
check_nonces_stale :
    (state later : State) (ids : List AccountId) (nonces : List Nonce)
    → 0 < length ids
    → length ids ≡ length nonces
    → HaveGrown state later ids
    → check_nonces state ids nonces ≡ ok tt
    → check_nonces later ids nonces ≡ err (invalid_input "Nonce mismatch")
unfolding check_nonces
check_nonces_stale state later [] nonces some lengths grown h = absurd (omega arith)
check_nonces_stale state later (k ∷ ids) [] some lengths grown h = absurd (omega arith)
check_nonces_stale state later (k ∷ ids) (n ∷ nonces) some lengths grown h = ground (arith, grown k)

length-signers :
    (host : Host) (witnesses : List (Signature × PublicKey))
    → length (signer_account_ids host witnesses) ≡ length witnesses
unfolding signer_account_ids
length-signers host witnesses =
    length-map witnesses (λ entry. account_id_of_public_key host entry.1)

-- The checks of the signers end in the nonce mismatch once the nonces have grown.
module _ (host : Host) (state later : State) (message_hash : ℕ)
    (witnesses : List (Signature × PublicKey)) (nonces : List Nonce) where
  check_signers_stale :
      0 < length witnesses
      → HaveGrown state later (signer_account_ids host witnesses)
      → check_signers host state message_hash witnesses nonces ≡ ok tt
      → check_signers host later message_hash witnesses nonces
        ≡ err (invalid_input "Nonce mismatch")
  unfolding check_signers
  check_signers_stale some grown h =
      let stale = check_nonces_stale state later (signer_account_ids host witnesses) nonces in
      ground (arith, length-signers host witnesses, stale, some, grown)

module _ (host : Host) (words : ReturnsWords host) (tx : PublicTransaction) (state : State) where
  -- If every output of the executor holds `u128` balances: once a transaction with at least one
  -- signature has been accepted, it is refused with a nonce mismatch in every state where the
  -- nonces are at least those after it.
  pub transition_refused_again :
      (block_id timestamp : ℕ) {next : State} (later : State) (later_block later_timestamp : ℕ)
      → 0 < length tx.signatures_and_public_keys
      → transition_from_public_transaction host tx state block_id timestamp ≡ ok next
      → ((j : AccountId) → (get_account_by_id next j).nonce ≤ (get_account_by_id later j).nonce)
      → transition_from_public_transaction host tx later later_block later_timestamp
        ≡ err (invalid_input "Nonce mismatch")
  unfolding transition_from_public_transaction from_public_transaction
  transition_refused_again block_id timestamp later later_block later_timestamp signed accepted
        grown =
      let (diff, e, _) = transition-parts host tx state block_id timestamp accepted in
      let (unique, checked, _, _, _) =
        from_public_transaction-parts host tx state block_id timestamp e in
      let past : HaveGrown state later (signers host tx) = λ j.
        omega
          (arith, grown j, nonce-transition host tx state block_id timestamp words accepted j) in
      let stale =
        check_signers_stale host state later (public_message_hash host tx.message)
          tx.signatures_and_public_keys tx.message.nonces signed past checked in
      ground (arith, unique, stale)
