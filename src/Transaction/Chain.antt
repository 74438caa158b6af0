-- ===== src/Transaction/Chain.antt =====
-- The chain: the states that transactions lead to, one after the other.
use logos_execution_zone.Prelude.{ℕ, ◌≡◌, ok, expect-eq-ok, >>=-eq-ok}
use logos_execution_zone.Transactions.{PublicTransaction}
use logos_execution_zone.Host.{Host}
use logos_execution_zone.State.{State, StateDiff, apply_state_diff}
use logos_execution_zone.State.Grows.{
  Grows, Grows-refl, Grows-trans, IsNewProgram, apply_state_diff-Grows,
}
use logos_execution_zone.Diff.Public.{from_public_transaction, transition_from_public_transaction}
use logos_execution_zone.Diff.Private.Spent.{from_privacy_preserving_transaction-IsVerified}
use logos_execution_zone.Transaction.{
  NssaTransaction, public, privacy_preserving, program_deployment, validated_diff,
  execute_check_on_state,
}
use logos_execution_zone.Transaction.Clock.{execute_check_on_state-parts, validate_on_state-parts}
use logos_execution_zone.Transaction.Parts.{public-program, deployed-program}

-- One step: a transaction of a user, or a public transaction of the sequencer itself, which is not
-- checked for the clock accounts and the faucet.
pub data Step (host : Host) (state : State) : State → Type 0 where
  user :
      {next : State} (tx : NssaTransaction) (block_id timestamp : ℕ) {tx' : NssaTransaction}
      → execute_check_on_state host tx state block_id timestamp ≡ ok (tx', next)
      → Step host state next
  sequencer :
      {next : State} (tx : PublicTransaction) (block_id timestamp : ℕ)
      → transition_from_public_transaction host tx state block_id timestamp ≡ ok next
      → Step host state next

pub data Chain (host : Host) (state : State) : State → Type 0 where
  start : Chain host state state
  step :
      {middle last : State}
      → Chain host state middle
      → Step host middle last
      → Chain host state last

module _ (host : Host) where
  validated_diff-program :
      (tx : NssaTransaction) (state : State) (block_id timestamp : ℕ) {diff : StateDiff}
      → validated_diff host tx state block_id timestamp ≡ ok diff
      → IsNewProgram state diff.program
  unfolding validated_diff
  validated_diff-program (public tx) state block_id timestamp h =
      public-program host tx state block_id timestamp h
  validated_diff-program (privacy_preserving tx) state block_id timestamp h =
      rw
        ((from_privacy_preserving_transaction-IsVerified host tx state block_id timestamp h).result)
        tt
  validated_diff-program (program_deployment tx) state block_id timestamp h =
      deployed-program host tx state h

  Step-Grows : {state next : State} → Step host state next → Grows state next
  unfolding transition_from_public_transaction
  Step-Grows {state} (user tx block_id timestamp h) =
      let (diff, e, applied) = execute_check_on_state-parts host tx state block_id timestamp h in
      let (_, valid, _) = validate_on_state-parts host tx state block_id timestamp e in
      apply_state_diff-Grows host state diff
        (validated_diff-program tx state block_id timestamp valid) applied
  Step-Grows {state} (sequencer tx block_id timestamp h) =
      let (diff, e, h1) =
        >>=-eq-ok (from_public_transaction host tx state block_id timestamp) _ h in
      let applied =
        expect-eq-ok (apply_state_diff host state diff) "panic while applying the diff" h1 in
      apply_state_diff-Grows host state diff (public-program host tx state block_id timestamp e)
        applied

  -- However the chain goes on, a spent nullifier stays spent, a commitment stays seen, a root stays
  -- recognised, and a deployed program is never replaced.
  pub Chain-Grows : {state last : State} → Chain host state last → Grows state last
  Chain-Grows start = Grows-refl _
  Chain-Grows (step before last) = Grows-trans _ _ _ (Chain-Grows before) (Step-Grows last)
