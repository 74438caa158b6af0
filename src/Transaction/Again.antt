-- ===== src/Transaction/Again.antt =====
-- What the chain refuses for good: spent nullifiers, seen commitments, deployed programs.
use logos_execution_zone.Prelude.{
  ℕ, ◌≡◌, ◌≢◌, ap, true, some, get, contains, contains_key, ok, err, arith,
}
use logos_execution_zone.Transactions.{
  Commitment, Nullifier, PrivacyPreservingTransaction, ProgramDeploymentTransaction,
}
use logos_execution_zone.Core.Account.{ProgramId}
use logos_execution_zone.Host.{Host}
use logos_execution_zone.State.{Program, State, StateDiff, program_already_exists, apply_state_diff}
use logos_execution_zone.State.Grows.{
  apply_state_diff-sets, contains-append, extend_commitments-keeps,
}
use logos_execution_zone.Diff.Private.Spent.{
  spent_by, IsVerified, from_privacy_preserving_transaction-IsVerified,
}
use logos_execution_zone.Diff.Deploy.{new_program, from_program_deployment_transaction}
use logos_execution_zone.Transaction.{
  NssaTransaction, privacy_preserving, program_deployment, check_faucet, validated_diff,
  validate_on_state, execute_check_on_state,
}
use logos_execution_zone.Transaction.Clock.{execute_check_on_state-parts, validate_on_state-parts}
use logos_execution_zone.Transaction.Chain.{Chain, Chain-Grows}

module _ (host : Host) where
  -- An executed transaction was verified, and its nullifiers and commitments are seen afterwards.
  executed-IsVerified :
      (tx : PrivacyPreservingTransaction) (state : State) (block_id timestamp : ℕ)
      {tx' : NssaTransaction} {next : State}
      → execute_check_on_state host (privacy_preserving tx) state block_id timestamp
        ≡ ok (tx', next)
      → (diff : StateDiff) × IsVerified host tx state block_id timestamp diff
        × (apply_state_diff host state diff ≡ some next)
  unfolding validated_diff
  executed-IsVerified tx state block_id timestamp h =
      let (diff, e, applied) =
        execute_check_on_state-parts host (privacy_preserving tx) state block_id timestamp h in
      let (_, valid, _) =
        validate_on_state-parts host (privacy_preserving tx) state block_id timestamp e in
      (
        diff,
        from_privacy_preserving_transaction-IsVerified host tx state block_id timestamp valid,
        applied,
      )

  module _ (tx : PrivacyPreservingTransaction) (state : State) (block_id timestamp : ℕ)
      {tx' : NssaTransaction} {next : State}
      (executed : execute_check_on_state host (privacy_preserving tx) state block_id timestamp
        ≡ ok (tx', next)) where
    spent-executed :
        (n : Nullifier) → contains (spent_by tx) n ≡ true → contains next.nullifier_set n ≡ true
    spent-executed n found =
        let (diff, verified, applied) = executed-IsVerified tx state block_id timestamp executed in
        let (_, sets, _) = apply_state_diff-sets host state diff applied in
        let e : diff.new_nullifiers ≡ spent_by tx = ap (λ d. d.new_nullifiers) verified.result in
        rw sets (rw e (ground (arith, contains-append (spent_by tx) state.nullifier_set n, found)))

    seen-executed :
        (c : Commitment)
        → contains tx.message.new_commitments c ≡ true
        → contains_key next.commitment_set.commitments c ≡ true
    seen-executed c found =
        let (diff, verified, applied) = executed-IsVerified tx state block_id timestamp executed in
        let (extended, _, _) = apply_state_diff-sets host state diff applied in
        let e : diff.new_commitments ≡ tx.message.new_commitments =
          ap (λ d. d.new_commitments) verified.result in
        let (found_after, _) =
          extend_commitments-keeps host diff.new_commitments state.commitment_set c extended in
        ground (arith, found_after, e, found)

    -- There is no double spend: once a transaction that spends a nullifier has been executed, none that
    -- spends it is executed in any later state of the chain.
    pub double_spend_refused :
        {later : State} (other : PrivacyPreservingTransaction) (n : Nullifier)
        (later_block later_timestamp : ℕ)
        → Chain host next later
        → contains (spent_by tx) n ≡ true
        → contains (spent_by other) n ≡ true
        → {result : NssaTransaction × State}
        → execute_check_on_state host (privacy_preserving other) later later_block later_timestamp
          ≢ ok result
    double_spend_refused {later} other n later_block later_timestamp chain first second h =
        let spent = (Chain-Grows host chain).nullifiers n (spent-executed n first) in
        let (_, verified, _) = executed-IsVerified other later later_block later_timestamp h in
        let unspent = verified.unspent n second in cc (spent, unspent)

    -- No commitment is made twice: once a transaction that makes it has been executed, none that makes
    -- it is executed in any later state of the chain.
    pub commitment_refused :
        {later : State} (other : PrivacyPreservingTransaction) (c : Commitment)
        (later_block later_timestamp : ℕ)
        → Chain host next later
        → contains tx.message.new_commitments c ≡ true
        → contains other.message.new_commitments c ≡ true
        → {result : NssaTransaction × State}
        → execute_check_on_state host (privacy_preserving other) later later_block later_timestamp
          ≢ ok result
    commitment_refused {later} other c later_block later_timestamp chain first second h =
        let seen = (Chain-Grows host chain).commitments c (seen-executed c first) in
        let (_, verified, _) = executed-IsVerified other later later_block later_timestamp h in
        let new = verified.new c second in cc (seen, new)

  -- A deployed program is never replaced: in every later state of the chain its identifier stands
  -- for it, and the deployment of bytecode that has this identifier ends in
  -- `program_already_exists`.
  pub redeployment_refused :
      {state later : State} (tx : ProgramDeploymentTransaction) (program : Program) (id : ProgramId)
      (block_id timestamp : ℕ)
      → get state.programs id ≡ some program
      → Chain host state later
      → host.image_id tx.bytecode ≡ some id
      → (get later.programs id ≡ some program)
        × (execute_check_on_state host (program_deployment tx) later block_id timestamp
            ≡ err program_already_exists)
  unfolding execute_check_on_state validate_on_state check_faucet validated_diff
      from_program_deployment_transaction new_program
  redeployment_refused {state} {later} tx program id block_id timestamp deployed chain same =
      let kept = (Chain-Grows host chain).programs id program deployed in
      (kept, ground (arith, kept, same))
