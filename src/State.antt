-- ===== src/State.antt =====
-- nssa/src/state.rs: the state of the chain, and the writes of a validated diff.
pub mod Totals
pub mod Grows
use logos_execution_zone.Prelude.{
  ℕ, ◌+◌, ◌++◌, Bool, Option, none, some, List, [], ◌∷◌, Dict, get, insert, contains_key, contains,
  and_then, Result, ok, err, if◌then◌else◌, ensure, ◌>>◌, String, not,
}
use logos_execution_zone.Core.Account.{
  AccountId, ProgramId, Account, default_account, public_account_nonce_increment,
}
use logos_execution_zone.Core.Program.{ProgramOutput}
use logos_execution_zone.Core.Validate.{ExecutionValidationError}
use logos_execution_zone.Transactions.{Commitment, Nullifier, CommitmentSetDigest}
use logos_execution_zone.Host.{Host}
use logos_execution_zone.Merkle
use logos_execution_zone.Merkle.{MerkleTree}

-- nssa/src/program.rs: `Program`
pub record Program : Type 0 where
  pub id : ProgramId
  pub elf : List ℕ

-- nssa/src/error.rs
pub data InvalidProgramBehaviorError : Type 0 where
  inconsistent_account_pre_state : AccountId → Account → Account → InvalidProgramBehaviorError
  invalid_account_authorization : AccountId → InvalidProgramBehaviorError
  mismatched_program_id : ProgramId → ProgramId → InvalidProgramBehaviorError
  mismatched_caller_program_id : Option ProgramId → Option ProgramId → InvalidProgramBehaviorError
  execution_validation_failed : ExecutionValidationError → InvalidProgramBehaviorError
  claimed_non_default_account : AccountId → InvalidProgramBehaviorError
  claimed_unauthorized_account : AccountId → InvalidProgramBehaviorError
  mismatched_pda_claim : AccountId → AccountId → InvalidProgramBehaviorError
  default_account_modified_without_claim : AccountId → InvalidProgramBehaviorError

-- The errors that the validation of a transaction raises.
pub data NssaError : Type 0 where
  invalid_input : String → NssaError
  invalid_program_behavior : InvalidProgramBehaviorError → NssaError
  program_execution_failed : NssaError
  invalid_privacy_preserving_proof : NssaError
  invalid_program_bytecode : NssaError
  program_already_exists : NssaError
  max_chained_calls_depth_exceeded : NssaError
  out_of_validity_window : NssaError

-- `root_history` is a set: a list whose order and repetitions do not matter.
pub record CommitmentSet : Type 0 where
  pub merkle_tree : MerkleTree
  pub commitments : Dict ℕ
  pub root_history : List CommitmentSetDigest

pub record State : Type 0 where
  pub public_state : Dict Account
  pub commitment_set : CommitmentSet
  pub nullifier_set : List Nullifier
  pub programs : Dict Program

-- nssa/src/validated_state_diff.rs: `StateDiff`
pub record StateDiff : Type 0 where
  pub signer_account_ids : List AccountId
  pub public_diff : Dict Account
  pub new_commitments : List Commitment
  pub new_nullifiers : List Nullifier
  pub program : Option Program

-- `or_default`, and `unwrap_or_else(Account::default)`
abbrev pub account_or_default : Option Account → Account
account_or_default (some account) = account
account_or_default none = default_account

-- `get_account_by_id`, on the map of the public accounts
unfoldable pub get_account : Dict Account → AccountId → Account
get_account accounts account_id = account_or_default (get accounts account_id)

abbrev pub get_account_by_id : State → AccountId → Account
get_account_by_id state account_id = get_account state.public_state account_id

-- The loop of `apply_state_diff` over `public_diff`. The source iterates over a hash map in no
-- particular order; here the last entry is written first.
unfoldable pub write_accounts : Dict Account → Dict Account → Dict Account
write_accounts [] accounts = accounts
write_accounts ((account_id, account) ∷ diff) accounts =
    insert account_id account (write_accounts diff accounts)

-- The loop over the signers: `None` is the panic of a nonce that overflows.
unfoldable pub increment_nonces : List AccountId → Dict Account → Option (Dict Account)
increment_nonces [] accounts = some accounts
increment_nonces (account_id ∷ ids) accounts =
    let account = get_account accounts account_id in
    and_then (public_account_nonce_increment account.nonce)
      λ nonce. increment_nonces ids (insert account_id (record account { nonce = nonce }) accounts)

abbrev pub insert_program : Program → Dict Program → Dict Program
insert_program program programs = insert program.id program programs

abbrev pub insert_optional_program : Option Program → Dict Program → Dict Program
insert_optional_program none programs = programs
insert_optional_program (some program) programs = insert_program program programs

-- `NullifierSet::extend` and `contains`, on a list that stands for the set.
abbrev pub extend_nullifiers : List Nullifier → List Nullifier → List Nullifier
extend_nullifiers new nullifiers = new ++ nullifiers

module _ (host : Host) where
  -- The loop of `CommitmentSet::extend`.
  unfoldable pub insert_commitments : List Commitment → CommitmentSet → Option CommitmentSet
  insert_commitments [] set = some set
  insert_commitments (commitment ∷ rest) set =
      and_then (Merkle.insert host.sha256 commitment set.merkle_tree) λ placed.
        insert_commitments rest (record set {
          merkle_tree = placed.1;
          commitments = insert commitment placed.0 set.commitments;
        })

  -- `CommitmentSet::extend`: the new root is remembered.
  unfoldable pub extend_commitments : List Commitment → CommitmentSet → Option CommitmentSet
  unfolding insert_commitments
  extend_commitments commitments set = and_then (insert_commitments commitments set) λ next.
      and_then (Merkle.root next.merkle_tree)
        λ digest. some (record next { root_history = digest ∷ next.root_history })

  -- `V03State::apply_state_diff`; `None` is a panic.
  unfoldable pub apply_state_diff : State → StateDiff → Option State
  apply_state_diff state diff =
      and_then
        (increment_nonces diff.signer_account_ids
          (write_accounts diff.public_diff state.public_state))
        λ accounts.
          and_then (extend_commitments diff.new_commitments state.commitment_set) λ commitments.
            some (record {
              public_state = accounts;
              commitment_set = commitments;
              nullifier_set = extend_nullifiers diff.new_nullifiers state.nullifier_set;
              programs = insert_optional_program diff.program state.programs;
            })

-- `check_commitments_are_new`
unfoldable pub check_commitments_are_new : State → List Commitment → Result NssaError (Unit {0})
check_commitments_are_new state [] = ok tt
check_commitments_are_new state (commitment ∷ rest) =
    ensure (not (contains_key state.commitment_set.commitments commitment))
      (invalid_input "Commitment already seen")
    >> check_commitments_are_new state rest

-- `check_nullifiers_are_valid`
unfoldable pub check_nullifiers_are_valid :
    State → List (Nullifier × CommitmentSetDigest) → Result NssaError (Unit {0})
check_nullifiers_are_valid state [] = ok tt
check_nullifiers_are_valid state ((nullifier, digest) ∷ rest) =
    ensure (not (contains state.nullifier_set nullifier)) (invalid_input "Nullifier already seen")
    >> ensure (contains state.commitment_set.root_history digest)
        (invalid_input "Unrecognized commitment set digest")
    >> check_nullifiers_are_valid state rest
