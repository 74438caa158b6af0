-- ===== src/Privacy/Execution.antt =====
-- program_methods/guest/src/bin/privacy_preserving_circuit/execution_state.rs:
-- `derive_from_outputs`, which checks the outputs of a chain of program executions. `env::verify` is a
-- parameter: without a receipt for the output there is no proof of the circuit.
pub mod Totals
pub mod Windows
pub mod Proven
use logos_execution_zone.Prelude.{
  ℕ, String, suc, ◌+◌, ◌<◌, Bool, true, false, not, ◌||◌, Option, none, some, List, [], ◌∷◌, ◌++◌,
  map, Dict, get, insert, contains_key, Result, Guest, ok, err, panic, ◌>>=◌, ◌>>◌, assert, expect,
  ◌==◌, leb, ltb, if◌then◌else◌,
}
use logos_execution_zone.Core.Account.{
  AccountId, ProgramId, default_program_id, Account, AccountWithMetadata, account_eq, bytes_eq,
}
use logos_execution_zone.Core.Window.{ValidityWindow, InvalidWindow, try_from}
use logos_execution_zone.Core.Program.{
  ChainedCall, chained_call, ProgramOutput, PdaSeed, max_number_chained_calls,
}
use logos_execution_zone.Core.Validate.{ExecutionValidationError, validate_execution}
use logos_execution_zone.Host.{Host}
use logos_execution_zone.Diff.Call.{caller_eq}
use logos_execution_zone.Privacy.Keys.{NullifierPublicKey, Identifier}
use logos_execution_zone.Privacy.Identity.{InputAccountIdentity, is_private_pda, npk_if_private_pda}
use logos_execution_zone.Privacy.Sync.{ExecutionState, validate_and_sync_states}

-- The larger and the smaller of two bounds, where a missing bound does not count.
abbrev pub max_of : Option ℕ → Option ℕ → Option ℕ
max_of none o = o
max_of (some b) none = some b
max_of (some b) (some c) = some (if leb c b then b else c)

abbrev pub min_of : Option ℕ → Option ℕ → Option ℕ
min_of none o = o
min_of (some b) none = some b
min_of (some b) (some c) = some (if leb b c then b else c)

-- `filter_map(bound).max()` and `filter_map(bound).min()`
unfoldable pub max_bound : List (Option ℕ) → Option ℕ
max_bound [] = none
max_bound (bound ∷ bounds) = max_of bound (max_bound bounds)

unfoldable pub min_bound : List (Option ℕ) → Option ℕ
min_bound [] = none
min_bound (bound ∷ bounds) = min_of bound (min_bound bounds)

-- `result.expect(message)`
abbrev pub expect_ok : {E A : Type 0} → Result E A → String → Guest A
expect_ok (ok a) message = ok a
expect_ok (err e) message = panic message
expect_ok (panic m) message = panic m

-- The intersection of the windows of all outputs.
unfoldable pub intersection : List ValidityWindow → String → Guest ValidityWindow
unfolding max_bound min_bound try_from
intersection windows message =
    expect_ok
      (try_from (max_bound (map (λ (w : ValidityWindow). w.start) windows))
        (min_bound (map (λ (w : ValidityWindow). w.end) windows)))
      message

-- A receipt for the output of a program is there.
abbrev pub Verify : Type 0
Verify = ProgramId → ProgramOutput → Bool

-- A call, and the program that made it.
abbrev pub Pending : Type 0
Pending = ChainedCall × Option ProgramId

abbrev pub next_calls : ChainedCall → ProgramOutput → List Pending
next_calls call output = map (λ next_call. (next_call, some call.program_id)) output.chained_calls

abbrev pub validated : Result ExecutionValidationError (Unit {0}) → Guest (Unit {0})
validated (ok u) = ok u
validated (err e) = panic "Invalid program behavior"
validated (panic m) = panic m

-- The call that the first output answers.
abbrev pub first_call : ProgramId → List ProgramOutput → Guest ChainedCall
first_call program_id [] = panic "No program outputs provided"
first_call program_id (output ∷ outputs) =
    ok (chained_call program_id output.pre_states output.instruction_data)

abbrev pub nothing_left : List ProgramOutput → Guest (Unit {0})
nothing_left [] = ok tt
nothing_left (output ∷ outputs) = panic "Inner call without a chained call found"

module _ (host : Host) (verify : Verify) where
  -- The map from positions to the keys of private program-derived accounts.
  unfoldable pub npk_by_position :
      ℕ → List InputAccountIdentity → Dict (NullifierPublicKey × Identifier)
  unfolding npk_if_private_pda
  npk_by_position position [] = []
  npk_by_position position (identity ∷ identities) = elim (npk_if_private_pda host identity) [
    | none ↦ npk_by_position (suc position) identities
    | some key ↦ (position, key) ∷ npk_by_position (suc position) identities
  ]

  -- The checks on one output, for the call that it answers.
  unfoldable pub check_output : ChainedCall → Option ProgramId → ProgramOutput → Guest (Unit {0})
  check_output call caller output = do
    assert (bytes_eq call.instruction_data output.instruction_data)
        "Mismatched instruction data between chained call and program output"
    assert (verify call.program_id output) "No receipt for the program output"
    assert (output.self_program_id == call.program_id)
        "Program output self_program_id does not match chained call program_id"
    assert (caller_eq output.caller_program_id caller)
        "Program output caller_program_id does not match actual caller"
    validated (validate_execution output.pre_states output.post_states call.program_id)

  -- The loop over the chained calls: the state, and the outputs that are left.
  unfoldable pub process_calls :
      List InputAccountIdentity
      → List ProgramOutput
      → List Pending
      → ℕ
      → ExecutionState
      → Guest (ExecutionState × List ProgramOutput)
  unfolding check_output validate_and_sync_states
  process_calls identities outputs [] counter state = ok (state, outputs)
  process_calls identities [] (pending ∷ calls) counter state = do
    assert (leb counter max_number_chained_calls) "Max chained calls depth is exceeded"
    panic "Insufficient program outputs for chained calls"
  process_calls identities (output ∷ outputs) ((call, caller) ∷ calls) counter state = do
    assert (leb counter max_number_chained_calls) "Max chained calls depth is exceeded"
    check_output call caller output
    next ←
        validate_and_sync_states host identities call.program_id caller call.pda_seeds state
          output.pre_states output.post_states
    process_calls identities outputs (next_calls call output ++ calls) (counter + 1) next

  -- Every private program-derived account has a proven binding.
  unfoldable pub check_bound : ExecutionState → ℕ → List InputAccountIdentity → Guest (Unit {0})
  check_bound state position [] = ok tt
  check_bound state position (identity ∷ identities) = do
    assert
        (not (is_private_pda identity) || contains_key state.private_pda_bound_positions position)
        "private PDA pre_state has no proven (seed, npk) binding"
    check_bound state (suc position) identities

  -- Every modified account that had no owner was claimed.
  unfoldable pub check_claimed : Dict Account → List AccountWithMetadata → Guest (Unit {0})
  check_claimed post_states [] = ok tt
  check_claimed post_states (pre ∷ pres) =
      if pre.account.program_owner == default_program_id
      then (do
        post ← expect (get post_states pre.account_id) "Post state must exist for pre state"
        assert (account_eq pre.account post || not (post.program_owner == default_program_id))
            "Account was modified but not claimed"
        check_claimed post_states pres)
      else check_claimed post_states pres

  -- The state before the first call, with the two windows.
  abbrev pub initial_state :
      List InputAccountIdentity → ValidityWindow → ValidityWindow → ExecutionState
  initial_state identities block_window timestamp_window = record {
    pre_states = [];
    post_states = [];
    block_validity_window = block_window;
    timestamp_validity_window = timestamp_window;
    private_pda_bound_positions = [];
    pda_family_binding = [];
    private_pda_npk_by_position = npk_by_position 0 identities;
  }

  unfoldable pub derive_from_outputs :
      List InputAccountIdentity → ProgramId → List ProgramOutput → Guest ExecutionState
  unfolding npk_by_position intersection process_calls check_bound check_claimed
  derive_from_outputs identities program_id program_outputs = do
    block_window ←
        intersection (map (λ (o : ProgramOutput). o.block_validity_window) program_outputs)
          "There should be non empty intersection in the program output block validity windows"
    timestamp_window ←
        intersection (map (λ (o : ProgramOutput). o.timestamp_validity_window) program_outputs)
          "There should be non empty intersection in the program output timestamp validity windows"
    initial_call ← first_call program_id program_outputs
    processed ←
        process_calls identities program_outputs ((initial_call, none) ∷ []) 0
          (initial_state identities block_window timestamp_window)
    nothing_left processed.1
    check_bound processed.0 0 identities
    check_claimed processed.0.post_states processed.0.pre_states
    ok processed.0
