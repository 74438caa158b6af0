-- ===== src/Privacy/Execution/Totals.antt =====
-- A checked execution keeps the total of the balances of all its accounts, public and private.
use logos_execution_zone.Prelude.{
  ℕ, ◌+◌, ◌≡◌, refl, Option, none, List, [], ◌∷◌, ◌++◌, map, length, All, ok, >>=-eq-ok, assert,
  subst, arith, leb,
}
use logos_execution_zone.Core.Account.{ProgramId}
use logos_execution_zone.Core.Program.{ChainedCall, ProgramOutput, max_number_chained_calls}
use logos_execution_zone.Core.Window.{ValidityWindow}
use logos_execution_zone.Core.Validate.{validate_execution, pre_balances, post_balances}
use logos_execution_zone.Core.Validate.Rules.{AreBalances, IsWellBehaved, validate_execution_iff}
use logos_execution_zone.Host.{Host}
use logos_execution_zone.State.Totals.{total_balance}
use logos_execution_zone.Privacy.Identity.{InputAccountIdentity}
use logos_execution_zone.Privacy.Sync.{ExecutionState, validate_and_sync_states}
use logos_execution_zone.Privacy.Sync.Totals.{
  total_before, total_now, validate_and_sync_states-IsBalanced,
}
use logos_execution_zone.Privacy.Execution.{
  Verify, Pending, next_calls, check_output, process_calls, check_bound, check_claimed,
  intersection, first_call, nothing_left, initial_state, derive_from_outputs,
}

-- The balances of the outputs are `u128`.
abbrev pub HoldWords : List ProgramOutput → Type 0
HoldWords = All λ output.
    AreBalances (pre_balances output.pre_states) × AreBalances (post_balances output.post_states)

-- As much is left as was met, and every account that was met has been left.
abbrev pub IsEven : ExecutionState → Type 0
IsEven s = (total_now s ≡ total_before s) × (length s.post_states ≡ length s.pre_states)

nothing_left-eq :
    (outputs : List ProgramOutput) {u : Unit {0}} → nothing_left outputs ≡ ok u → outputs ≡ []
nothing_left-eq [] h = refl
nothing_left-eq (output ∷ outputs) h = cc

module _ (host : Host) (verify : Verify) where
  pub check_output-IsWellBehaved :
      (call : ChainedCall) (caller : Option ProgramId) (output : ProgramOutput)
      → AreBalances (pre_balances output.pre_states)
      → AreBalances (post_balances output.post_states)
      → check_output host verify call caller output ≡ ok tt
      → IsWellBehaved call.program_id output.pre_states output.post_states
  unfolding check_output
  check_output-IsWellBehaved call caller output p q h =
      let valid : validate_execution output.pre_states output.post_states call.program_id ≡ ok tt =
        ground arith in
      (validate_execution_iff output.pre_states output.post_states p q call.program_id).0 valid

  process_calls-IsEven :
      (identities : List InputAccountIdentity) (outputs : List ProgramOutput) (calls : List Pending)
      (counter : ℕ) (s : ExecutionState) {result : ExecutionState × List ProgramOutput}
      → HoldWords outputs
      → IsEven s
      → process_calls host verify identities outputs calls counter s ≡ ok result
      → IsEven result.0
  unfolding process_calls
  process_calls-IsEven identities outputs [] counter s {result} words even h =
      let e : (s, outputs) ≡ result = cc h in
      subst (λ (r : ExecutionState × List ProgramOutput). IsEven r.0) e even
  process_calls-IsEven identities [] (pending ∷ calls) counter s words even h = ground arith
  process_calls-IsEven identities (output ∷ outputs) ((call, caller) ∷ calls) counter s words even
        h =
      let (_, _, h1) =
        >>=-eq-ok
          (assert (leb counter max_number_chained_calls) "Max chained calls depth is exceeded") _
          h in
      let (_, checked, h2) = >>=-eq-ok (check_output host verify call caller output) _ h1 in
      let (next, synced, h3) =
        >>=-eq-ok
          (validate_and_sync_states host identities call.program_id caller call.pda_seeds s
            output.pre_states output.post_states)
          _ h2 in
      let behaved = check_output-IsWellBehaved call caller output words.0.0 words.0.1 checked in
      let balanced =
        validate_and_sync_states-IsBalanced host identities call.program_id caller call.pda_seeds s
          output.pre_states output.post_states behaved.same_length synced in
      process_calls-IsEven identities outputs (next_calls call output ++ calls) (counter + 1) next
        words.1 (omega (arith, balanced, behaved.total_kept, even), omega (arith, balanced, even))
        h3

  -- The parts of an execution that is accepted.
  pub record IsAccepted (identities : List InputAccountIdentity) (program_id : ProgramId)
      (outputs : List ProgramOutput) (state : ExecutionState) : Type 0 where
    pub block_window : ValidityWindow
    pub timestamp_window : ValidityWindow
    pub call : ChainedCall
    pub block_intersection :
        intersection
          (map (λ (o : ProgramOutput). o.block_validity_window) outputs)
          "There should be non empty intersection in the program output block validity windows"
        ≡ ok block_window
    pub timestamp_intersection :
        intersection
          (map (λ (o : ProgramOutput). o.timestamp_validity_window) outputs)
          "There should be non empty intersection in the program output timestamp validity windows"
        ≡ ok timestamp_window
    pub processed :
        process_calls host verify identities outputs
          ((call, none) ∷ [])
          0
          (initial_state host verify identities block_window timestamp_window)
        ≡ ok (state, [])
    pub bound : check_bound host verify state 0 identities ≡ ok tt
    pub claimed : check_claimed host verify state.post_states state.pre_states ≡ ok tt

  pub derive_from_outputs-IsAccepted :
      (identities : List InputAccountIdentity) (program_id : ProgramId)
      (outputs : List ProgramOutput) {state : ExecutionState}
      → derive_from_outputs host verify identities program_id outputs ≡ ok state
      → IsAccepted identities program_id outputs state
  unfolding derive_from_outputs
  derive_from_outputs-IsAccepted identities program_id outputs {state} h =
      let (bw, b, h1) =
        >>=-eq-ok
          (intersection (map (λ (o : ProgramOutput). o.block_validity_window) outputs)
            "There should be non empty intersection in the program output block validity windows")
          _ h in
      let (tw, t, h2) =
        >>=-eq-ok
          (intersection (map (λ (o : ProgramOutput). o.timestamp_validity_window) outputs)
            "There should be non empty intersection in the program output timestamp validity windows")
          _ h1 in
      let (call, c, h3) = >>=-eq-ok (first_call program_id outputs) _ h2 in
      let (result, p, h4) =
        >>=-eq-ok
          (process_calls host verify identities outputs ((call, none) ∷ []) 0
            (initial_state host verify identities bw tw))
          _ h3 in
      let (_, n, h5) = >>=-eq-ok (nothing_left result.1) _ h4 in
      let (_, bound, h6) = >>=-eq-ok (check_bound host verify result.0 0 identities) _ h5 in
      let (_, claimed, h7) =
        >>=-eq-ok (check_claimed host verify result.0.post_states result.0.pre_states) _ h6 in
      let e : result.0 ≡ state = cc h7 in
      let empty : result.1 ≡ [] = nothing_left-eq result.1 n in
      record {
        block_window = bw;
        timestamp_window = tw;
        call = call;
        block_intersection = b;
        timestamp_intersection = t;
        processed = cc (p, e, empty);
        bound = rw e at bound;
        claimed = rw e at claimed;
      }

  pub derive_from_outputs-IsEven :
      (identities : List InputAccountIdentity) (program_id : ProgramId)
      (outputs : List ProgramOutput) {state : ExecutionState}
      → HoldWords outputs
      → derive_from_outputs host verify identities program_id outputs ≡ ok state
      → IsEven state
  derive_from_outputs-IsEven identities program_id outputs words h =
      let a = derive_from_outputs-IsAccepted identities program_id outputs h in
      process_calls-IsEven identities outputs ((a.call, none) ∷ []) 0
        (initial_state host verify identities a.block_window a.timestamp_window) words
        (unfold total_balance in (refl, refl)) a.processed
