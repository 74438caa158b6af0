-- ===== src/Diff/Public/Sound.antt =====
-- What every accepted public transaction keeps, whatever its programs do: the total of the public
-- balances, the nonces, and the owners that are set.
use logos_execution_zone.Prelude.{
  ℕ, zero, suc, ◌≡◌, ◌≢◌, refl, sym, ◌∙◌, subst, Option, some, List, [], ◌∷◌, ◌++◌, Dict, get, ok,
  >>=-eq-ok, ok_or, ok_or-eq-ok, AllPairs, arith,
}
use logos_execution_zone.Core.Account.{
  AccountId, ProgramId, default_program_id, Account, AccountWithMetadata,
}
use logos_execution_zone.Core.Program.{
  ChainedCall, ProgramOutput, InstructionData, AccountPostState,
}
use logos_execution_zone.Core.Validate.{validate_execution, pre_balances, post_balances}
use logos_execution_zone.Core.Validate.Rules.{AreBalances, IsWellBehaved, validate_execution_iff}
use logos_execution_zone.Host.{Host}
use logos_execution_zone.State.{
  State, get_account_by_id, invalid_input, program_execution_failed, Program, write_accounts,
}
use logos_execution_zone.State.Totals.{total_balance}
use logos_execution_zone.Diff.Call.{
  CallerData, current_account, check_pre_states, check_output, claim_post_states, write_post_states,
  execute, execute_call, compute_public_authorized_pdas,
}
use logos_execution_zone.Diff.Call.Writes.{
  total_after, AreCurrent, check_pre_states-AreCurrent, claim_post_states-IsClaimed, length-claimed,
  post_balances-claimed, AllPairs-IsStep, IsStep, IsClaimed, total_after-write_post_states,
  write_post_states-keeps,
}
use logos_execution_zone.Diff.Public.{process_calls}

-- A decoded output holds `u128` balances.
pub record ReturnsWords (host : Host) : Type 0 where
  pub outputs :
      (elf : List ℕ) (id : ProgramId) (caller : Option ProgramId) (pres : List AccountWithMetadata)
      (words : InstructionData) (output : ProgramOutput)
      → host.run_session elf id caller pres words ≡ some output
      → AreBalances (pre_balances output.pre_states)
        × AreBalances (post_balances output.post_states)

-- The diff so far has moved balances only within the total, changed no nonce, and kept each owner.
pub record IsSound (state : State) (diff : Dict Account) : Type 0 where
  pub total : total_after state diff ≡ total_balance state.public_state
  pub nonces :
      (j : AccountId) → (current_account state diff j).nonce ≡ (get_account_by_id state j).nonce
  pub owners :
      (j : AccountId)
      → (get_account_by_id state j).program_owner ≢ default_program_id
      → (current_account state diff j).program_owner ≡ (get_account_by_id state j).program_owner

pub IsSound-empty : (state : State) → IsSound state []
unfolding current_account get
IsSound-empty state = record {
  total = unfold write_accounts in refl;
  nonces = λ j. refl;
  owners = λ j h. refl;
}

-- An account that stands for the account `j` of the state keeps its nonce and its owner, if it has one.
abbrev pub IsKept : State → AccountId → Account → Type 0
IsKept state j account =
    (account.nonce ≡ (get_account_by_id state j).nonce)
    × ((get_account_by_id state j).program_owner ≢ default_program_id
        → account.program_owner ≡ (get_account_by_id state j).program_owner)

IsStep-IsKept :
    (state : State) (j : AccountId) (program_id : ProgramId) (pre post : Account)
    → IsKept state j pre
    → IsStep program_id pre post
    → IsKept state j post
IsStep-IsKept state j program_id pre post kept step =
    (step.nonce_kept ∙ kept.0, λ h. let e = kept.1 h in step.owner_kept (λ z. h (sym e ∙ z)) ∙ e)

module _ (state : State) where
  AllPairs-IsKept :
      (diff : Dict Account) (program_id : ProgramId) (pres : List AccountWithMetadata)
      (claimed : List AccountPostState)
      → ((j : AccountId) → IsKept state j (current_account state diff j))
      → AreCurrent state diff pres
      → AllPairs (λ pre post. IsStep program_id pre.account post.account) pres claimed
      → AllPairs (λ pre post. IsKept state pre.account_id post.account) pres claimed
  AllPairs-IsKept diff program_id [] [] kept current steps = tt
  AllPairs-IsKept diff program_id [] (c ∷ cs) kept current steps = elim steps [ ]
  AllPairs-IsKept diff program_id (p ∷ ps) [] kept current steps = elim steps [ ]
  AllPairs-IsKept diff program_id (p ∷ ps) (c ∷ cs) kept current steps = (
    IsStep-IsKept state p.account_id program_id p.account c.account
        (subst (IsKept state p.account_id) (sym current.0) (kept p.account_id)) steps.0,
    AllPairs-IsKept diff program_id ps cs kept current.1 steps.1,
  )

  write-IsSound :
      (diff : Dict Account) (program_id : ProgramId) (pres : List AccountWithMetadata)
      (posts claimed : List AccountPostState)
      → IsSound state diff
      → AreCurrent state diff pres
      → IsWellBehaved program_id pres posts
      → AllPairs (IsClaimed program_id) posts claimed
      → IsSound state (write_post_states pres claimed diff)
  write-IsSound diff program_id pres posts claimed sound current behaved claims =
      let lengths = length-claimed program_id posts claimed claims in
      let steps = AllPairs-IsStep program_id pres posts claimed behaved.allowed claims in
      let kept =
        write_post_states-keeps state (IsKept state) pres claimed diff
          (AllPairs-IsKept diff program_id pres claimed (λ j. (sound.nonces j, sound.owners j))
            current steps)
          (λ j. (sound.nonces j, sound.owners j)) in
      record {
        total = omega (
          arith,
          sound.total,
          behaved.total_kept,
          post_balances-claimed program_id posts claimed claims,
          total_after-write_post_states state pres claimed diff behaved.unique current
              (omega (arith, lengths, behaved.same_length)),
        );
        nonces = λ j. (kept j).0;
        owners = λ j. (kept j).1;
      }

module _ (host : Host) (words : ReturnsWords host) (state : State) (block_id timestamp : ℕ) where
  check_output-parts :
      (diff : Dict Account) (call : ChainedCall) (caller : CallerData) (output : ProgramOutput)
      → check_output host state diff block_id timestamp call caller output ≡ ok tt
      → (check_pre_states host state diff
            (compute_public_authorized_pdas host caller.program_id call.pda_seeds)
            caller.authorized_accounts
            output.pre_states
          ≡ ok tt)
        × (validate_execution output.pre_states output.post_states call.program_id ≡ ok tt)
  unfolding check_output
  check_output-parts diff call caller output h = ground arith

  -- What has been established about an output when its claims are looked at.
  pub check_output-facts :
      (diff : Dict Account) (call : ChainedCall) (caller : CallerData) (output : ProgramOutput)
      → AreBalances (pre_balances output.pre_states)
      → AreBalances (post_balances output.post_states)
      → check_output host state diff block_id timestamp call caller output ≡ ok tt
      → AreCurrent state diff output.pre_states
        × IsWellBehaved call.program_id output.pre_states output.post_states
  check_output-facts diff call caller output hp hq h =
      let (current, valid) = check_output-parts diff call caller output h in
      (
        check_pre_states-AreCurrent host state diff
            (compute_public_authorized_pdas host caller.program_id call.pda_seeds)
            caller.authorized_accounts output.pre_states current,
        (validate_execution_iff output.pre_states output.post_states hp hq call.program_id).0 valid,
      )

  -- An accepted call ran some program, passed the checks on its output, and wrote its claimed states.
  execute_call-parts :
      (diff : Dict Account) (call : ChainedCall) (caller : CallerData)
      {done : Dict Account × List (ChainedCall × CallerData)}
      → execute_call host state block_id timestamp diff call caller ≡ ok done
      → (program : Program) × (output : ProgramOutput) × (claimed : List AccountPostState)
        × (host.run_session program.elf program.id caller.program_id call.pre_states
              call.instruction_data
            ≡ some output)
        × (check_output host state diff block_id timestamp call caller output ≡ ok tt)
        × (claim_post_states host call.program_id output.pre_states output.post_states ≡ ok claimed)
        × (done.0 ≡ write_post_states output.pre_states claimed diff)
  unfolding execute_call execute
  execute_call-parts diff call caller h =
      let (program, _, h1) =
        >>=-eq-ok (ok_or (get state.programs call.program_id) (invalid_input "Unknown program")) _
          h in
      let session =
        host.run_session program.elf program.id caller.program_id call.pre_states
          call.instruction_data in
      let (output, run, h2) = >>=-eq-ok (ok_or session program_execution_failed) _ h1 in
      let (_, checked, h3) =
        >>=-eq-ok (check_output host state diff block_id timestamp call caller output) _ h2 in
      let (claimed, claims, h4) =
        >>=-eq-ok (claim_post_states host call.program_id output.pre_states output.post_states) _
          h3 in
      (
        program,
        output,
        claimed,
        ok_or-eq-ok session program_execution_failed run,
        checked,
        claims,
        cc h4,
      )

  -- One call keeps the invariant.
  pub execute_call-IsSound :
      (diff : Dict Account) (call : ChainedCall) (caller : CallerData)
      {done : Dict Account × List (ChainedCall × CallerData)}
      → IsSound state diff
      → execute_call host state block_id timestamp diff call caller ≡ ok done
      → IsSound state done.0
  execute_call-IsSound diff call caller sound h =
      let (program, output, claimed, run, checked, claims, e) =
        execute_call-parts diff call caller h in
      let (hp, hq) =
        words.outputs program.elf program.id caller.program_id call.pre_states call.instruction_data
          output run in
      let (current, behaved) = check_output-facts diff call caller output hp hq checked in
      rw e (
        write-IsSound state diff call.program_id output.pre_states output.post_states claimed sound
          current behaved
          (claim_post_states-IsClaimed host call.program_id output.pre_states output.post_states
            behaved.same_length claims))

  pub process_calls-IsSound :
      (rounds : ℕ) (queue : List (ChainedCall × CallerData)) (diff : Dict Account)
      {final : Dict Account}
      → IsSound state diff
      → process_calls host state block_id timestamp rounds queue diff ≡ ok final
      → IsSound state final
  unfolding process_calls
  process_calls-IsSound rounds [] diff sound h = subst (IsSound state) (cc h) sound
  process_calls-IsSound zero (next ∷ queue) diff sound h = cc h
  process_calls-IsSound (suc rounds) ((call, caller) ∷ queue) diff sound h =
      let (done, first, rest) =
        >>=-eq-ok (execute_call host state block_id timestamp diff call caller) _ h in
      process_calls-IsSound rounds (done.1 ++ queue) done.0
        (execute_call-IsSound diff call caller sound first) rest
