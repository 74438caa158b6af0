-- ===== src/Privacy/Execution/Proven.antt =====
-- What an accepted execution says of its private program-derived accounts and of its windows.
use logos_execution_zone.Prelude.{
  ℕ, zero, suc, ◌+◌, ◌≡◌, ◌↔◌, refl, ◌∙◌, true, not, ◌||◌, Bool-cases, ==_iff, Option-cases, none,
  some, inl, inr, List, [], ◌∷◌, ◌++◌, map, get_elem?, get, contains_key, ok, >>=-eq-ok, assert,
  assert-eq-ok, subst, arith, leb, ◌==◌,
}
use logos_execution_zone.Core.Account.{ProgramId, AccountWithMetadata}
use logos_execution_zone.Core.Program.{ProgramOutput, PdaSeed, max_number_chained_calls}
use logos_execution_zone.Core.Window.{ValidityWindow, is_valid_for}
use logos_execution_zone.Host.{Host}
use logos_execution_zone.Privacy.Keys.{NullifierPublicKey, Identifier}
use logos_execution_zone.Privacy.Identity.{InputAccountIdentity, is_private_pda, npk_if_private_pda}
use logos_execution_zone.Privacy.Sync.{ExecutionState, validate_and_sync_states}
use logos_execution_zone.Privacy.Sync.Proven.{
  Derives, AllProven, IsKept, IsKept-trans, same_bound-IsKept,
}
use logos_execution_zone.Privacy.Sync.Kept.{validate_and_sync_states-IsKept}
use logos_execution_zone.Privacy.Execution.{
  Verify, Pending, next_calls, npk_by_position, check_output, process_calls, check_bound,
  initial_state, derive_from_outputs,
}
use logos_execution_zone.Privacy.Execution.Totals.{IsAccepted, derive_from_outputs-IsAccepted}
use logos_execution_zone.Privacy.Execution.Windows.{AllValid, intersection_iff}

module _ (host : Host) (verify : Verify) where
  process_calls-IsKept :
      (identities : List InputAccountIdentity) (outputs : List ProgramOutput) (calls : List Pending)
      (counter : ℕ) (s : ExecutionState) {result : ExecutionState × List ProgramOutput}
      → process_calls host verify identities outputs calls counter s ≡ ok result
      → IsKept host s result.0
  unfolding process_calls
  process_calls-IsKept identities outputs [] counter s {result} h =
      let e : s ≡ result.0 = cc h in
      subst (IsKept host s) e (same_bound-IsKept host s s.pda_family_binding s.post_states)
  process_calls-IsKept identities [] (pending ∷ calls) counter s h = ground arith
  process_calls-IsKept identities (output ∷ outputs) ((call, caller) ∷ calls) counter s h =
      let (_, _, h1) =
        >>=-eq-ok
          (assert (leb counter max_number_chained_calls) "Max chained calls depth is exceeded") _
          h in
      let (_, checked, h2) = >>=-eq-ok (check_output host verify call caller output) _ h1 in
      let (next, synced, h3) =
        >>=-eq-ok
          (validate_and_sync_states host identities call.program_id caller call.pda_seeds s
            output.pre_states output.post_states)
          _ h2 in
      IsKept-trans host
        (validate_and_sync_states-IsKept host identities call.program_id caller call.pda_seeds s
          output.pre_states output.post_states synced)
        (process_calls-IsKept identities outputs (next_calls call output ++ calls) (counter + 1)
          next h3)

  -- The identity at a position has a key.
  abbrev HasKey : List InputAccountIdentity → ℕ → NullifierPublicKey × Identifier → Type 0
  HasKey identities i key =
      (identity : InputAccountIdentity) × (get_elem? identities i ≡ some identity)
      × (npk_if_private_pda host identity ≡ some key)

  npk_by_position-HasKey :
      (start : ℕ) (identities : List InputAccountIdentity) (j : ℕ)
      {key : NullifierPublicKey × Identifier}
      → get (npk_by_position host verify start identities) j ≡ some key
      → (i : ℕ) × (j ≡ start + i) × HasKey identities i key
  unfolding npk_by_position get
  npk_by_position-HasKey start [] j h = ground arith
  npk_by_position-HasKey start (identity ∷ identities) j {key} h =
      let later : get (npk_by_position host verify (suc start) identities) j ≡ some key
          → (i : ℕ) × (j ≡ start + i) × HasKey (identity ∷ identities) i key =
        λ found.
          let (i, at, has) = npk_by_position-HasKey (suc start) identities j found in
          (suc i, omega (arith, at), has) in
      elim (Option-cases (npk_if_private_pda host identity)) [
        | inl e ↦ later (rw (e, get) at h)
        | inr (k, e) ↦
            let found = rw (e, get) at h in
            elim (Bool-cases (start == j)) [
              | inl here ↦
                  let same : some k ≡ some key = rw here at found in
                  (0, omega (arith, (==_iff start j).0 here), (identity, refl, e ∙ same))
              | inr there ↦ later (rw there at found)
            ]
      ]

  check_bound-contains :
      (state : ExecutionState) (start : ℕ) (identities : List InputAccountIdentity) (i : ℕ)
      {identity : InputAccountIdentity}
      → check_bound host verify state start identities ≡ ok tt
      → get_elem? identities i ≡ some identity
      → is_private_pda identity ≡ true
      → contains_key state.private_pda_bound_positions (start + i) ≡ true
  unfolding check_bound
  check_bound-contains state start [] i h at private = ground arith
  check_bound-contains state start (first ∷ identities) zero {identity} h at private =
      let (_, e, _) =
        >>=-eq-ok
          (assert
            (not (is_private_pda first) || contains_key state.private_pda_bound_positions start)
            "private PDA pre_state has no proven (seed, npk) binding")
          _ h in
      let test = assert-eq-ok _ "private PDA pre_state has no proven (seed, npk) binding" e in
      let same : first ≡ identity = cc at in
      let form : is_private_pda first ≡ true = cc (same, private) in
      subst (λ j. contains_key state.private_pda_bound_positions j ≡ true) (omega arith)
        (rw form at test)
  check_bound-contains state start (first ∷ identities) (suc i) h at private =
      let (_, _, rest) =
        >>=-eq-ok
          (assert
            (not (is_private_pda first) || contains_key state.private_pda_bound_positions start)
            "private PDA pre_state has no proven (seed, npk) binding")
          _ h in
      subst (λ j. contains_key state.private_pda_bound_positions j ≡ true) (omega arith)
        (check_bound-contains state (suc start) identities i rest at private)

  derive_from_outputs-IsKept :
      (identities : List InputAccountIdentity) (program_id : ProgramId)
      (outputs : List ProgramOutput) {state : ExecutionState}
      → (a : IsAccepted host verify identities program_id outputs state)
      → IsKept host (initial_state host verify identities a.block_window a.timestamp_window) state
  derive_from_outputs-IsKept identities program_id outputs a =
      process_calls-IsKept identities outputs ((a.call, none) ∷ []) 0
        (initial_state host verify identities a.block_window a.timestamp_window) a.processed

  initial_state-AllProven :
      (identities : List InputAccountIdentity) (block_window timestamp_window : ValidityWindow)
      → AllProven host (initial_state host verify identities block_window timestamp_window)
  unfolding get
  initial_state-AllProven identities block_window timestamp_window j b found = ground arith

  -- The account at a position is derived with the key of its identity, from the program and the seed
  -- that the position is bound to.
  abbrev pub IsDerived : ExecutionState → ℕ → InputAccountIdentity → Type 0
  IsDerived state i identity =
      (pre : AccountWithMetadata) × (b : ProgramId × PdaSeed) × (get_elem? state.pre_states i
        ≡ some pre)
      × (get state.private_pda_bound_positions i ≡ some b)
      × Derives host (npk_if_private_pda host identity) pre.account_id b.0 b.1

  -- In an execution that is accepted, each position whose identity is a private program-derived
  -- account is bound to a program and a seed, and the account at this position is the one that they
  -- derive with the key and the identifier of this identity.
  pub derive_from_outputs-IsDerived :
      (identities : List InputAccountIdentity) (program_id : ProgramId)
      (outputs : List ProgramOutput) {state : ExecutionState}
      → derive_from_outputs host verify identities program_id outputs ≡ ok state
      → (i : ℕ) {identity : InputAccountIdentity} → get_elem? identities i ≡ some identity
      → is_private_pda identity ≡ true
      → IsDerived state i identity
  derive_from_outputs-IsDerived identities program_id outputs {state} h i {identity} at private =
      let a = derive_from_outputs-IsAccepted host verify identities program_id outputs h in
      let kept = derive_from_outputs-IsKept identities program_id outputs a in
      let there : contains_key state.private_pda_bound_positions i ≡ true =
        subst (λ j. contains_key state.private_pda_bound_positions j ≡ true) (omega arith)
          (check_bound-contains state 0 identities i a.bound at private) in
      elim (Option-cases (get state.private_pda_bound_positions i)) [
        | inl e ↦ let nothing = rw (e, contains_key) at there in cc nothing
        | inr (b, e) ↦
            let proof =
              kept.proven (initial_state-AllProven identities a.block_window a.timestamp_window) i b
                e in
            let (key, known, derived) = proof.derived in
            let found : get (npk_by_position host verify 0 identities) i ≡ some key =
              subst (λ keys. get keys i ≡ some key) kept.keys known in
            let (j, same, (other, placed, has)) = npk_by_position-HasKey 0 identities i found in
            let here : i ≡ j = omega (arith, same) in
            let placed_here : get_elem? identities i ≡ some other = cc (placed, here) in
            let key_here : npk_if_private_pda host identity ≡ some key =
              cc (at, placed_here, has) in
            (proof.pre, b, proof.placed, e, (key, key_here, derived))
      ]

  -- The window of blocks of an accepted execution is open exactly in the blocks in which those of
  -- all its outputs are, and its window of timestamps at the times at which those of all are.
  pub derive_from_outputs-windows_iff :
      (identities : List InputAccountIdentity) (program_id : ProgramId)
      (outputs : List ProgramOutput) {state : ExecutionState}
      → derive_from_outputs host verify identities program_id outputs ≡ ok state
      → (v : ℕ)
      → ((is_valid_for state.block_validity_window v ≡ true)
          ↔ AllValid (map (λ (o : ProgramOutput). o.block_validity_window) outputs) v)
        × ((is_valid_for state.timestamp_validity_window v ≡ true)
            ↔ AllValid (map (λ (o : ProgramOutput). o.timestamp_validity_window) outputs) v)
  derive_from_outputs-windows_iff identities program_id outputs {state} h v =
      let a = derive_from_outputs-IsAccepted host verify identities program_id outputs h in
      let kept = derive_from_outputs-IsKept identities program_id outputs a in
      (
        rw kept.block_window (intersection_iff _ _ v a.block_intersection),
        rw kept.timestamp_window (intersection_iff _ _ v a.timestamp_intersection),
      )
