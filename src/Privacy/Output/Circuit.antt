-- ===== src/Privacy/Output/Circuit.antt =====
-- The whole circuit: what its output says of the accounts of the execution.
use logos_execution_zone.Prelude.{
  ℕ, suc, ◌+◌, ◌≡◌, refl, sym, ◌∙◌, Bool-cases, ==_iff, inl, inr, Option-cases, some, List, [], ◌∷◌,
  map, length, Dict, ok, >>=-eq-ok, assert, assert-eq-ok, expect, expect-eq-ok, subst, arith, ◌==◌,
}
use logos_execution_zone.Core.Account.{AccountId, ProgramId, Account, AccountWithMetadata}
use logos_execution_zone.Core.Balance.Exact.{sum}
use logos_execution_zone.Core.Program.{ProgramOutput}
use logos_execution_zone.Core.Validate.{pre_balances}
use logos_execution_zone.Host.{Host}
use logos_execution_zone.State.Totals.{total_balance}
use logos_execution_zone.Transactions.{PrivacyPreservingCircuitOutput}
use logos_execution_zone.Privacy.Cipher.{Keystream}
use logos_execution_zone.Privacy.Identity.{InputAccountIdentity}
use logos_execution_zone.Privacy.Sync.{ExecutionState}
use logos_execution_zone.Privacy.Execution.{Verify, derive_from_outputs}
use logos_execution_zone.Privacy.Execution.Totals.{HoldWords, derive_from_outputs-IsEven}
use logos_execution_zone.Privacy.Output.{
  remove, states_of, output_accounts, empty_output, compute_circuit_output, main,
}
use logos_execution_zone.Privacy.Output.All.{
  AllOpened, all_nullifiers, all_commitments, all_shown_pres, all_shown_posts,
  output_accounts-IsAdded,
}

abbrev IsRest : (total size : ℕ) → Account × Dict Account → Type 0
IsRest total size r = (total ≡ r.0.balance + total_balance r.1) × (size ≡ length r.1 + 1)

remove-parts :
    (k : AccountId) (m : Dict Account) {r : Account × Dict Account}
    → remove k m ≡ some r
    → IsRest (total_balance m) (length m) r
unfolding remove total_balance
remove-parts k [] h = cc
remove-parts k ((j, a) ∷ m) {r} h = elim (Bool-cases (j == k)) [
  | inl e ↦
      let here = rw e at h in
      let found : (a, m) ≡ r = cc here in
      subst (IsRest (a.balance + total_balance m) (suc (length m))) found (refl, omega arith)
  | inr e ↦
      let later = rw e at h in
      elim (Option-cases (remove k m)) [
        | inl none_left ↦ let nothing = rw none_left at later in cc nothing
        | inr (rest, e1) ↦
            let (total, size) = remove-parts k m e1 in
            let found : (rest.0, (j, a) ∷ rest.1) ≡ r = cc (rw e1 at later) in
            subst (IsRest (a.balance + total_balance m) (suc (length m))) found
              (omega (arith, total), omega (arith, size))
      ]
]

abbrev pub states_before : List (AccountWithMetadata × Account) → ℕ
states_before states = sum (map (λ (s : AccountWithMetadata × Account). s.0.account.balance) states)

abbrev pub states_after : List (AccountWithMetadata × Account) → ℕ
states_after states = sum (map (λ (s : AccountWithMetadata × Account). s.1.balance) states)

-- The pre states get the post states, all of them if there are as many.
abbrev AreStates :
    List AccountWithMetadata → Dict Account → List (AccountWithMetadata × Account) → Type 0
AreStates pres m states =
    (length states ≡ length pres)
    × (states_before states ≡ sum (pre_balances pres))
    × (states_after states ≡ total_balance m)

states_of-AreStates :
    (pres : List AccountWithMetadata) (m : Dict Account)
    {states : List (AccountWithMetadata × Account)}
    → length m ≡ length pres
    → states_of pres m ≡ ok states
    → AreStates pres m states
unfolding states_of
states_of-AreStates [] [] {states} l h =
    let e : [] ≡ states = cc h in
    subst (AreStates [] []) e (refl, refl, unfold total_balance in refl)
states_of-AreStates [] (entry ∷ m) l h = absurd (omega arith)
states_of-AreStates (pre ∷ pres) m {states} l h =
    let (removed, e, h1) =
      >>=-eq-ok
        (expect (remove pre.account_id m) "Account from pre states should exist in state diff") _
        h in
    let (rest, f, h2) = >>=-eq-ok (states_of pres removed.1) _ h1 in
    let (total, size) =
      remove-parts pre.account_id m
        (expect-eq-ok _ "Account from pre states should exist in state diff" e) in
    let others = states_of-AreStates pres removed.1 (omega (arith, size)) f in
    let g : (pre, removed.0) ∷ rest ≡ states = cc h2 in
    subst (AreStates (pre ∷ pres) m) g
      (omega (arith, others), omega (arith, others), omega (arith, others, total))

module _ (host : Host) (apply_keystream : Keystream) (verify : Verify)
    (identities : List InputAccountIdentity) (program_id : ProgramId)
    (outputs : List ProgramOutput) where
  -- What an output of the circuit says: there is an accepted execution, whose accounts before and
  -- after it describes.
  pub record IsDescribed (output : PrivacyPreservingCircuitOutput) : Type 0 where
    pub state : ExecutionState
    pub states : List (AccountWithMetadata × Account)
    pub accepted : derive_from_outputs host verify identities program_id outputs ≡ ok state
    pub paired : states_of state.pre_states state.post_states ≡ ok states
    pub total_kept : states_before states ≡ states_after states
    pub opened : AllOpened host identities states
    pub shown_pres : output.public_pre_states ≡ all_shown_pres host identities states
    pub shown_posts : output.public_post_states ≡ all_shown_posts host identities states
    pub nullifiers : output.new_nullifiers ≡ all_nullifiers host identities states
    pub commitments : output.new_commitments ≡ all_commitments host identities states
    pub block_window : output.block_validity_window ≡ state.block_validity_window
    pub timestamp_window : output.timestamp_validity_window ≡ state.timestamp_validity_window

  -- If the outputs of the programs hold `u128` balances and the circuit returns, then the execution
  -- was accepted and kept the total of the balances of all accounts, public and private. Each
  -- identity fits its account: a regular private account is derived from the given key, an account
  -- that is updated is authorised, and one that is initialised was the default account. The output
  -- shows exactly the public accounts, has exactly the nullifiers of the private ones, and commits
  -- to exactly their new states.
  pub main-IsDescribed :
      {output : PrivacyPreservingCircuitOutput}
      → HoldWords outputs
      → main host apply_keystream verify identities program_id outputs ≡ ok output
      → IsDescribed output
  unfolding main compute_circuit_output
  main-IsDescribed {output} words h =
      let (state, accepted, h1) =
        >>=-eq-ok (derive_from_outputs host verify identities program_id outputs) _ h in
      let (_, same, h2) =
        >>=-eq-ok
          (assert (length identities == length state.pre_states)
            "Invalid account_identities length")
          _ h1 in
      let (states, paired, h3) = >>=-eq-ok (states_of state.pre_states state.post_states) _ h2 in
      let (progress, emitted, h4) =
        >>=-eq-ok
          (output_accounts host apply_keystream state.private_pda_bound_positions 0
            (empty_output host apply_keystream state, 0) identities states)
          _ h3 in
      let e : progress.0 ≡ output = cc h4 in
      let lengths = (==_iff _ _).0 (assert-eq-ok _ "Invalid account_identities length" same) in
      let (total, size) =
        derive_from_outputs-IsEven host verify identities program_id outputs words accepted in
      let (count, before, after) =
        states_of-AreStates state.pre_states state.post_states size paired in
      let (opened, added) =
        output_accounts-IsAdded host apply_keystream state.private_pda_bound_positions 0
          (empty_output host apply_keystream state, 0) identities states (lengths ∙ sym count)
          emitted in
      subst IsDescribed e record {
        state = state;
        states = states;
        accepted = accepted;
        paired = paired;
        total_kept = before ∙ sym total ∙ sym after;
        opened = opened;
        shown_pres = added.pres_added;
        shown_posts = added.posts_added;
        nullifiers = added.nullifiers_added;
        commitments = added.commitments_added;
        block_window = added.block_window_kept;
        timestamp_window = added.timestamp_window_kept;
      }
