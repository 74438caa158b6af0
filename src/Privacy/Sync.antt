-- ===== src/Privacy/Sync.antt =====
-- program_methods/guest/src/bin/privacy_preserving_circuit/execution_state.rs: `ExecutionState` and
-- `validate_and_sync_states`, which adds the states of one program execution to it.
pub mod Totals
pub mod Proven
pub mod Kept
use logos_execution_zone.Prelude.{
  ℕ, suc, Bool, true, false, not, Option, none, some, List, [], ◌∷◌, ◌++◌, get_elem?, Dict, get,
  insert, Guest, ok, ◌>>=◌, ◌>>◌, assert, expect, ◌==◌, if◌then◌else◌,
}
use logos_execution_zone.Core.Account.{
  AccountId, ProgramId, default_program_id, Account, AccountWithMetadata, account_eq,
}
use logos_execution_zone.Core.Window.{ValidityWindow}
use logos_execution_zone.Core.Program.{Claim, authorized, pda, AccountPostState, PdaSeed}
use logos_execution_zone.Host.{Host, for_public_pda}
use logos_execution_zone.Privacy.Keys.{NullifierPublicKey, Identifier}
use logos_execution_zone.Privacy.Kind.{for_private_pda}
use logos_execution_zone.Privacy.Identity.{InputAccountIdentity, is_public, is_private_pda}
use logos_execution_zone.Privacy.Binding.{
  Families, Bound, assert_family_binding, bind_private_pda_position,
  resolve_authorization_and_record_bindings,
}

pub record ExecutionState : Type 0 where
  pub pre_states : List AccountWithMetadata
  pub post_states : Dict Account
  pub block_validity_window : ValidityWindow
  pub timestamp_validity_window : ValidityWindow
  pub private_pda_bound_positions : Bound
  pub pda_family_binding : Families
  pub private_pda_npk_by_position : Dict (NullifierPublicKey × Identifier)

-- `iter().position(|acc| acc.account_id == account_id)`, counted from `position`
unfoldable pub position_from : ℕ → List AccountWithMetadata → AccountId → Option ℕ
position_from position [] account_id = none
position_from position (acc ∷ rest) account_id =
    if acc.account_id == account_id
    then some position
    else position_from (suc position) rest account_id

abbrev pub bool_eq : Bool → Bool → Bool
bool_eq true b = b
bool_eq false b = not b

module _ (host : Host) where
  -- The entry of the account: a new account is added, and a known one is checked.
  unfoldable pub sync_entry :
      ExecutionState
      → Option ProgramId
      → List PdaSeed
      → AccountWithMetadata
      → Option Account
      → Guest ExecutionState
  unfolding position_from resolve_authorization_and_record_bindings
  sync_entry state caller_program_id caller_pda_seeds pre none =
      ok (record state { pre_states = state.pre_states ++ pre ∷ [] })
  sync_entry state caller_program_id caller_pda_seeds pre (some known) = do
    assert (account_eq known pre.account) "Inconsistent pre state for account"
    position ←
        expect (position_from 0 state.pre_states pre.account_id)
          "Pre state must exist in execution state for account"
    previous ←
        expect (get_elem? state.pre_states position)
          "Pre state must exist in execution state for account"
    resolved ←
        resolve_authorization_and_record_bindings host state.pda_family_binding
          state.private_pda_bound_positions (get state.private_pda_npk_by_position position)
          pre.account_id position caller_program_id caller_pda_seeds previous.is_authorized
    assert (bool_eq pre.is_authorized resolved.0) "Inconsistent authorization for account"
    ok (record state { pda_family_binding = resolved.1; private_pda_bound_positions = resolved.2 })

  unfoldable pub sync_pre_state :
      ExecutionState → Option ProgramId → List PdaSeed → AccountWithMetadata → Guest ExecutionState
  unfolding sync_entry
  sync_pre_state state caller_program_id caller_pda_seeds pre =
      sync_entry state caller_program_id caller_pda_seeds pre (get state.post_states pre.account_id)

  -- The claim of an account that the identities call public.
  unfoldable pub check_public_claim :
      ExecutionState → ProgramId → AccountWithMetadata → Claim → Guest ExecutionState
  unfolding assert_family_binding
  check_public_claim state program_id pre authorized = do
    assert pre.is_authorized "Cannot claim unauthorized account"
    ok state
  check_public_claim state program_id pre (pda seed) = do
    assert (pre.account_id == for_public_pda host program_id seed)
        "Invalid PDA claim for account which does not match derived PDA"
    families ← assert_family_binding state.pda_family_binding program_id seed pre.account_id
    ok (record state { pda_family_binding = families })

  unfoldable pub check_private_pda_claim :
      ExecutionState → ProgramId → AccountWithMetadata → ℕ → Claim → Guest ExecutionState
  unfolding assert_family_binding bind_private_pda_position
  check_private_pda_claim state program_id pre position authorized = do
    assert pre.is_authorized "Cannot claim unauthorized private PDA"
    ok state
  check_private_pda_claim state program_id pre position (pda seed) = do
    key ←
        expect (get state.private_pda_npk_by_position position)
          "private PDA pre_state must have an npk in the position map"
    assert (pre.account_id == for_private_pda host program_id seed key.0 key.1)
        "Invalid private PDA claim for account"
    bound ← bind_private_pda_position state.private_pda_bound_positions position program_id seed
    families ← assert_family_binding state.pda_family_binding program_id seed pre.account_id
    ok (record state { private_pda_bound_positions = bound; pda_family_binding = families })

  -- The checks of a claim. Those of standalone private accounts are not enforced.
  unfoldable pub check_claim :
      List InputAccountIdentity
      → ExecutionState
      → ProgramId
      → AccountWithMetadata
      → AccountPostState
      → Claim
      → Guest ExecutionState
  unfolding position_from check_public_claim check_private_pda_claim
  check_claim account_identities state program_id pre post claim = do
    assert (post.account.program_owner == default_program_id) "Cannot claim an initialized account"
    position ←
        expect (position_from 0 state.pre_states pre.account_id)
          "Pre state must exist at this point"
    account_identity ← expect (get_elem? account_identities position) "index out of bounds"
    if is_public account_identity
        then check_public_claim state program_id pre claim
        else if is_private_pda account_identity
        then check_private_pda_claim state program_id pre position claim
        else ok state

  -- The claim of one post state, if it has one: the state and the account that is left.
  unfoldable pub sync_claim :
      List InputAccountIdentity
      → ExecutionState
      → ProgramId
      → AccountWithMetadata
      → AccountPostState
      → Option Claim
      → Guest (ExecutionState × Account)
  unfolding check_claim
  sync_claim account_identities state program_id pre post none = ok (state, post.account)
  sync_claim account_identities state program_id pre post (some claim) = do
    checked ← check_claim account_identities state program_id pre post claim
    ok (checked, record post.account { program_owner = program_id })

  -- One round of the loop of `validate_and_sync_states`.
  unfoldable pub sync_pair :
      List InputAccountIdentity
      → ProgramId
      → Option ProgramId
      → List PdaSeed
      → ExecutionState
      → AccountWithMetadata
      → AccountPostState
      → Guest ExecutionState
  unfolding sync_pre_state sync_claim
  sync_pair account_identities program_id caller_program_id caller_pda_seeds state pre post = do
    synced ← sync_pre_state state caller_program_id caller_pda_seeds pre
    claimed ← sync_claim account_identities synced program_id pre post post.claim
    ok (record (claimed.0) { post_states = insert pre.account_id claimed.1 claimed.0.post_states })

  -- `zip` ends with the shorter list.
  unfoldable pub validate_and_sync_states :
      List InputAccountIdentity
      → ProgramId
      → Option ProgramId
      → List PdaSeed
      → ExecutionState
      → List AccountWithMetadata
      → List AccountPostState
      → Guest ExecutionState
  unfolding sync_pair
  validate_and_sync_states identities program_id caller seeds state [] posts = ok state
  validate_and_sync_states identities program_id caller seeds state (pre ∷ pres) [] = ok state
  validate_and_sync_states identities program_id caller seeds state (pre ∷ pres) (post ∷ posts) = do
    next ← sync_pair identities program_id caller seeds state pre post
    validate_and_sync_states identities program_id caller seeds next pres posts
