-- ===== src/Privacy/Output.antt =====
-- program_methods/guest/src/bin/privacy_preserving_circuit/output.rs and main.rs: the commitments,
-- nullifiers and ciphertexts of an execution.
pub mod Emitted
pub mod All
pub mod Circuit
use logos_execution_zone.Prelude.{
  ℕ, suc, ◌+◌, ◌^◌, true, false, not, Option, none, some, List, [], ◌∷◌, ◌++◌, length, Dict, get,
  Guest, ok, panic, ◌>>=◌, ◌>>◌, assert, expect, ◌==◌, ltb, if◌then◌else◌,
}
use logos_execution_zone.Core.Account.{
  AccountId, ProgramId, Nonce, Account, AccountWithMetadata, default_account, account_eq,
}
use logos_execution_zone.Core.Program.{ProgramOutput, PdaSeed}
use logos_execution_zone.Host.{Host}
use logos_execution_zone.Transactions.{
  Nullifier, CommitmentSetDigest, PrivacyPreservingCircuitOutput,
}
use logos_execution_zone.Privacy.Keys.{
  NullifierSecretKey, MembershipProof, npk_from, for_regular_private_account, for_account_update,
  for_account_initialization, commitment_of, private_account_nonce_init,
  private_account_nonce_increment, compute_digest_for_path, dummy_commitment_hash,
}
use logos_execution_zone.Privacy.Kind.{PrivateAccountKind, regular, pda}
use logos_execution_zone.Privacy.Cipher.{SharedSecretKey, Keystream, encrypt}
use logos_execution_zone.Privacy.Identity.{
  InputAccountIdentity, public, private_authorized_init, private_authorized_update,
  private_unauthorized, private_pda_init, private_pda_update,
}
use logos_execution_zone.Privacy.Binding.{Bound}
use logos_execution_zone.Privacy.Sync.{ExecutionState}
use logos_execution_zone.Privacy.Execution.{Verify, derive_from_outputs}

abbrev pub keep : ℕ × Account → Option (Account × Dict Account) → Option (Account × Dict Account)
keep entry none = none
keep entry (some (found, left)) = some (found, entry ∷ left)

-- `post_states.remove(&account_id)`: the account and the map without it
unfoldable pub remove : AccountId → Dict Account → Option (Account × Dict Account)
remove account_id [] = none
remove account_id ((j, account) ∷ rest) =
    let later = keep (j, account) (remove account_id rest) in
    if j == account_id then some (account, rest) else later

-- The iterator of `into_parts`: each pre state with its post state.
unfoldable pub states_of :
    List AccountWithMetadata → Dict Account → Guest (List (AccountWithMetadata × Account))
unfolding remove
states_of [] post_states = ok []
states_of (pre ∷ pres) post_states = do
  removed ←
      expect (remove pre.account_id post_states)
        "Account from pre states should exist in state diff"
  rest ← states_of pres removed.1
  ok ((pre, removed.0) ∷ rest)

module _ (host : Host) (apply_keystream : Keystream) where
  unfoldable pub compute_update_nullifier_and_set_digest :
      MembershipProof → Account → AccountId → NullifierSecretKey → Nullifier × CommitmentSetDigest
  unfolding commitment_of compute_digest_for_path for_account_update
  compute_update_nullifier_and_set_digest membership_proof pre_account account_id nsk =
      let commitment_pre = commitment_of host account_id pre_account in
      (
        for_account_update host commitment_pre nsk,
        compute_digest_for_path host commitment_pre membership_proof,
      )

  -- The output so far, and the index of the next private output.
  abbrev pub Progress : Type 0
  Progress = PrivacyPreservingCircuitOutput × ℕ

  unfoldable pub emit_private_output :
      Progress
      → Account
      → AccountId
      → PrivateAccountKind
      → SharedSecretKey
      → Nullifier × CommitmentSetDigest
      → Nonce
      → Guest Progress
  unfolding commitment_of encrypt
  emit_private_output (output, output_index) post_state account_id kind shared_secret new_nullifier
        new_nonce =
      do
        let post_with_updated_nonce = record post_state { nonce = new_nonce }
        let commitment_post = commitment_of host account_id post_with_updated_nonce
        encrypted_account ←
            encrypt host apply_keystream post_with_updated_nonce kind shared_secret commitment_post
              output_index
        assert (ltb (output_index + 1) (2 ^ 32)) "Too many private accounts, output index overflow"
        ok (
          record output {
            new_nullifiers = output.new_nullifiers ++ new_nullifier ∷ [];
            new_commitments = output.new_commitments ++ commitment_post ∷ [];
            ciphertexts = output.ciphertexts ++ encrypted_account ∷ [];
          },
          output_index + 1,
        )

  -- The nullifier of a new account, with the digest that stands for no tree.
  abbrev pub initialization : AccountId → Nullifier × CommitmentSetDigest
  initialization account_id = (for_account_initialization host account_id, dummy_commitment_hash)

  -- The arm of the match for one account, at its position.
  unfoldable pub output_account :
      Bound → ℕ → Progress → InputAccountIdentity → AccountWithMetadata → Account → Guest Progress
  unfolding npk_from for_regular_private_account for_account_initialization
      private_account_nonce_init private_account_nonce_increment
      compute_update_nullifier_and_set_digest emit_private_output dummy_commitment_hash
  output_account bound position (output, index) public pre_state post_state = ok (
    record output {
      public_pre_states = output.public_pre_states ++ pre_state ∷ [];
      public_post_states = output.public_post_states ++ post_state ∷ [];
    },
    index,
  )
  output_account bound position progress (private_authorized_init ssk nsk identifier) pre_state
        post_state =
      do
        let account_id = for_regular_private_account host (npk_from host nsk) identifier
        assert (account_id == pre_state.account_id) "AccountId mismatch"
        assert pre_state.is_authorized "Pre-state not authorized for authenticated private account"
        assert (account_eq pre_state.account default_account)
            "Found new private account with non default values"
        emit_private_output progress post_state account_id (regular identifier) ssk
            (initialization account_id)
            (private_account_nonce_increment host pre_state.account.nonce nsk)
  output_account bound position progress
        (private_authorized_update ssk nsk membership_proof identifier) pre_state post_state =
      do
        let account_id = for_regular_private_account host (npk_from host nsk) identifier
        assert (account_id == pre_state.account_id) "AccountId mismatch"
        assert pre_state.is_authorized "Pre-state not authorized for authenticated private account"
        emit_private_output progress post_state account_id (regular identifier) ssk
            (compute_update_nullifier_and_set_digest membership_proof pre_state.account account_id
              nsk)
            (private_account_nonce_increment host pre_state.account.nonce nsk)
  output_account bound position progress (private_unauthorized npk ssk identifier) pre_state
        post_state =
      do
        let account_id = for_regular_private_account host npk identifier
        assert (account_id == pre_state.account_id) "AccountId mismatch"
        assert (account_eq pre_state.account default_account)
            "Found new private account with non default values"
        assert (not pre_state.is_authorized) "Found new private account marked as authorized."
        emit_private_output progress post_state account_id (regular identifier) ssk
            (initialization account_id) (private_account_nonce_init host account_id)
  output_account bound position progress (private_pda_init npk ssk identifier) pre_state
        post_state =
      do
        assert (not pre_state.is_authorized) "PrivatePdaInit requires unauthorized pre_state"
        assert (account_eq pre_state.account default_account) "New private PDA must be default"
        seed ← expect (get bound position) "PrivatePdaInit position must be in pda_seed_by_position"
        emit_private_output progress post_state pre_state.account_id (pda seed.0 seed.1 identifier)
            ssk (initialization pre_state.account_id)
            (private_account_nonce_init host pre_state.account_id)
  output_account bound position progress (private_pda_update ssk nsk membership_proof identifier)
        pre_state post_state =
      do
        assert pre_state.is_authorized "PrivatePdaUpdate requires authorized pre_state"
        seed ←
            expect (get bound position) "PrivatePdaUpdate position must be in pda_seed_by_position"
        emit_private_output progress post_state pre_state.account_id (pda seed.0 seed.1 identifier)
            ssk
            (compute_update_nullifier_and_set_digest membership_proof pre_state.account
              pre_state.account_id nsk)
            (private_account_nonce_increment host pre_state.account.nonce nsk)

  -- The loop of `compute_circuit_output`, on lists of the same length.
  unfoldable pub output_accounts :
      Bound
      → ℕ
      → Progress
      → List InputAccountIdentity
      → List (AccountWithMetadata × Account)
      → Guest Progress
  unfolding output_account
  output_accounts bound position progress [] states = ok progress
  output_accounts bound position progress (identity ∷ identities) [] = ok progress
  output_accounts bound position progress (identity ∷ identities) ((pre, post) ∷ states) = do
    next ← output_account bound position progress identity pre post
    output_accounts bound (suc position) next identities states

  -- The output before the first account.
  abbrev pub empty_output : ExecutionState → PrivacyPreservingCircuitOutput
  empty_output state = record {
    public_pre_states = [];
    public_post_states = [];
    ciphertexts = [];
    new_commitments = [];
    new_nullifiers = [];
    block_validity_window = state.block_validity_window;
    timestamp_validity_window = state.timestamp_validity_window;
  }

  -- The iterator is consumed lazily; a failing removal panics as well if it is made first.
  unfoldable pub compute_circuit_output :
      ExecutionState → List InputAccountIdentity → Guest PrivacyPreservingCircuitOutput
  unfolding states_of output_accounts
  compute_circuit_output state account_identities = do
    assert (length account_identities == length state.pre_states)
        "Invalid account_identities length"
    states ← states_of state.pre_states state.post_states
    progress ←
        output_accounts state.private_pda_bound_positions 0 (empty_output state, 0)
          account_identities states
    ok progress.0

  -- `main`: the output that the receipt of the circuit commits to.
  unfoldable pub main :
      Verify
      → List InputAccountIdentity
      → ProgramId
      → List ProgramOutput
      → Guest PrivacyPreservingCircuitOutput
  unfolding derive_from_outputs compute_circuit_output
  main verify account_identities program_id program_outputs = do
    state ← derive_from_outputs host verify account_identities program_id program_outputs
    compute_circuit_output state account_identities
