-- ===== src/Diff/Private/Spent.antt =====
-- What an accepted privacy preserving transaction has passed, and what follows for those after it.
use logos_execution_zone.Prelude.{
  ℕ, All, Dict, ◌≡◌, true, false, not, ◌&&◌, ◌||◌, none, some, List, [], ◌∷◌, map, n_unique, length,
  contains, contains_key, ok, ensure-bind, >>=-eq-ok, ◌==◌, ==_iff, arith, IsUnique,
  IsUnique-of_count,
}
use logos_execution_zone.Core.Account.{AccountId, Account, AccountWithMetadata}
use logos_execution_zone.Core.Window.{is_valid_for}
use logos_execution_zone.Transactions.{
  Commitment, Nullifier, CommitmentSetDigest, PrivateMessage, PrivacyPreservingTransaction,
  PrivacyPreservingCircuitOutput,
}
use logos_execution_zone.Host.{Host, account_id_of_public_key, private_message_hash}
use logos_execution_zone.State.{
  State, StateDiff, get_account_by_id, invalid_input, out_of_validity_window,
  check_commitments_are_new, check_nullifiers_are_valid,
}
use logos_execution_zone.Diff.Checks.{signer_account_ids, check_signers, build_pre_states}
use logos_execution_zone.Diff.Checks.Signed.{AreSigned, check_signers-AreSigned}
use logos_execution_zone.Diff.Private.Listed.{IsDiffAt, zip_accounts-IsDiffAt}
use logos_execution_zone.Diff.Private.{
  is_empty, n_unique_pairs, zip_accounts, check_proof, from_privacy_preserving_transaction,
}

-- The nullifiers that a transaction spends.
abbrev pub spent_by : PrivacyPreservingTransaction → List Nullifier
spent_by tx = map (λ entry. entry.0) tx.message.new_nullifiers

check_commitments-new :
    (state : State) (commitments : List Commitment) (c : Commitment)
    → check_commitments_are_new state commitments ≡ ok tt
    → contains commitments c ≡ true
    → contains_key state.commitment_set.commitments c ≡ false
unfolding check_commitments_are_new
check_commitments-new state [] c h found = cc
check_commitments-new state (d ∷ rest) c h found =
    let fresh =
      ensure-bind (not (contains_key state.commitment_set.commitments d))
        (invalid_input "Commitment already seen") _ h in
    ground (arith, fresh, check_commitments-new state rest c)

check_nullifiers-unspent :
    (state : State) (entries : List (Nullifier × CommitmentSetDigest)) (n : Nullifier)
    → check_nullifiers_are_valid state entries ≡ ok tt
    → contains (map (λ entry. entry.0) entries) n ≡ true
    → contains state.nullifier_set n ≡ false
unfolding check_nullifiers_are_valid
check_nullifiers-unspent state [] n h found = cc
check_nullifiers-unspent state ((m, digest) ∷ rest) n h found =
    let (fresh, h1) =
      ensure-bind (not (contains state.nullifier_set m)) (invalid_input "Nullifier already seen") _
        h in
    let (known, h2) =
      ensure-bind (contains state.commitment_set.root_history digest)
        (invalid_input "Unrecognized commitment set digest") _ h1 in
    ground (arith, fresh, h2, check_nullifiers-unspent state rest n)

-- What the proof has to show: the accounts before and all that the message announces.
abbrev pub announced : List AccountWithMetadata → PrivateMessage → PrivacyPreservingCircuitOutput
announced pre_states message = record {
  public_pre_states = pre_states;
  public_post_states = message.public_post_states;
  ciphertexts = map (λ value. value.ciphertext) message.encrypted_private_post_states;
  new_commitments = message.new_commitments;
  new_nullifiers = message.new_nullifiers;
  block_validity_window = message.block_validity_window;
  timestamp_validity_window = message.timestamp_validity_window;
}

-- The accounts that the keys of the signatures stand for.
abbrev pub signers : Host → PrivacyPreservingTransaction → List AccountId
signers host tx = map (λ entry. account_id_of_public_key host entry.1) tx.signatures_and_public_keys

-- The accounts of the message as they are in the state, the signers among them authorised.
abbrev pub accounts_before : Host → PrivacyPreservingTransaction → State → List AccountWithMetadata
accounts_before host tx state =
    map
      (λ account_id. record {
        account = get_account_by_id state account_id;
        is_authorized = contains (signers host tx) account_id;
        account_id = account_id;
      })
      tx.message.public_account_ids

check_nullifiers-known :
    (state : State) (entries : List (Nullifier × CommitmentSetDigest))
    → check_nullifiers_are_valid state entries ≡ ok tt
    → All (λ entry. contains state.commitment_set.root_history entry.1 ≡ true) entries
unfolding check_nullifiers_are_valid
check_nullifiers-known state [] h = tt
check_nullifiers-known state ((m, digest) ∷ rest) h =
    let (fresh, h1) =
      ensure-bind (not (contains state.nullifier_set m)) (invalid_input "Nullifier already seen") _
        h in
    let (known, h2) =
      ensure-bind (contains state.commitment_set.root_history digest)
        (invalid_input "Unrecognized commitment set digest") _ h1 in
    (known, check_nullifiers-known state rest h2)

check_proof-valid :
    (host : Host) (proof : List ℕ) (pre_states : List AccountWithMetadata)
    (message : PrivateMessage)
    → check_proof host proof pre_states message ≡ ok tt
    → host.verify_receipt proof (announced pre_states message) ≡ some true
unfolding check_proof
check_proof-valid host proof pre_states message h = ground arith

-- What an accepted transaction has passed.
pub record IsVerified (host : Host) (tx : PrivacyPreservingTransaction) (state : State)
    (block_id timestamp : ℕ) (diff : StateDiff) : Type 0 where
  pub distinct_accounts : IsUnique tx.message.public_account_ids
  pub distinct_commitments : IsUnique tx.message.new_commitments
  pub signed :
      AreSigned host state
        (private_message_hash host tx.message)
        tx.signatures_and_public_keys
        tx.message.nonces
  pub in_block_window : is_valid_for tx.message.block_validity_window block_id ≡ true
  pub in_timestamp_window : is_valid_for tx.message.timestamp_validity_window timestamp ≡ true
  pub proved :
      host.verify_receipt tx.proof (announced (accounts_before host tx state) tx.message)
      ≡ some true
  pub new :
      (c : Commitment)
      → contains tx.message.new_commitments c ≡ true
      → contains_key state.commitment_set.commitments c ≡ false
  pub unspent :
      (n : Nullifier) → contains (spent_by tx) n ≡ true → contains state.nullifier_set n ≡ false
  pub known :
      All
        (λ entry. contains state.commitment_set.root_history entry.1 ≡ true)
        tx.message.new_nullifiers
  pub writes : Dict Account
  pub listed :
      (j : AccountId)
      → IsDiffAt tx.message.public_account_ids tx.message.public_post_states writes j
  pub result : diff ≡ record {
    signer_account_ids = signers host tx;
    public_diff = writes;
    new_commitments = tx.message.new_commitments;
    new_nullifiers = spent_by tx;
    program = none;
  }

module _ (host : Host) (tx : PrivacyPreservingTransaction) (state : State)
    (block_id timestamp : ℕ) where
  -- An accepted transaction names distinct accounts and makes distinct commitments. Each of its
  -- signatures is one of the message by its key, and each nonce is the current one of the signer. It
  -- is inside both windows, and its proof verifies for the accounts of the state and all that the
  -- message announces. It spends only nullifiers that are not spent, with digests that are
  -- recognised, and makes only commitments that have not been seen. Its diff has the signers, the
  -- listed post state of each listed account and no other, the commitments and the nullifiers.
  pub from_privacy_preserving_transaction-IsVerified :
      {diff : StateDiff}
      → from_privacy_preserving_transaction host tx state block_id timestamp ≡ ok diff
      → IsVerified host tx state block_id timestamp diff
  unfolding from_privacy_preserving_transaction build_pre_states signer_account_ids
  from_privacy_preserving_transaction-IsVerified h =
      let m = tx.message in
      let (_, h1) =
        ensure-bind
          (not (is_empty tx.message.new_commitments) || not (is_empty tx.message.new_nullifiers))
          (invalid_input "Empty commitments and empty nullifiers found in message") _ h in
      let (accounts, h2) =
        ensure-bind (n_unique tx.message.public_account_ids == length tx.message.public_account_ids)
          (invalid_input "Duplicate account_ids found in message") _ h1 in
      let (_, h3) =
        ensure-bind (n_unique_pairs tx.message.new_nullifiers == length tx.message.new_nullifiers)
          (invalid_input "Duplicate nullifiers found in message") _ h2 in
      let (commitments, h4) =
        ensure-bind (n_unique tx.message.new_commitments == length tx.message.new_commitments)
          (invalid_input "Duplicate commitments found in message") _ h3 in
      let (_, signed, h5) =
        >>=-eq-ok
          (check_signers host state (private_message_hash host tx.message)
            tx.signatures_and_public_keys tx.message.nonces)
          _ h4 in
      let (window, h6) =
        ensure-bind
          (is_valid_for tx.message.block_validity_window block_id
            && is_valid_for tx.message.timestamp_validity_window timestamp)
          out_of_validity_window _ h5 in
      let (_, proved, h7) =
        >>=-eq-ok
          (check_proof host tx.proof
            (build_pre_states state (signer_account_ids host tx.signatures_and_public_keys)
              tx.message.public_account_ids)
            tx.message)
          _ h6 in
      let (_, fresh, h8) =
        >>=-eq-ok (check_commitments_are_new state tx.message.new_commitments) _ h7 in
      let (_, unspent, h9) =
        >>=-eq-ok (check_nullifiers_are_valid state tx.message.new_nullifiers) _ h8 in
      record {
        distinct_accounts = IsUnique-of_count _ ((==_iff _ _).0 accounts);
        distinct_commitments = IsUnique-of_count _ ((==_iff _ _).0 commitments);
        signed =
            check_signers-AreSigned host state (private_message_hash host tx.message)
              tx.signatures_and_public_keys tx.message.nonces signed;
        in_block_window = ground (arith, window);
        in_timestamp_window = ground (arith, window);
        proved = check_proof-valid host tx.proof _ tx.message proved;
        new = λ c found. check_commitments-new state tx.message.new_commitments c fresh found;
        unspent =
            λ n found. check_nullifiers-unspent state tx.message.new_nullifiers n unspent found;
        known = check_nullifiers-known state tx.message.new_nullifiers unspent;
        writes = zip_accounts tx.message.public_account_ids tx.message.public_post_states;
        listed = zip_accounts-IsDiffAt tx.message.public_account_ids tx.message.public_post_states;
        result = cc h9;
      }
