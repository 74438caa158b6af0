-- ===== src/Privacy/Output/Emitted.antt =====
-- What the circuit emits for each account: the identities are checked, and the nullifiers and
-- commitments are those of the accounts before and after.
use logos_execution_zone.Prelude.{
  ℕ, ◌+◌, ◌^◌, ◌≡◌, sym, true, false, not, List, [], ◌∷◌, ◌++◌, get, ok, >>=-eq-ok, assert,
  assert-eq-ok, assert-not, expect, ltb, ◌==◌, ==_iff,
}
use logos_execution_zone.Core.Account.{
  AccountId, Nonce, Account, AccountWithMetadata, default_account, account_eq, account_eq_sound,
}
use logos_execution_zone.Host.{Host}
use logos_execution_zone.Transactions.{
  Commitment, Nullifier, CommitmentSetDigest, PrivacyPreservingCircuitOutput,
}
use logos_execution_zone.Privacy.Keys.{
  NullifierSecretKey, npk_from, for_regular_private_account, for_account_update,
  for_account_initialization, commitment_of, private_account_nonce_init,
  private_account_nonce_increment, compute_digest_for_path, dummy_commitment_hash,
}
use logos_execution_zone.Privacy.Kind.{PrivateAccountKind, regular, pda}
use logos_execution_zone.Privacy.Cipher.{SharedSecretKey, Keystream, encrypt}
use logos_execution_zone.Privacy.Identity.{
  InputAccountIdentity, public, private_authorized_init, private_authorized_update,
  private_unauthorized, private_pda_init, private_pda_update,
}
use logos_execution_zone.Privacy.Binding.{Bound}
use logos_execution_zone.Privacy.Output.{
  Progress, emit_private_output, compute_update_nullifier_and_set_digest, output_account,
}
use mathlib.Core.List.{append-nil}

module _ (host : Host) where
  -- The nonce that a private account gets.
  abbrev pub next_nonce : InputAccountIdentity → AccountWithMetadata → Nonce
  next_nonce public pre = pre.account.nonce
  next_nonce (private_authorized_init ssk nsk identifier) pre =
      private_account_nonce_increment host pre.account.nonce nsk
  next_nonce (private_authorized_update ssk nsk proof identifier) pre =
      private_account_nonce_increment host pre.account.nonce nsk
  next_nonce (private_unauthorized npk ssk identifier) pre =
      private_account_nonce_init host pre.account_id
  next_nonce (private_pda_init npk ssk identifier) pre =
      private_account_nonce_init host pre.account_id
  next_nonce (private_pda_update ssk nsk proof identifier) pre =
      private_account_nonce_increment host pre.account.nonce nsk

  -- The nullifier that spends the account before: of its commitment, under the secret key of its
  -- owner, with the digest that the membership proof leads to.
  abbrev pub spending :
      NullifierSecretKey → (ℕ × List ℕ) → AccountWithMetadata → Nullifier × CommitmentSetDigest
  spending nsk proof pre = (
    for_account_update host (commitment_of host pre.account_id pre.account) nsk,
    compute_digest_for_path host (commitment_of host pre.account_id pre.account) proof,
  )

  -- The nullifier of an account: a new one is marked as initialised, an old one is spent.
  abbrev pub nullifiers_for :
      InputAccountIdentity → AccountWithMetadata → List (Nullifier × CommitmentSetDigest)
  nullifiers_for public pre = []
  nullifiers_for (private_authorized_init ssk nsk identifier) pre =
      (for_account_initialization host pre.account_id, dummy_commitment_hash) ∷ []
  nullifiers_for (private_authorized_update ssk nsk proof identifier) pre =
      spending nsk proof pre ∷ []
  nullifiers_for (private_unauthorized npk ssk identifier) pre =
      (for_account_initialization host pre.account_id, dummy_commitment_hash) ∷ []
  nullifiers_for (private_pda_init npk ssk identifier) pre =
      (for_account_initialization host pre.account_id, dummy_commitment_hash) ∷ []
  nullifiers_for (private_pda_update ssk nsk proof identifier) pre = spending nsk proof pre ∷ []

  -- A private account is committed to with its new nonce; a public one is shown.
  abbrev pub commitments_for :
      InputAccountIdentity → AccountWithMetadata → Account → List Commitment
  commitments_for public pre post = []
  commitments_for identity pre post =
      commitment_of host pre.account_id (record post { nonce = next_nonce identity pre }) ∷ []

  abbrev pub shown_pre : InputAccountIdentity → AccountWithMetadata → List AccountWithMetadata
  shown_pre public pre = pre ∷ []
  shown_pre identity pre = []

  abbrev pub shown_post : InputAccountIdentity → Account → List Account
  shown_post public post = post ∷ []
  shown_post identity post = []

  -- The account is the one that the identity claims, in the state that it needs.
  abbrev pub IsOpened : InputAccountIdentity → AccountWithMetadata → Type 0
  IsOpened public pre = Unit
  IsOpened (private_authorized_init ssk nsk identifier) pre =
      (pre.account_id ≡ for_regular_private_account host (npk_from host nsk) identifier)
      × (pre.is_authorized ≡ true)
      × (pre.account ≡ default_account)
  IsOpened (private_authorized_update ssk nsk proof identifier) pre =
      (pre.account_id ≡ for_regular_private_account host (npk_from host nsk) identifier)
      × (pre.is_authorized ≡ true)
  IsOpened (private_unauthorized npk ssk identifier) pre =
      (pre.account_id ≡ for_regular_private_account host npk identifier)
      × (pre.is_authorized ≡ false)
      × (pre.account ≡ default_account)
  IsOpened (private_pda_init npk ssk identifier) pre =
      (pre.is_authorized ≡ false) × (pre.account ≡ default_account)
  IsOpened (private_pda_update ssk nsk proof identifier) pre = pre.is_authorized ≡ true

  -- What has been added to an output.
  pub record IsAdded (out next : PrivacyPreservingCircuitOutput) (pres : List AccountWithMetadata)
      (posts : List Account) (nullifiers : List (Nullifier × CommitmentSetDigest))
      (commitments : List Commitment) : Type 0 where
    pub pres_added : next.public_pre_states ≡ out.public_pre_states ++ pres
    pub posts_added : next.public_post_states ≡ out.public_post_states ++ posts
    pub nullifiers_added : next.new_nullifiers ≡ out.new_nullifiers ++ nullifiers
    pub commitments_added : next.new_commitments ≡ out.new_commitments ++ commitments
    pub block_window_kept : next.block_validity_window ≡ out.block_validity_window
    pub timestamp_window_kept : next.timestamp_validity_window ≡ out.timestamp_validity_window

  module _ (apply_keystream : Keystream) where
    emit_private_output-IsAdded :
        (progress : Progress host apply_keystream) (post : Account) (account_id : AccountId)
        (kind : PrivateAccountKind) (ssk : SharedSecretKey)
        (nullifier : Nullifier × CommitmentSetDigest) (nonce : Nonce)
        {next : Progress host apply_keystream}
        → emit_private_output host apply_keystream progress post account_id kind ssk nullifier nonce
          ≡ ok next
        → IsAdded progress.0 next.0 [] []
            (nullifier ∷ [])
            (commitment_of host account_id (record post { nonce = nonce }) ∷ [])
    unfolding emit_private_output
    emit_private_output-IsAdded (out, index) post account_id kind ssk nullifier nonce {next} h =
        let (cipher, _, h1) =
          >>=-eq-ok
            (encrypt host apply_keystream (record post { nonce = nonce }) kind ssk
              (commitment_of host account_id (record post { nonce = nonce })) index)
            _ h in
        let (_, _, h2) =
          >>=-eq-ok
            (assert (ltb (index + 1) (2 ^ 32)) "Too many private accounts, output index overflow") _
            h1 in
        record {
          pres_added = cc (h2, append-nil out.public_pre_states);
          posts_added = cc (h2, append-nil out.public_post_states);
          nullifiers_added = cc h2;
          commitments_added = cc h2;
          block_window_kept = cc h2;
          timestamp_window_kept = cc h2;
        }

    -- What one account adds.
    abbrev pub IsEmitted :
        PrivacyPreservingCircuitOutput
        → InputAccountIdentity
        → AccountWithMetadata
        → Account
        → PrivacyPreservingCircuitOutput
        → Type 0
    IsEmitted out identity pre post next =
        IsOpened identity pre
        × IsAdded out next (shown_pre identity pre) (shown_post identity post)
            (nullifiers_for identity pre) (commitments_for identity pre post)

    pub output_account-IsEmitted :
        (bound : Bound) (position : ℕ) (progress : Progress host apply_keystream)
        (identity : InputAccountIdentity) (pre : AccountWithMetadata) (post : Account)
        {next : Progress host apply_keystream}
        → output_account host apply_keystream bound position progress identity pre post ≡ ok next
        → IsEmitted progress.0 identity pre post next.0
    unfolding output_account compute_update_nullifier_and_set_digest
    output_account-IsEmitted bound position (out, index) public pre post h = (
      tt,
      record {
        pres_added = cc h;
        posts_added = cc h;
        nullifiers_added = cc (h, append-nil out.new_nullifiers);
        commitments_added = cc (h, append-nil out.new_commitments);
        block_window_kept = cc h;
        timestamp_window_kept = cc h;
      },
    )
    output_account-IsEmitted bound position progress (private_authorized_init ssk nsk identifier)
          pre post h =
        let id = for_regular_private_account host (npk_from host nsk) identifier in
        let (_, a, h1) = >>=-eq-ok (assert (id == pre.account_id) "AccountId mismatch") _ h in
        let (_, b, h2) =
          >>=-eq-ok
            (assert pre.is_authorized "Pre-state not authorized for authenticated private account")
            _ h1 in
        let (_, c, h3) =
          >>=-eq-ok
            (assert (account_eq pre.account default_account)
              "Found new private account with non default values")
            _ h2 in
        let e : id ≡ pre.account_id = (==_iff _ _).0 (assert-eq-ok _ "AccountId mismatch" a) in
        (
          (
            sym e,
            assert-eq-ok _ "Pre-state not authorized for authenticated private account" b,
            account_eq_sound _ _
                (assert-eq-ok _ "Found new private account with non default values" c),
          ),
          rw e at (emit_private_output-IsAdded progress post id (regular identifier) ssk _ _ h3),
        )
    output_account-IsEmitted bound position progress
          (private_authorized_update ssk nsk proof identifier) pre post h =
        let id = for_regular_private_account host (npk_from host nsk) identifier in
        let (_, a, h1) = >>=-eq-ok (assert (id == pre.account_id) "AccountId mismatch") _ h in
        let (_, b, h2) =
          >>=-eq-ok
            (assert pre.is_authorized "Pre-state not authorized for authenticated private account")
            _ h1 in
        let e : id ≡ pre.account_id = (==_iff _ _).0 (assert-eq-ok _ "AccountId mismatch" a) in
        (
          (sym e, assert-eq-ok _ "Pre-state not authorized for authenticated private account" b),
          rw e at (emit_private_output-IsAdded progress post id (regular identifier) ssk _ _ h2),
        )
    output_account-IsEmitted bound position progress (private_unauthorized npk ssk identifier) pre
          post h =
        let id = for_regular_private_account host npk identifier in
        let (_, a, h1) = >>=-eq-ok (assert (id == pre.account_id) "AccountId mismatch") _ h in
        let (_, c, h2) =
          >>=-eq-ok
            (assert (account_eq pre.account default_account)
              "Found new private account with non default values")
            _ h1 in
        let (_, b, h3) =
          >>=-eq-ok
            (assert (not pre.is_authorized) "Found new private account marked as authorized.") _
            h2 in
        let e : id ≡ pre.account_id = (==_iff _ _).0 (assert-eq-ok _ "AccountId mismatch" a) in
        (
          (
            sym e,
            assert-not _ "Found new private account marked as authorized." b,
            account_eq_sound _ _
                (assert-eq-ok _ "Found new private account with non default values" c),
          ),
          rw e at (emit_private_output-IsAdded progress post id (regular identifier) ssk _ _ h3),
        )
    output_account-IsEmitted bound position progress (private_pda_init npk ssk identifier) pre post
          h =
        let (_, b, h1) =
          >>=-eq-ok
            (assert (not pre.is_authorized) "PrivatePdaInit requires unauthorized pre_state") _ h in
        let (_, c, h2) =
          >>=-eq-ok
            (assert (account_eq pre.account default_account) "New private PDA must be default") _
            h1 in
        let (seed, _, h3) =
          >>=-eq-ok
            (expect (get bound position) "PrivatePdaInit position must be in pda_seed_by_position")
            _ h2 in
        (
          (
            assert-not _ "PrivatePdaInit requires unauthorized pre_state" b,
            account_eq_sound _ _ (assert-eq-ok _ "New private PDA must be default" c),
          ),
          emit_private_output-IsAdded progress post pre.account_id (pda seed.0 seed.1 identifier)
              ssk _ _ h3,
        )
    output_account-IsEmitted bound position progress (private_pda_update ssk nsk proof identifier)
          pre post h =
        let (_, b, h1) =
          >>=-eq-ok (assert pre.is_authorized "PrivatePdaUpdate requires authorized pre_state") _
            h in
        let (seed, _, h2) =
          >>=-eq-ok
            (expect (get bound position)
              "PrivatePdaUpdate position must be in pda_seed_by_position")
            _ h1 in
        (
          assert-eq-ok _ "PrivatePdaUpdate requires authorized pre_state" b,
          emit_private_output-IsAdded progress post pre.account_id (pda seed.0 seed.1 identifier)
              ssk _ _ h2,
        )
