-- ===== src/Privacy/Output/All.antt =====
-- What the circuit emits for all accounts.
use logos_execution_zone.Prelude.{
  ℕ, suc, ◌≡◌, refl, sym, ◌∙◌, List, [], ◌∷◌, ◌++◌, length, AllPairs, ok, >>=-eq-ok, subst, arith,
}
use logos_execution_zone.Core.Account.{Account, AccountWithMetadata}
use logos_execution_zone.Host.{Host}
use logos_execution_zone.Transactions.{
  Commitment, Nullifier, CommitmentSetDigest, PrivacyPreservingCircuitOutput,
}
use logos_execution_zone.Privacy.Cipher.{Keystream}
use logos_execution_zone.Privacy.Identity.{InputAccountIdentity}
use logos_execution_zone.Privacy.Binding.{Bound}
use logos_execution_zone.Privacy.Output.{Progress, output_account, output_accounts}
use mathlib.Core.List.{append_assoc, append-nil}
use logos_execution_zone.Privacy.Output.Emitted.{
  IsOpened, IsAdded, shown_pre, shown_post, nullifiers_for, commitments_for,
  output_account-IsEmitted,
}

module _ (host : Host) where
  -- The same for all accounts in turn.
  abbrev pub all_nullifiers :
      List InputAccountIdentity
      → List (AccountWithMetadata × Account)
      → List (Nullifier × CommitmentSetDigest)
  all_nullifiers (identity ∷ identities) ((pre, post) ∷ states) =
      nullifiers_for host identity pre ++ all_nullifiers identities states
  all_nullifiers _ _ = []

  abbrev pub all_commitments :
      List InputAccountIdentity → List (AccountWithMetadata × Account) → List Commitment
  all_commitments (identity ∷ identities) ((pre, post) ∷ states) =
      commitments_for host identity pre post ++ all_commitments identities states
  all_commitments _ _ = []

  abbrev pub all_shown_pres :
      List InputAccountIdentity → List (AccountWithMetadata × Account) → List AccountWithMetadata
  all_shown_pres (identity ∷ identities) ((pre, post) ∷ states) =
      shown_pre host identity pre ++ all_shown_pres identities states
  all_shown_pres _ _ = []

  abbrev pub all_shown_posts :
      List InputAccountIdentity → List (AccountWithMetadata × Account) → List Account
  all_shown_posts (identity ∷ identities) ((pre, post) ∷ states) =
      shown_post host identity post ++ all_shown_posts identities states
  all_shown_posts _ _ = []

  abbrev pub AllOpened : List InputAccountIdentity → List (AccountWithMetadata × Account) → Type 0
  AllOpened = AllPairs λ identity states. IsOpened host identity states.0

  IsAdded-trans :
      {a b c : PrivacyPreservingCircuitOutput} {pres pres' : List AccountWithMetadata}
      {posts posts' : List Account} {ns ns' : List (Nullifier × CommitmentSetDigest)}
      {cs cs' : List Commitment}
      → IsAdded host a b pres posts ns cs
      → IsAdded host b c pres' posts' ns' cs'
      → IsAdded host a c (pres ++ pres') (posts ++ posts') (ns ++ ns') (cs ++ cs')
  IsAdded-trans x y = record {
    pres_added = simp (y.pres_added, x.pres_added, append_assoc);
    posts_added = simp (y.posts_added, x.posts_added, append_assoc);
    nullifiers_added = simp (y.nullifiers_added, x.nullifiers_added, append_assoc);
    commitments_added = simp (y.commitments_added, x.commitments_added, append_assoc);
    block_window_kept = y.block_window_kept ∙ x.block_window_kept;
    timestamp_window_kept = y.timestamp_window_kept ∙ x.timestamp_window_kept;
  }

  IsAdded-nothing : (a : PrivacyPreservingCircuitOutput) → IsAdded host a a [] [] [] []
  IsAdded-nothing a = record {
    pres_added = sym (append-nil _);
    posts_added = sym (append-nil _);
    nullifiers_added = sym (append-nil _);
    commitments_added = sym (append-nil _);
    block_window_kept = refl;
    timestamp_window_kept = refl;
  }

  module _ (apply_keystream : Keystream) where
    pub output_accounts-IsAdded :
        (bound : Bound) (position : ℕ) (progress : Progress host apply_keystream)
        (identities : List InputAccountIdentity) (states : List (AccountWithMetadata × Account))
        {final : Progress host apply_keystream}
        → length identities ≡ length states
        → output_accounts host apply_keystream bound position progress identities states ≡ ok final
        → AllOpened identities states
          × IsAdded host progress.0 final.0
              (all_shown_pres identities states)
              (all_shown_posts identities states)
              (all_nullifiers identities states)
              (all_commitments identities states)
    unfolding output_accounts
    output_accounts-IsAdded bound position progress [] [] {final} l h =
        let e : progress ≡ final = cc h in
        (
          tt,
          subst (λ (r : Progress host apply_keystream). IsAdded host progress.0 r.0 [] [] [] []) e
              (IsAdded-nothing progress.0),
        )
    output_accounts-IsAdded bound position progress [] (state ∷ states) l h = absurd (omega arith)
    output_accounts-IsAdded bound position progress (identity ∷ identities) [] l h =
        absurd (omega arith)
    output_accounts-IsAdded bound position progress (identity ∷ identities) ((pre, post) ∷ states) l
          h =
        let (next, e, rest) =
          >>=-eq-ok (output_account host apply_keystream bound position progress identity pre post)
            _ h in
        let (opened, added) =
          output_account-IsEmitted host apply_keystream bound position progress identity pre post
            e in
        let (others, more) =
          output_accounts-IsAdded bound (suc position) next identities states (omega arith) rest in
        ((opened, others), IsAdded-trans added more)
