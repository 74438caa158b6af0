-- ===== src/Diff/Checks/Signed.antt =====
-- What the checks of signatures and nonces have compared.
use logos_execution_zone.Prelude.{
  ℕ, ◌≡◌, true, List, [], ◌∷◌, length, All, AllPairs, ok, all, ensure-bind, ◌==◌, ==_iff, arith,
}
use logos_execution_zone.Core.Account.{Nonce}
use logos_execution_zone.Transactions.{Signature, PublicKey}
use logos_execution_zone.Host.{Host, account_id_of_public_key}
use logos_execution_zone.State.{State, get_account_by_id, invalid_input}
use logos_execution_zone.Diff.Checks.{
  signatures_are_valid_for, signer_account_ids, check_nonces, check_signers,
}

-- Each signature is one of the message by its key, and the nonces are those of the signers' accounts.
pub record AreSigned (host : Host) (state : State) (message_hash : ℕ)
    (witnesses : List (Signature × PublicKey)) (nonces : List Nonce) : Type 0 where
  pub verified : All (λ entry. host.verify_raw entry.1 message_hash entry.0 ≡ true) witnesses
  pub current :
      AllPairs
        (λ entry nonce.
          (get_account_by_id state (account_id_of_public_key host entry.1)).nonce ≡ nonce)
        witnesses
        nonces

all-All :
    (host : Host) (message_hash : ℕ) (witnesses : List (Signature × PublicKey))
    → all (λ entry. host.verify_raw entry.1 message_hash entry.0) witnesses ≡ true
    → All (λ entry. host.verify_raw entry.1 message_hash entry.0 ≡ true) witnesses
all-All host message_hash [] h = tt
all-All host message_hash (entry ∷ rest) h =
    (ground arith, all-All host message_hash rest (ground arith))

check_nonces-current :
    (host : Host) (state : State) (witnesses : List (Signature × PublicKey)) (nonces : List Nonce)
    → length nonces ≡ length witnesses
    → check_nonces state (signer_account_ids host witnesses) nonces ≡ ok tt
    → AllPairs
        (λ entry nonce.
          (get_account_by_id state (account_id_of_public_key host entry.1)).nonce ≡ nonce)
        witnesses
        nonces
unfolding check_nonces signer_account_ids
check_nonces-current host state [] [] l h = tt
check_nonces-current host state [] (nonce ∷ nonces) l h = absurd (omega arith)
check_nonces-current host state (entry ∷ rest) [] l h = absurd (omega arith)
check_nonces-current host state (entry ∷ rest) (nonce ∷ nonces) l h =
    let (same, h1) =
      ensure-bind ((get_account_by_id state (account_id_of_public_key host entry.1)).nonce == nonce)
        (invalid_input "Nonce mismatch") _ h in
    ((==_iff _ _).0 same, check_nonces-current host state rest nonces (omega arith) h1)

pub check_signers-AreSigned :
    (host : Host) (state : State) (message_hash : ℕ) (witnesses : List (Signature × PublicKey))
    (nonces : List Nonce)
    → check_signers host state message_hash witnesses nonces ≡ ok tt
    → AreSigned host state message_hash witnesses nonces
unfolding check_signers signatures_are_valid_for
check_signers-AreSigned host state message_hash witnesses nonces h =
    let (lengths, h1) =
      ensure-bind (length nonces == length witnesses)
        (invalid_input "Mismatch between number of nonces and signatures/public keys") _ h in
    let (valid, h2) =
      ensure-bind (all (λ entry. host.verify_raw entry.1 message_hash entry.0) witnesses)
        (invalid_input "Invalid signature for given message and public key") _ h1 in
    record {
      verified = all-All host message_hash witnesses valid;
      current = check_nonces-current host state witnesses nonces ((==_iff _ _).0 lengths) h2;
    }
