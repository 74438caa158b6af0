-- ===== src/Privacy/Keys.antt =====
-- nssa/core/src/nullifier.rs, commitment.rs and account.rs: the identifiers, nonces, commitments and
-- nullifiers of private accounts. Keys are the numbers of their bytes.
use logos_execution_zone.Prelude.{
  ℕ, ◌^◌, ◌%◌, ◌/◌, ◌==◌, if◌then◌else◌, List, [], ◌∷◌, ◌++◌, codes, replicate, le_bytes,
  number_of_bytes,
}
use logos_execution_zone.Core.Account.{AccountId, Nonce, Account}
use logos_execution_zone.Host.{Host}
use logos_execution_zone.Transactions.{Commitment, Nullifier, CommitmentSetDigest}

abbrev pub NullifierPublicKey : Type 0
NullifierPublicKey = ℕ

abbrev pub NullifierSecretKey : Type 0
NullifierSecretKey = ℕ

abbrev pub Identifier : Type 0
Identifier = ℕ

-- The index of a leaf, and the siblings on the path from it to the root.
abbrev pub MembershipProof : Type 0
MembershipProof = ℕ × List ℕ

unfoldable pub dummy_commitment_hash : CommitmentSetDigest
unfolding number_of_bytes
dummy_commitment_hash = number_of_bytes (
    250 ∷ 237 ∷ 192 ∷ 113 ∷ 155 ∷ 101 ∷ 119 ∷ 30 ∷ 235 ∷ 183 ∷ 20 ∷ 84 ∷ 26 ∷ 32 ∷ 196 ∷ 229 ∷ 154
    ∷ 74 ∷ 254 ∷ 249 ∷ 129 ∷ 241 ∷ 118 ∷ 39 ∷ 41 ∷ 253 ∷ 141 ∷ 171 ∷ 184 ∷ 71 ∷ 8 ∷ 41 ∷ [])

module _ (host : Host) where
  -- `NullifierPublicKey::from`
  unfoldable pub npk_from : NullifierSecretKey → NullifierPublicKey
  npk_from nsk = host.sha256 (codes "LEE/keys" ++ le_bytes 32 nsk ++ 7 ∷ [] ++ replicate 23 0)

  unfoldable pub for_regular_private_account : NullifierPublicKey → Identifier → AccountId
  for_regular_private_account npk identifier = host.sha256 (
      codes "/LEE/v0.3/AccountId/Private/"
      ++ replicate 4 0
      ++ le_bytes 32 npk
      ++ le_bytes 16 identifier)

  unfoldable pub for_account_update : Commitment → NullifierSecretKey → Nullifier
  for_account_update commitment nsk = host.sha256 (
      codes "/LEE/v0.3/Nullifier/Update/"
      ++ replicate 5 0
      ++ le_bytes 32 commitment
      ++ le_bytes 32 nsk)

  unfoldable pub for_account_initialization : AccountId → Nullifier
  for_account_initialization account_id =
      host.sha256 (codes "/LEE/v0.3/Nullifier/Initialize/" ++ 0 ∷ [] ++ le_bytes 32 account_id)

  -- `Commitment::new`
  unfoldable pub commitment_of : AccountId → Account → Commitment
  commitment_of account_id account = host.sha256 (
      codes "/LEE/v0.3/Commitment/"
      ++ replicate 11 0
      ++ le_bytes 32 account_id
      ++ le_bytes 32 account.program_owner
      ++ le_bytes 16 account.balance
      ++ le_bytes 16 account.nonce
      ++ le_bytes 32 (host.sha256 account.account_data))

  -- The first 16 of the 32 bytes of a digest, as a `u128`.
  unfoldable pub private_account_nonce_init : AccountId → Nonce
  private_account_nonce_init account_id =
      host.sha256 (le_bytes 32 account_id ++ replicate 32 0) % 2 ^ 128

  unfoldable pub private_account_nonce_increment : Nonce → NullifierSecretKey → Nonce
  private_account_nonce_increment nonce nsk =
      host.sha256 (le_bytes 32 nsk ++ le_bytes 16 nonce ++ replicate 16 0) % 2 ^ 128

  -- The loop of `compute_digest_for_path`.
  unfoldable pub digest_for_path : ℕ → ℕ → List ℕ → CommitmentSetDigest
  digest_for_path result level_index [] = result
  digest_for_path result level_index (node ∷ nodes) =
      digest_for_path
        (host.sha256 (
          if level_index % 2 == 0
          then le_bytes 32 result ++ le_bytes 32 node
          else le_bytes 32 node ++ le_bytes 32 result))
        (level_index / 2) nodes

  unfoldable pub compute_digest_for_path : Commitment → MembershipProof → CommitmentSetDigest
  unfolding digest_for_path
  compute_digest_for_path commitment proof =
      digest_for_path (host.sha256 (le_bytes 32 commitment)) proof.0 proof.1
