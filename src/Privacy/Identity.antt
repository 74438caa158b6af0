-- ===== src/Privacy/Identity.antt =====
-- nssa/core/src/circuit_io.rs: what the prover says about each account.
use logos_execution_zone.Prelude.{Bool, true, false, Option, none, some}
use logos_execution_zone.Host.{Host}
use logos_execution_zone.Privacy.Keys.{
  NullifierPublicKey, NullifierSecretKey, Identifier, MembershipProof, npk_from,
}
use logos_execution_zone.Privacy.Cipher.{SharedSecretKey}

-- The fields in the order of the source.
pub data InputAccountIdentity : Type 0 where
  public : InputAccountIdentity
  private_authorized_init : SharedSecretKey → NullifierSecretKey → Identifier → InputAccountIdentity
  private_authorized_update :
      SharedSecretKey → NullifierSecretKey → MembershipProof → Identifier → InputAccountIdentity
  private_unauthorized : NullifierPublicKey → SharedSecretKey → Identifier → InputAccountIdentity
  private_pda_init : NullifierPublicKey → SharedSecretKey → Identifier → InputAccountIdentity
  private_pda_update :
      SharedSecretKey → NullifierSecretKey → MembershipProof → Identifier → InputAccountIdentity

abbrev pub is_public : InputAccountIdentity → Bool
is_public public = true
is_public identity = false

abbrev pub is_private_pda : InputAccountIdentity → Bool
is_private_pda (private_pda_init npk ssk identifier) = true
is_private_pda (private_pda_update ssk nsk membership_proof identifier) = true
is_private_pda identity = false

unfoldable pub npk_if_private_pda :
    Host → InputAccountIdentity → Option (NullifierPublicKey × Identifier)
unfolding npk_from
npk_if_private_pda host (private_pda_init npk ssk identifier) = some (npk, identifier)
npk_if_private_pda host (private_pda_update ssk nsk membership_proof identifier) =
    some (npk_from host nsk, identifier)
npk_if_private_pda host identity = none
