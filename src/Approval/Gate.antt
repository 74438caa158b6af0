-- ===== src/Approval/Gate.antt =====
-- Who passes the gate, and what follows a revocation.
use logos_execution_zone.Prelude.{◌≡◌, ◌↔◌, true, some, ok, panic, arith}
use logos_execution_zone.Core.Account.{AccountId, AccountWithMetadata}
use logos_execution_zone.Approval.{Authority, gate, transfer, revoke, renounced_error}

-- The gate opens exactly to the account of the active administrator, if that account has signed.
pub gate_exact :
    (authority : Authority) (signer : AccountWithMetadata)
    → (gate authority signer ≡ ok tt)
      ↔ ((authority.admin ≡ some signer.account_id) × (signer.is_authorized ≡ true))
unfolding gate
gate_exact authority signer = (λ h. ground arith, λ h. ground arith)

-- After a rotation the gate opens exactly to the new administrator.
pub gate-transfer :
    (authority : Authority) (signer other : AccountWithMetadata) (new_admin : AccountId)
    {next : Authority}
    → transfer authority signer new_admin ≡ ok next
    → (gate next other ≡ ok tt) ↔ ((other.account_id ≡ new_admin) × (other.is_authorized ≡ true))
unfolding transfer
gate-transfer authority signer other new_admin h = (λ g. ground arith, λ g. ground arith)

-- A revocation is final: gate, rotation and revocation panic for every account from then on.
pub revoke-is_final :
    (authority : Authority) (signer other : AccountWithMetadata) (new_admin : AccountId)
    {next : Authority}
    → revoke authority signer ≡ ok next
    → (gate next other ≡ panic renounced_error)
      × (transfer next other new_admin ≡ panic renounced_error)
      × (revoke next other ≡ panic renounced_error)
unfolding revoke transfer
revoke-is_final authority signer other new_admin h = ground arith
