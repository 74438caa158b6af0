-- ===== src/Approval.antt =====
-- lez-approval/src/lib.rs: a single administrator, and the gate that only that account passes.
pub mod Gate
use logos_execution_zone.Prelude.{
  String, Bool, ◌&&◌, Option, none, some, Guest, ok, panic, ◌>>=◌, ◌>>◌, assert, ◌==◌,
}
use logos_execution_zone.Core.Account.{AccountId, AccountWithMetadata}

-- `Authority(Option<AccountId>)`
pub record Authority : Type 0 where
  pub admin : Option AccountId

abbrev pub new : AccountId → Authority
new admin = record { admin = some admin }

abbrev pub renounced : Authority
renounced = record { admin = none }

-- `ApprovalError::Unauthorized` and `ApprovalError::Renounced`, as the panics print them.
abbrev pub unauthorized_error : String
unauthorized_error = "not authorized: signer does not match admin authority"

abbrev pub renounced_error : String
renounced_error = "authority renounced: operation requires an active admin"

gate_admin : Option AccountId → AccountWithMetadata → Guest (Unit {0})
gate_admin none signer = panic renounced_error
gate_admin (some admin) signer =
    assert (signer.is_authorized && (signer.account_id == admin)) unauthorized_error

unfoldable pub gate : Authority → AccountWithMetadata → Guest (Unit {0})
unfolding gate_admin
gate authority signer = gate_admin authority.admin signer

unfoldable pub transfer : Authority → AccountWithMetadata → AccountId → Guest Authority
unfolding gate
transfer authority signer new_admin = do gate authority signer; ok (new new_admin)

unfoldable pub revoke : Authority → AccountWithMetadata → Guest Authority
unfolding gate
revoke authority signer = do gate authority signer; ok renounced
