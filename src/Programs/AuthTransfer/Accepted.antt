-- ===== src/Programs/AuthTransfer/Accepted.antt =====
-- Transfers of the native balance obey the rules of `validate_execution`.
use logos_execution_zone.Prelude.{
  ℕ, ◌+◌, ◌≤◌, ◌≡◌, ◌≢◌, ◌⊎◌, inl, inr, refl, List, [], ◌∷◌, ok, arith, ◌==◌, true, some, none,
  if◌then◌else◌, ◌-◌, ◌↔◌, u128_max,
}
use logos_execution_zone.Core.Account.{
  ProgramId, AccountWithMetadata, default_account, default_program_id,
}
use logos_execution_zone.Core.Program.{AccountPostState, post_state, authorized}
use logos_execution_zone.Core.Validate.Rules.{IsWellBehaved}
use logos_execution_zone.Programs.AuthTransfer.{transfer}

-- The balance moves by `amount`, the recipient is claimed if it has no owner, and nothing else changes.
abbrev pub transferred : AccountWithMetadata → AccountWithMetadata → ℕ → List AccountPostState
transferred sender recipient amount =
    post_state (record sender.account { balance = sender.account.balance - amount })
    ∷ record {
      account = record recipient.account { balance = recipient.account.balance + amount };
      claim =
          if recipient.account.program_owner == default_program_id then some authorized else none;
    }
    ∷ []

-- A transfer returns exactly if the sender has authorised it, the sender has the amount and the
-- recipient has room for it. It moves the amount, claims a recipient without an owner, and changes
-- nothing else.
pub transfer_exact :
    (sender recipient : AccountWithMetadata) (amount : ℕ) (posts : List AccountPostState)
    → (transfer sender recipient amount ≡ ok posts) ↔ (
        (sender.is_authorized ≡ true)
        × (amount ≤ sender.account.balance)
        × (recipient.account.balance + amount ≤ u128_max)
        × (posts ≡ transferred sender recipient amount))
unfolding transfer
transfer_exact sender recipient amount posts = (λ h. ground arith, λ h. ground arith)

-- A transfer that returns, of a program that is not the default one, from an account that it owns
-- with a `u128` balance to another account, which has an owner or is still default, is a
-- well-behaved execution of that program.
pub transfer-IsWellBehaved :
    (program_id : ProgramId) (sender recipient : AccountWithMetadata) (amount : ℕ)
    (posts : List AccountPostState)
    → transfer sender recipient amount ≡ ok posts
    → sender.account_id ≢ recipient.account_id
    → program_id ≢ default_program_id
    → sender.account.program_owner ≡ program_id
    → sender.account.balance ≤ u128_max
    → (recipient.account.program_owner ≢ default_program_id) ⊎ (recipient.account ≡ default_account)
    → IsWellBehaved program_id (sender ∷ recipient ∷ []) posts
transfer-IsWellBehaved program_id sender recipient amount posts h distinct real owned word target =
    let (signed, covered, room, e) = (transfer_exact sender recipient amount posts).0 h in
    rw e record {
      unique = ground arith;
      same_length = refl;
      allowed = (
        record {
          nonce_kept = refl;
          owner_kept = refl;
          decrease_by_owner = inr owned;
          write_by_owner = inl refl;
          default_if_unowned = ground arith;
        },
        (
          record {
            nonce_kept = refl;
            owner_kept = refl;
            decrease_by_owner = omega arith;
            write_by_owner = inl refl;
            default_if_unowned = target;
          },
          tt,
        ),
      );
      total_kept = omega arith;
      representable = omega arith;
    }
