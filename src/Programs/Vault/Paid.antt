-- ===== src/Programs/Vault/Paid.antt =====
-- What a claim pays out, once the transfer that it calls has run.
use logos_execution_zone.Prelude.{
  ℕ, ◌+◌, ◌≤◌, ◌≡◌, ◌↔◌, refl, sym, ap, ◌∙◌, Guest, ◌>>=◌, true, List, [], ◌∷◌, ◌++◌, ok, >>=-eq-ok,
  assert, assert-eq-ok, u128_max, codes, le_bytes,
}
use logos_execution_zone.Core.Account.{AccountWithMetadata}
use logos_execution_zone.Core.Program.{AccountPostState, ChainedCall}
use logos_execution_zone.Host.{Host}
use logos_execution_zone.Programs.AuthTransfer
use logos_execution_zone.Programs.AuthTransfer.Accepted.{transfer_exact, transferred}
use logos_execution_zone.Programs.Vault.{Serializer, claim, compute_vault_seed, vault_calls}

module _ (host : Host) (serializer : Serializer) where
  -- The vault with its flag set: it is the first account of the call.
  abbrev pub opened : AccountWithMetadata → AccountWithMetadata
  opened owner_vault = record {
    account = owner_vault.account;
    is_authorized = true;
    account_id = owner_vault.account_id;
  }

  -- The call of a claim, with the seed that the owner's identifier determines.
  abbrev pub payout_call : AccountWithMetadata → AccountWithMetadata → ℕ → ChainedCall
  payout_call owner owner_vault amount = record {
    program_id = owner_vault.account.program_owner;
    pre_states = opened owner_vault ∷ owner ∷ [];
    instruction_data = serializer.auth_transfer_words (AuthTransfer.transfer_amount amount);
    pda_seeds =
        host.sha256 (codes "/LEZ/v0.3/VaultSeed/00000000000/" ++ le_bytes 32 owner.account_id) ∷ [];
  }

  -- A claim returns exactly if the owner signed it, and then makes exactly one call: to the program
  -- that owns the vault, to transfer the amount from the authorised vault to the owner, with the seed
  -- that the owner's identifier determines and no other. The transfer of that call returns exactly
  -- if the vault has the amount and the owner has room for it, and then moves exactly the amount from
  -- the vault to the owner.
  pub claim-pays :
      (owner owner_vault : AccountWithMetadata) (amount : ℕ) (calls : List ChainedCall)
      (posts : List AccountPostState)
      → ((vault_calls host serializer (claim amount) (owner ∷ owner_vault ∷ []) ≡ ok calls)
          ↔ ((owner.is_authorized ≡ true) × (calls ≡ payout_call owner owner_vault amount ∷ [])))
        × ((AuthTransfer.run_instruction
                (AuthTransfer.transfer_amount amount)
                (opened owner_vault ∷ owner ∷ [])
              ≡ ok posts)
            ↔ ((amount ≤ owner_vault.account.balance)
                × (owner.account.balance + amount ≤ u128_max)
                × (posts ≡ transferred (opened owner_vault) owner amount)))
  unfolding vault_calls compute_vault_seed AuthTransfer.run_instruction
  claim-pays owner owner_vault amount calls posts =
      let exact = transfer_exact (opened owner_vault) owner amount posts in
      (
        (
          λ h.
              let (_, signed, h1) =
                >>=-eq-ok
                  (assert owner.is_authorized "Owner must be authorized to claim from the vault") _
                  h in
              (
                assert-eq-ok owner.is_authorized "Owner must be authorized to claim from the vault"
                    signed,
                cc h1,
              ),
          λ right.
              let signed : assert {E = ⊥} owner.is_authorized
                    "Owner must be authorized to claim from the vault"
                  ≡ ok tt =
                rw (right.0) refl in
              ap
                (λ (r : Guest (Unit {0})).
                  r >>= λ u. ok (payout_call owner owner_vault amount ∷ []))
                signed
              ∙ ap ok (sym right.1),
        ),
        (
          λ h. let (_, covered, room, e) = exact.0 h in (covered, room, e),
          λ right. exact.1 (refl, right.0, right.1, right.2),
        ),
      )
