-- ===== src/Token/Define/Revoke.antt =====
-- The revocation of a token's authority.
use logos_execution_zone.Prelude.{
  ℕ, ◌≡◌, refl, true, some, List, ◌∷◌, ok, panic, expect, expect-eq-ok, >>=-eq-ok, String, arith,
}
use logos_execution_zone.Core.Account.{AccountId, AccountWithMetadata}
use logos_execution_zone.Core.Program.{AccountPostState, post_state}
use logos_execution_zone.Approval.{renounced, gate, revoke, transfer, renounced_error}
use logos_execution_zone.Approval.Gate.{gate_exact}
use logos_execution_zone.Token.Core.{
  Codec, IsCodec, TokenDefinition, DefinitionInRange, supply_of, data_from_bytes-eq,
  data_from_definition,
}
use logos_execution_zone.Token.Supply.{mint_with_authority, authority_of}
use logos_execution_zone.Token.Define.{
  change_authority, with_changed_authority, rotate_authority, revoke_authority,
}

-- A definition that has an authority and its successor, which nobody administers.
pub record IsRevoked (before after : TokenDefinition) (admin : AccountId) : Type 0 where
  pub administered : authority_of before "" ≡ ok (record { admin = some admin })
  pub nobody : authority_of after "" ≡ ok renounced
  pub same_supply : supply_of after ≡ supply_of before
  pub range : DefinitionInRange before → DefinitionInRange after

change_authority-IsRevoked :
    (before : TokenDefinition) (signer : AccountWithMetadata) (message : String)
    (after : TokenDefinition)
    → change_authority (λ authority. revoke authority signer) before message ≡ ok after
    → IsRevoked before after signer.account_id × (signer.is_authorized ≡ true)
unfolding change_authority revoke authority_of
change_authority-IsRevoked (TokenDefinition.non_fungible n s m) signer message after h = cc
change_authority-IsRevoked (TokenDefinition.fungible n s m a) signer message after h =
    let (next, e, h1) = >>=-eq-ok (revoke a signer) _ h in
    let (_, opened, h2) = >>=-eq-ok (gate a signer) _ e in
    let (admin, signed) = (gate_exact a signer).0 opened in
    let same : after ≡ TokenDefinition.fungible n s m renounced = cc (h1, h2) in
    (
      rw same (record {
        administered = ground (arith, admin);
        nobody = refl;
        same_supply = refl;
        range = λ p. p;
      }),
      signed,
    )

module _ (codec : Codec) (signer : AccountWithMetadata) where
  -- Nobody passes for a definition without an authority.
  closed :
      (definition_account holding_account : AccountWithMetadata) (definition : TokenDefinition)
      (amount : ℕ) (new_admin : AccountId)
      → codec.decode_definition definition_account.account.account_data ≡ some definition
      → authority_of definition "" ≡ ok renounced
      → (mint_with_authority codec definition_account holding_account signer amount
          ≡ panic renounced_error)
        × (rotate_authority codec definition_account signer new_admin ≡ panic renounced_error)
        × (revoke_authority codec definition_account signer ≡ panic renounced_error)
  unfolding authority_of mint_with_authority rotate_authority revoke_authority
      with_changed_authority change_authority gate transfer revoke
  closed definition_account holding_account (TokenDefinition.fungible n s m a) amount new_admin
        decoded nobody =
      (
        ground (arith, decoded, nobody),
        ground (arith, decoded, nobody),
        ground (arith, decoded, nobody),
      )
  closed definition_account holding_account (TokenDefinition.non_fungible n s m) amount new_admin
        decoded nobody =
      cc

module _ (codec : Codec) (laws : IsCodec codec)
    (definition_account authority_account : AccountWithMetadata) where
  -- With encodings that decode to what was encoded, a revocation that returns was signed by the
  -- administrator of the definition. For an account that holds the data of its first post state,
  -- minting by an administrator, rotation and revocation panic for every signer.
  pub revoke_authority-is_final :
      {post : AccountPostState} {rest : List AccountPostState}
      (later holding signer : AccountWithMetadata) (amount : ℕ) (new_admin : AccountId)
      → revoke_authority codec definition_account authority_account ≡ ok (post ∷ rest)
      → later.account.account_data ≡ post.account.account_data
      → (authority_account.is_authorized ≡ true)
        × ((before : TokenDefinition) × (codec.decode_definition
                definition_account.account.account_data
              ≡ some before)
            × (authority_of before "" ≡ ok (record { admin = some authority_account.account_id })))
        × (mint_with_authority codec later holding signer amount ≡ panic renounced_error)
        × (rotate_authority codec later signer new_admin ≡ panic renounced_error)
        × (revoke_authority codec later signer ≡ panic renounced_error)
  unfolding revoke_authority with_changed_authority
  revoke_authority-is_final {post} {rest} later holding signer amount new_admin h same =
      let (before, eb, h1) =
        >>=-eq-ok
          (expect (codec.decode_definition definition_account.account.account_data)
            "Token Definition account must be valid")
          _ h in
      let (after, ea, h2) =
        >>=-eq-ok
          (change_authority (λ authority. revoke authority authority_account) before
            "revoke_authority is only supported for fungible tokens")
          _ h1 in
      let (bytes, ed, h3) = >>=-eq-ok (data_from_definition codec after) _ h2 in
      let (revoked, signed) =
        change_authority-IsRevoked before authority_account
          "revoke_authority is only supported for fungible tokens" after ea in
      let defined = expect-eq-ok _ "Token Definition account must be valid" eb in
      let range = laws.definition_range definition_account.account.account_data before defined in
      let decoded : codec.decode_definition bytes ≡ some after =
        rw (data_from_bytes-eq _ _ ed) (laws.definition_roundtrip after (revoked.range range)) in
      let first : post ≡ post_state (record definition_account.account { account_data = bytes }) =
        cc h3 in
      let data_same : later.account.account_data ≡ bytes = cc (first, same) in
      let (m, r, v) =
        closed codec signer later holding after amount new_admin (rw data_same decoded)
          revoked.nobody in
      (signed, (before, defined, revoked.administered), m, r, v)
