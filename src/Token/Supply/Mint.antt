-- ===== src/Token/Supply/Mint.antt =====
-- Minting, by the signer of the definition and by its administrator.
use logos_execution_zone.Prelude.{
  ℕ, ◌+◌, ◌≡◌, true, some, List, [], ◌∷◌, ok, assert, assert-eq-ok, expect, expect-eq-ok, >>=-eq-ok,
  ==_iff, ◌==◌,
}
use logos_execution_zone.Core.Account.{AccountWithMetadata}
use logos_execution_zone.Core.Program.{
  AccountPostState, authorized, post_state, new_claimed_if_default,
}
use logos_execution_zone.Approval.{Authority, gate}
use logos_execution_zone.Approval.Gate.{gate_exact}
use logos_execution_zone.Token.Core.{
  Codec, IsCodec, TokenDefinition, TokenHolding, definition_id_of, supply_of, data_from_bytes-eq,
  data_from_definition, data_from_holding,
}
use logos_execution_zone.Token.Supply.{
  holding_or_fresh, mint_units, mint_units_with_authority, minted_post_states, authority_of, mint,
  mint_with_authority,
}
use logos_execution_zone.Token.Supply.Change.{
  HoldsFor, IsUnitChange, mint_units-change, mint_units_with_authority-mint_units,
  holding_or_fresh-HoldsFor, HoldsFor-range,
}

-- The definition and the holding before and after minting, as their accounts encode them.
pub record IsMint (codec : Codec) (definition_account holding_account : AccountWithMetadata)
    (amount : ℕ) (before : TokenDefinition) (definition_post holding_post : AccountPostState)
    : Type 0 where
  pub held : TokenHolding
  pub after : TokenDefinition
  pub left : TokenHolding
  pub definition_data : List ℕ
  pub holding_data : List ℕ
  pub defined : codec.decode_definition definition_account.account.account_data ≡ some before
  pub holds : HoldsFor codec definition_account.account_id before holding_account.account held
  pub same_token : definition_account.account_id ≡ definition_id_of held
  pub change : IsUnitChange before held after left
  pub issued : supply_of after ≡ supply_of before + amount
  pub defined_after : codec.decode_definition definition_data ≡ some after
  pub holds_after : codec.decode_holding holding_data ≡ some left
  pub definition_result :
      definition_post
      ≡ post_state (record definition_account.account { account_data = definition_data })
  pub holding_result :
      holding_post
      ≡ new_claimed_if_default
          (record holding_account.account { account_data = holding_data })
          authorized

module _ (codec : Codec) (laws : IsCodec codec) where
  -- The last steps of both ways to mint.
  minted-IsMint :
      (definition_account holding_account : AccountWithMetadata) (amount : ℕ)
      (definition : TokenDefinition) (holding : TokenHolding)
      (after : TokenDefinition × TokenHolding) (posts : AccountPostState × AccountPostState)
      → codec.decode_definition definition_account.account.account_data ≡ some definition
      → HoldsFor codec definition_account.account_id definition holding_account.account holding
      → definition_account.account_id ≡ definition_id_of holding
      → mint_units definition holding amount ≡ ok after
      → minted_post_states codec definition_account.account holding_account.account after ≡ ok posts
      → IsMint codec definition_account holding_account amount definition posts.0 posts.1
  unfolding minted_post_states
  minted-IsMint definition_account holding_account amount definition holding after posts defined
        holds same minted h =
      let (dd, ed, h1) = >>=-eq-ok (data_from_definition codec after.0) _ h in
      let (dh, eh, h2) = >>=-eq-ok (data_from_holding codec after.1) _ h1 in
      let (change, issued) = mint_units-change definition holding amount after.0 after.1 minted in
      let range =
        laws.definition_range definition_account.account.account_data definition defined in
      let held =
        HoldsFor-range codec laws definition_account.account_id definition holding_account.account
          holding holds in
      record {
        held = holding;
        after = after.0;
        left = after.1;
        definition_data = dd;
        holding_data = dh;
        defined = defined;
        holds = holds;
        same_token = same;
        change = change;
        issued = issued;
        defined_after =
            rw (data_from_bytes-eq _ _ ed)
              (laws.definition_roundtrip after.0 (change.supply_range range));
        holds_after =
            rw (data_from_bytes-eq _ _ eh)
              (laws.holding_roundtrip after.1 (change.holding_range held));
        definition_result = cc h2;
        holding_result = cc h2;
      }

  -- With encodings that decode to what was encoded, minting that returns was signed for the
  -- definition account. It issues `amount` units: the supply and the holding, which is of this
  -- definition and empty if its account was default, both grow by it. The holding stays of its
  -- kind, an account of it without an owner is claimed, and nothing else of the two accounts changes.
  pub mint-IsMint :
      (definition_account holding_account : AccountWithMetadata) (amount : ℕ)
      {posts : List AccountPostState}
      → mint codec definition_account holding_account amount ≡ ok posts
      → (definition_account.is_authorized ≡ true)
        × ((before : TokenDefinition) × (results : AccountPostState × AccountPostState) × (posts
              ≡ results.0 ∷ results.1 ∷ [])
            × IsMint codec definition_account holding_account amount before results.0 results.1)
  unfolding mint
  mint-IsMint definition_account holding_account amount h =
      let (_, signed, h1) =
        >>=-eq-ok (assert definition_account.is_authorized "Definition authorization is missing") _
          h in
      let (d, ed, h2) =
        >>=-eq-ok
          (expect (codec.decode_definition definition_account.account.account_data)
            "Token Definition account must be valid")
          _ h1 in
      let (t, et, h3) =
        >>=-eq-ok (holding_or_fresh codec definition_account.account_id d holding_account.account) _
          h2 in
      let (_, same, h4) =
        >>=-eq-ok
          (assert (definition_account.account_id == definition_id_of t)
            "Mismatch Token Definition and Token Holding")
          _ h3 in
      let (after, minted, h5) = >>=-eq-ok (mint_units d t amount) _ h4 in
      let (posts, ep, h6) =
        >>=-eq-ok
          (minted_post_states codec definition_account.account holding_account.account after) _
          h5 in
      (
        assert-eq-ok definition_account.is_authorized "Definition authorization is missing" signed,
        (
          d,
          posts,
          cc h6,
          minted-IsMint definition_account holding_account amount d t after posts
              (expect-eq-ok _ "Token Definition account must be valid" ed)
              (holding_or_fresh-HoldsFor codec laws definition_account.account_id d
                holding_account.account et)
              ((==_iff _ _).0 (
                assert-eq-ok (definition_account.account_id == definition_id_of t)
                  "Mismatch Token Definition and Token Holding" same))
              minted ep,
        ),
      )

  -- With encodings that decode to what was encoded, minting by the administrator that returns was
  -- signed by the active administrator of the definition, and issues `amount` units as `mint`
  -- does.
  pub mint_with_authority-IsMint :
      (definition_account holding_account authority_account : AccountWithMetadata) (amount : ℕ)
      {posts : List AccountPostState}
      → mint_with_authority codec definition_account holding_account authority_account amount
        ≡ ok posts
      → (before : TokenDefinition) × (results : AccountPostState × AccountPostState)
        × (authority : Authority) × (posts
            ≡ results.0
              ∷ results.1
              ∷ new_claimed_if_default authority_account.account authorized
              ∷ [])
        × IsMint codec definition_account holding_account amount before results.0 results.1
        × (authority_of before "mint_with_authority is only supported for fungible tokens"
            ≡ ok authority)
        × (authority.admin ≡ some authority_account.account_id)
        × (authority_account.is_authorized ≡ true)
  unfolding mint_with_authority
  mint_with_authority-IsMint definition_account holding_account authority_account amount h =
      let (d, ed, h1) =
        >>=-eq-ok
          (expect (codec.decode_definition definition_account.account.account_data)
            "Token Definition account must be valid")
          _ h in
      let (authority, ea, h2) =
        >>=-eq-ok (authority_of d "mint_with_authority is only supported for fungible tokens") _
          h1 in
      let (_, opened, h3) = >>=-eq-ok (gate authority authority_account) _ h2 in
      let (t, et, h4) =
        >>=-eq-ok (holding_or_fresh codec definition_account.account_id d holding_account.account) _
          h3 in
      let (_, same, h5) =
        >>=-eq-ok
          (assert (definition_account.account_id == definition_id_of t)
            "Mismatch Token Definition and Token Holding")
          _ h4 in
      let (after, minted, h6) = >>=-eq-ok (mint_units_with_authority d t amount) _ h5 in
      let (posts, ep, h7) =
        >>=-eq-ok
          (minted_post_states codec definition_account.account holding_account.account after) _
          h6 in
      let signed = (gate_exact authority authority_account).0 opened in
      (
        d,
        posts,
        authority,
        cc h7,
        minted-IsMint definition_account holding_account amount d t after posts
            (expect-eq-ok _ "Token Definition account must be valid" ed)
            (holding_or_fresh-HoldsFor codec laws definition_account.account_id d
              holding_account.account et)
            ((==_iff _ _).0 (
              assert-eq-ok (definition_account.account_id == definition_id_of t)
                "Mismatch Token Definition and Token Holding" same))
            (mint_units_with_authority-mint_units d t amount minted) ep,
        ea,
        signed.0,
        signed.1,
      )
