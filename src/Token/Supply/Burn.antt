-- ===== src/Token/Supply/Burn.antt =====
-- Burning, by the owner of a holding.
use logos_execution_zone.Prelude.{
  ℕ, ◌+◌, ◌≡◌, true, some, List, [], ◌∷◌, ok, assert, assert-eq-ok, expect, expect-eq-ok, >>=-eq-ok,
  ==_iff, ◌==◌,
}
use logos_execution_zone.Core.Account.{AccountWithMetadata}
use logos_execution_zone.Core.Program.{AccountPostState, post_state}
use logos_execution_zone.Token.Core.{
  Codec, IsCodec, TokenDefinition, TokenHolding, definition_id_of, supply_of, data_from_bytes-eq,
  data_from_definition, data_from_holding,
}
use logos_execution_zone.Token.Supply.{burn_units, burn}
use logos_execution_zone.Token.Supply.Change.{IsUnitChange, burn_units-change}

-- The definition and the holding before and after burning, as their accounts encode them.
pub record IsBurn (codec : Codec) (definition_account holding_account : AccountWithMetadata)
    (amount : ℕ) (posts : List AccountPostState) : Type 0 where
  pub before : TokenDefinition
  pub held : TokenHolding
  pub after : TokenDefinition
  pub left : TokenHolding
  pub definition_data : List ℕ
  pub holding_data : List ℕ
  pub signed : holding_account.is_authorized ≡ true
  pub defined : codec.decode_definition definition_account.account.account_data ≡ some before
  pub holds : codec.decode_holding holding_account.account.account_data ≡ some held
  pub same_token : definition_account.account_id ≡ definition_id_of held
  pub change : IsUnitChange before held after left
  pub destroyed : supply_of after + amount ≡ supply_of before
  pub defined_after : codec.decode_definition definition_data ≡ some after
  pub holds_after : codec.decode_holding holding_data ≡ some left
  pub results :
      posts
      ≡ post_state (record definition_account.account { account_data = definition_data })
        ∷ post_state (record holding_account.account { account_data = holding_data })
        ∷ []

module _ (codec : Codec) (laws : IsCodec codec) where
  -- With encodings that decode to what was encoded, burning that returns was signed by the holder.
  -- It destroys `amount` units: the supply and the holding, which is of this definition, both
  -- shrink by it, the holding stays of its kind, and nothing else of the two accounts changes.
  pub burn-IsBurn :
      (definition_account holding_account : AccountWithMetadata) (amount : ℕ)
      {posts : List AccountPostState}
      → burn codec definition_account holding_account amount ≡ ok posts
      → IsBurn codec definition_account holding_account amount posts
  unfolding burn
  burn-IsBurn definition_account holding_account amount h =
      let (_, signed, h1) =
        >>=-eq-ok (assert holding_account.is_authorized "Authorization is missing") _ h in
      let (d, ed, h2) =
        >>=-eq-ok
          (expect (codec.decode_definition definition_account.account.account_data)
            "Token Definition account must be valid")
          _ h1 in
      let (t, et, h3) =
        >>=-eq-ok
          (expect (codec.decode_holding holding_account.account.account_data)
            "Token Holding account must be valid")
          _ h2 in
      let (_, same, h4) =
        >>=-eq-ok
          (assert (definition_account.account_id == definition_id_of t)
            "Mismatch Token Definition and Token Holding")
          _ h3 in
      let (after, burnt, h5) = >>=-eq-ok (burn_units d t amount) _ h4 in
      let (dd, edd, h6) = >>=-eq-ok (data_from_definition codec after.0) _ h5 in
      let (dh, edh, h7) = >>=-eq-ok (data_from_holding codec after.1) _ h6 in
      let (change, destroyed) = burn_units-change d t amount after.0 after.1 burnt in
      let defined = expect-eq-ok _ "Token Definition account must be valid" ed in
      let holds = expect-eq-ok _ "Token Holding account must be valid" et in
      let range = laws.definition_range definition_account.account.account_data d defined in
      let held = laws.holding_range holding_account.account.account_data t holds in
      record {
        before = d;
        held = t;
        after = after.0;
        left = after.1;
        definition_data = dd;
        holding_data = dh;
        signed = assert-eq-ok holding_account.is_authorized "Authorization is missing" signed;
        defined = defined;
        holds = holds;
        same_token = (==_iff _ _).0 (
            assert-eq-ok (definition_account.account_id == definition_id_of t)
              "Mismatch Token Definition and Token Holding" same);
        change = change;
        destroyed = destroyed;
        defined_after =
            rw (data_from_bytes-eq _ _ edd)
              (laws.definition_roundtrip after.0 (change.supply_range range));
        holds_after =
            rw (data_from_bytes-eq _ _ edh)
              (laws.holding_roundtrip after.1 (change.holding_range held));
        results = cc h7;
      }
