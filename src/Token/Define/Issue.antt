-- ===== src/Token/Define/Issue.antt =====
-- The supply that a new definition announces is what its first holding has, and a printed copy of an
-- NFT is taken from its master.
use logos_execution_zone.Prelude.{
  ℕ, ◌-◌, ◌≤◌, ◌<◌, ◌≡◌, refl, true, Option, none, some, List, [], ◌∷◌, ok, assert, assert-eq-ok,
  expect, expect-eq-ok, >>=-eq-ok, arith, u128_max,
}
use logos_execution_zone.Core.Account.{
  AccountId, AccountWithMetadata, default_account, account_eq, account_eq_sound,
}
use logos_execution_zone.Core.Program.{AccountPostState, authorized, post_state, new_claimed}
use logos_execution_zone.Token.Core.{
  Text, Codec, IsCodec, TokenDefinition, TokenHolding, nft_master, nft_printed_copy,
  definition_id_of, supply_of, amount_of, data_from_bytes-eq, data_from_definition,
  data_from_holding,
}
use logos_execution_zone.Token.Define.{
  authority_or_renounced, print_copy, new_fungible_definition_with_authority, print_nft,
}

-- The definition and the holding that two new accounts encode.
pub record IsIssue (codec : Codec) (definition_target holding_target : AccountWithMetadata)
    (total : ℕ) (definition_post holding_post : AccountPostState) : Type 0 where
  pub definition : TokenDefinition
  pub holding : TokenHolding
  pub definition_data : List ℕ
  pub holding_data : List ℕ
  pub fresh_definition : definition_target.account ≡ default_account
  pub fresh_holding : holding_target.account ≡ default_account
  pub defined : codec.decode_definition definition_data ≡ some definition
  pub holds : codec.decode_holding holding_data ≡ some holding
  pub supply : supply_of definition ≡ total
  pub all_held : amount_of holding ≡ total
  pub same_token : definition_id_of holding ≡ definition_target.account_id
  pub definition_result :
      definition_post
      ≡ new_claimed (record default_account { account_data = definition_data }) authorized
  pub holding_result :
      holding_post ≡ new_claimed (record default_account { account_data = holding_data }) authorized

-- Printing takes one unit of a master.
print_copy-amount :
    (master : TokenHolding) (left : TokenHolding) (id : AccountId)
    → print_copy master ≡ ok (left, id)
    → (units : ℕ) × (master ≡ nft_master id units)
      × (1 < units)
      × (left ≡ nft_master id (units - 1))
unfolding print_copy
print_copy-amount (nft_master d n) left id h =
    let many : 1 < n = ground arith in
    let e : left ≡ nft_master d (n - 1) = ground arith in
    let f : id ≡ d = ground arith in (n, cc f, many, cc (e, f))
print_copy-amount (TokenHolding.fungible d n) left id h = cc
print_copy-amount (nft_printed_copy d o) left id h = cc

module _ (codec : Codec) (laws : IsCodec codec) where
  -- With encodings that decode to what was encoded, printing that returns was signed for the
  -- master account, which holds a master of more than one unit. It leaves the master of the same
  -- token with one unit less, and makes an owned printed copy of this token in an account that was
  -- default, which it claims. Nothing else of the two accounts changes.
  pub print_nft-amounts :
      (master_account printed_account : AccountWithMetadata) {posts : List AccountPostState}
      → print_nft codec master_account printed_account ≡ ok posts
      → (token : AccountId) × (units : ℕ) × (master_data : List ℕ) × (copy_data : List ℕ)
        × (master_account.is_authorized ≡ true)
        × (printed_account.account ≡ default_account)
        × (codec.decode_holding master_account.account.account_data ≡ some (nft_master token units))
        × (1 < units)
        × (codec.decode_holding master_data ≡ some (nft_master token (units - 1)))
        × (codec.decode_holding copy_data ≡ some (nft_printed_copy token true))
        × (posts
            ≡ post_state (record master_account.account { account_data = master_data })
              ∷ new_claimed (record printed_account.account { account_data = copy_data }) authorized
              ∷ [])
  unfolding print_nft
  print_nft-amounts master_account printed_account h =
      let (_, signed, h1) =
        >>=-eq-ok (assert master_account.is_authorized "Master NFT Account must be authorized") _
          h in
      let (_, fresh, h2) =
        >>=-eq-ok
          (assert (account_eq printed_account.account default_account)
            "Printed Account must be uninitialized")
          _ h1 in
      let (master, em, h3) =
        >>=-eq-ok
          (expect (codec.decode_holding master_account.account.account_data)
            "Invalid Token Holding data")
          _ h2 in
      let (printed, ep, h4) = >>=-eq-ok (print_copy master) _ h3 in
      let (dm, edm, h5) = >>=-eq-ok (data_from_holding codec printed.0) _ h4 in
      let (dc, edc, h6) =
        >>=-eq-ok (data_from_holding codec (nft_printed_copy printed.1 true)) _ h5 in
      let holds = expect-eq-ok _ "Invalid Token Holding data" em in
      let (units, whole, many, less) = print_copy-amount master printed.0 printed.1 ep in
      let master_holds : codec.decode_holding master_account.account.account_data
          ≡ some (nft_master printed.1 units) =
        cc (holds, whole) in
      let small : units ≤ u128_max =
        laws.holding_range master_account.account.account_data _ master_holds in
      (
        printed.1,
        units,
        dm,
        dc,
        assert-eq-ok master_account.is_authorized "Master NFT Account must be authorized" signed,
        account_eq_sound _ _ (
            assert-eq-ok (account_eq printed_account.account default_account)
              "Printed Account must be uninitialized" fresh),
        master_holds,
        many,
        rw (data_from_bytes-eq _ _ edm, less)
            (laws.holding_roundtrip (nft_master printed.1 (units - 1)) (omega arith)),
        rw (data_from_bytes-eq _ _ edc)
            (laws.holding_roundtrip (nft_printed_copy printed.1 true) tt),
        cc h6,
      )

  -- With encodings that decode to what was encoded, a new fungible definition with a `u128` supply
  -- that returns sets up two default accounts: the holding has the whole supply that the
  -- definition announces.
  pub new_fungible_definition_with_authority-IsIssue :
      (definition_target holding_target : AccountWithMetadata) (name : Text) (total_supply : ℕ)
      (mint_authority : Option AccountId) {posts : List AccountPostState}
      → total_supply ≤ u128_max
      → new_fungible_definition_with_authority codec definition_target holding_target name
          total_supply mint_authority
        ≡ ok posts
      → (results : AccountPostState × AccountPostState) × (posts ≡ results.0 ∷ results.1 ∷ [])
        × IsIssue codec definition_target holding_target total_supply results.0 results.1
  unfolding new_fungible_definition_with_authority
  new_fungible_definition_with_authority-IsIssue definition_target holding_target name total_supply
        mint_authority range h =
      let (_, fresh, h1) =
        >>=-eq-ok
          (assert (account_eq definition_target.account default_account)
            "Definition target account must have default values")
          _ h in
      let (_, empty, h2) =
        >>=-eq-ok
          (assert (account_eq holding_target.account default_account)
            "Holding target account must have default values")
          _ h1 in
      let (dd, edd, h3) =
        >>=-eq-ok
          (data_from_definition codec (
            TokenDefinition.fungible name total_supply none
              (authority_or_renounced mint_authority)))
          _ h2 in
      let (dh, edh, h4) =
        >>=-eq-ok
          (data_from_holding codec
            (TokenHolding.fungible definition_target.account_id total_supply))
          _ h3 in
      let is_fresh = account_eq_sound _ _ (
        assert-eq-ok (account_eq definition_target.account default_account)
          "Definition target account must have default values" fresh) in
      let is_empty = account_eq_sound _ _ (
        assert-eq-ok (account_eq holding_target.account default_account)
          "Holding target account must have default values" empty) in
      (
        (
          new_claimed (record default_account { account_data = dd }) authorized,
          new_claimed (record default_account { account_data = dh }) authorized,
        ),
        cc (h4, is_fresh, is_empty),
        record {
          definition =
              TokenDefinition.fungible name total_supply none
                (authority_or_renounced mint_authority);
          holding = TokenHolding.fungible definition_target.account_id total_supply;
          definition_data = dd;
          holding_data = dh;
          fresh_definition = is_fresh;
          fresh_holding = is_empty;
          defined = rw (data_from_bytes-eq _ _ edd) (laws.definition_roundtrip _ range);
          holds = rw (data_from_bytes-eq _ _ edh) (laws.holding_roundtrip _ range);
          supply = refl;
          all_held = refl;
          same_token = refl;
          definition_result = refl;
          holding_result = refl;
        },
      )
