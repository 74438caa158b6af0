-- ===== src/Token/Transfer/Moves.antt =====
-- A transfer moves units of one token between two accounts.
use logos_execution_zone.Prelude.{
  ℕ, ◌+◌, ◌≤◌, ◌≡◌, refl, ◌⊎◌, inl, inr, true, false, some, List, [], ◌∷◌, ok, assert, assert-eq-ok,
  Bool-cases, ==_iff, expect, expect-eq-ok, >>=-eq-ok, ◌==◌, arith, u128_max, ◌-◌,
}
use logos_execution_zone.Core.Account.{
  Account, AccountWithMetadata, default_account, account_eq, account_eq_sound,
}
use logos_execution_zone.Core.Program.{
  AccountPostState, authorized, post_state, new_claimed_if_default,
}
use logos_execution_zone.Token.Core.{
  Codec, IsCodec, TokenHolding, nft_master, nft_printed_copy, zeroized_clone_from, definition_id_of,
  HoldingInRange, amount_of, data_from_bytes-eq, data_from_holding,
}
use logos_execution_zone.Token.Transfer.{move_holdings, recipient_holding_of, transfer}

-- What a move does to two holdings.
pub record IsMove (sender recipient : TokenHolding) (amount : ℕ) (sender' recipient' : TokenHolding)
    : Type 0 where
  pub sent : amount_of sender' + amount ≡ amount_of sender
  pub received : amount_of recipient' ≡ amount_of recipient + amount
  pub sender_definition : definition_id_of sender' ≡ definition_id_of sender
  pub recipient_definition : definition_id_of recipient' ≡ definition_id_of recipient
  pub sender_range : HoldingInRange sender → HoldingInRange recipient → HoldingInRange sender'
  pub recipient_range : HoldingInRange sender → HoldingInRange recipient → HoldingInRange recipient'

move_holdings-IsMove :
    (sender recipient : TokenHolding) (amount : ℕ) (sender' recipient' : TokenHolding)
    → move_holdings sender recipient amount ≡ ok (sender', recipient')
    → IsMove sender recipient amount sender' recipient'
unfolding move_holdings
move_holdings-IsMove (TokenHolding.fungible d s) (TokenHolding.fungible e r) amount sender'
      recipient' h =
    let covered : amount ≤ s = ground arith in
    let room : r + amount ≤ u128_max = ground arith in
    let left : sender' ≡ TokenHolding.fungible d (s - amount) = ground arith in
    let right : recipient' ≡ TokenHolding.fungible e (r + amount) = ground arith in
    rw (left, right)
      record {
        sent = omega arith;
        received = refl;
        sender_definition = refl;
        recipient_definition = refl;
        sender_range = λ p q. omega arith;
        recipient_range = λ p q. room;
      }
move_holdings-IsMove (nft_master d s) (nft_master e r) amount sender' recipient' h =
    let empty : r ≡ 0 = ground arith in
    let whole : s ≡ amount = ground arith in
    let left : sender' ≡ nft_master d r = ground arith in
    let right : recipient' ≡ nft_master e s = ground arith in
    rw (left, right)
      record {
        sent = omega arith;
        received = omega arith;
        sender_definition = refl;
        recipient_definition = refl;
        sender_range = λ p q. q;
        recipient_range = λ p q. p;
      }
move_holdings-IsMove (nft_printed_copy d true) (nft_printed_copy e false) amount sender' recipient'
      h =
    let whole : amount ≡ 1 = ground arith in
    let left : sender' ≡ nft_printed_copy d false = ground arith in
    let right : recipient' ≡ nft_printed_copy e true = ground arith in
    rw (left, right)
      record {
        sent = omega arith;
        received = omega arith;
        sender_definition = refl;
        recipient_definition = refl;
        sender_range = λ p q. tt;
        recipient_range = λ p q. tt;
      }
move_holdings-IsMove (nft_printed_copy d false) (nft_printed_copy e r) amount sender' recipient' h =
    absurd (ground arith)
move_holdings-IsMove (nft_printed_copy d true) (nft_printed_copy e true) amount sender' recipient'
      h =
    absurd (ground arith)
move_holdings-IsMove _ _ amount sender' recipient' h = cc

-- The holding that the recipient's account counts as: an account with default values is an empty
-- holding of the sender's token.
abbrev pub RecipientHolds : Codec → Account → TokenHolding → TokenHolding → Type 0
RecipientHolds codec account sender holding =
    ((account ≡ default_account) × (holding ≡ zeroized_clone_from sender))
    ⊎ (codec.decode_holding account.account_data ≡ some holding)

-- The holdings before and after a transfer that has returned `posts`.
pub record IsTransfer (codec : Codec) (sender recipient : AccountWithMetadata) (amount : ℕ)
    (posts : List AccountPostState) : Type 0 where
  pub sender_before : TokenHolding
  pub recipient_before : TokenHolding
  pub sender_data : List ℕ
  pub recipient_data : List ℕ
  pub sender_after : TokenHolding
  pub recipient_after : TokenHolding
  pub signed : sender.is_authorized ≡ true
  pub sender_holds : codec.decode_holding sender.account.account_data ≡ some sender_before
  pub recipient_holds : RecipientHolds codec recipient.account sender_before recipient_before
  pub same_token : definition_id_of sender_before ≡ definition_id_of recipient_before
  pub moved : IsMove sender_before recipient_before amount sender_after recipient_after
  pub results :
      posts
      ≡ post_state (record sender.account { account_data = sender_data })
        ∷ new_claimed_if_default
            (record recipient.account { account_data = recipient_data })
            authorized
        ∷ []
  pub sender_holds_after : codec.decode_holding sender_data ≡ some sender_after
  pub recipient_holds_after : codec.decode_holding recipient_data ≡ some recipient_after

zeroized_range : (h : TokenHolding) → HoldingInRange (zeroized_clone_from h)
zeroized_range (TokenHolding.fungible d b) = omega arith
zeroized_range (nft_master d b) = omega arith
zeroized_range (nft_printed_copy d o) = tt

module _ (codec : Codec) (laws : IsCodec codec) where
  recipient_holding_of-holds :
      (sender_holding : TokenHolding) (account : Account) {holding : TokenHolding}
      → recipient_holding_of codec sender_holding account ≡ ok holding
      → RecipientHolds codec account sender_holding holding
  unfolding recipient_holding_of
  recipient_holding_of-holds sender_holding account h =
      elim (Bool-cases (account_eq account default_account)) [
        | inl e ↦ inl (account_eq_sound account default_account e, ground (arith, e))
        | inr e ↦ inr (ground (arith, e))
      ]

  recipient_range :
      (sender holding : TokenHolding) (account : Account)
      → HoldingInRange sender
      → RecipientHolds codec account sender holding
      → HoldingInRange holding
  recipient_range sender holding account p (inl fresh) = rw (fresh.1) (zeroized_range sender)
  recipient_range sender holding account p (inr e) =
      laws.holding_range account.account_data holding e

  -- With encodings that decode to what was encoded, a transfer that returns was signed by the
  -- sender and moves `amount` units of one token from the sender's holding to the recipient's,
  -- which is empty before if its account is default. Of the accounts it changes nothing but the
  -- encoded holdings.
  pub transfer-IsTransfer :
      (sender recipient : AccountWithMetadata) (amount : ℕ) {posts : List AccountPostState}
      → transfer codec sender recipient amount ≡ ok posts
      → IsTransfer codec sender recipient amount posts
  unfolding transfer
  transfer-IsTransfer sender recipient amount {posts} h =
      let (_, signed, h1) =
        >>=-eq-ok (assert sender.is_authorized "Sender authorization is missing") _ h in
      let (s, es, h2) =
        >>=-eq-ok (expect (codec.decode_holding sender.account.account_data) "Invalid sender data")
          _ h1 in
      let (r, er, h3) = >>=-eq-ok (recipient_holding_of codec s recipient.account) _ h2 in
      let (_, same, h4) =
        >>=-eq-ok
          (assert (definition_id_of s == definition_id_of r)
            "Sender and recipient definition id mismatch")
          _ h3 in
      let (moved, em, h5) = >>=-eq-ok (move_holdings s r amount) _ h4 in
      let (ds, eds, h6) = >>=-eq-ok (data_from_holding codec moved.0) _ h5 in
      let (dr, edr, h7) = >>=-eq-ok (data_from_holding codec moved.1) _ h6 in
      let sender_holds = expect-eq-ok _ "Invalid sender data" es in
      let recipient_holds = recipient_holding_of-holds s recipient.account er in
      let move = move_holdings-IsMove s r amount moved.0 moved.1 em in
      let range = laws.holding_range sender.account.account_data s sender_holds in
      let other = recipient_range s r recipient.account range recipient_holds in
      record {
        sender_before = s;
        recipient_before = r;
        sender_data = ds;
        recipient_data = dr;
        sender_after = moved.0;
        recipient_after = moved.1;
        signed = assert-eq-ok sender.is_authorized "Sender authorization is missing" signed;
        sender_holds = sender_holds;
        recipient_holds = recipient_holds;
        same_token = (==_iff _ _).0 (
            assert-eq-ok (definition_id_of s == definition_id_of r)
              "Sender and recipient definition id mismatch" same);
        moved = move;
        results = cc h7;
        sender_holds_after =
            rw (data_from_bytes-eq _ _ eds)
              (laws.holding_roundtrip moved.0 (move.sender_range range other));
        recipient_holds_after =
            rw (data_from_bytes-eq _ _ edr)
              (laws.holding_roundtrip moved.1 (move.recipient_range range other));
      }
