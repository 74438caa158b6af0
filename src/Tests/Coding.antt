-- ===== src/Tests/Coding.antt =====
-- Encodings of definitions, holdings and clock data as lists of numbers.
use logos_execution_zone.Prelude.{
  ℕ, zero, suc, ◌≡◌, refl, ◌≤◌, true, false, Option, none, some, List, [], ◌∷◌, leb, if◌then◌else◌,
  u128_max, arith,
}
use logos_execution_zone.Core.Account.{AccountId}
use logos_execution_zone.Token.Core.{
  Codec, IsCodec, TokenDefinition, TokenHolding, nft_master, nft_printed_copy, DefinitionInRange,
  HoldingInRange,
}
use logos_execution_zone.Programs.Clock.{ClockAccountData, ClockCodec, IsClockCodec}

-- `Option` as a number.
abbrev encode_option : Option AccountId → ℕ
encode_option none = 0
encode_option (some id) = suc id

abbrev decode_option : ℕ → Option AccountId
decode_option zero = none
decode_option (suc id) = some id

option_roundtrip : (o : Option AccountId) → decode_option (encode_option o) ≡ o
option_roundtrip none = refl
option_roundtrip (some id) = refl

abbrev in_range : {A : Type 0} → ℕ → A → Option A
in_range n a = if leb n u128_max then some a else none

abbrev encode_definition : TokenDefinition → List ℕ
encode_definition (TokenDefinition.fungible name supply metadata authority) =
    0 ∷ supply ∷ encode_option metadata ∷ encode_option authority.admin ∷ name
encode_definition (TokenDefinition.non_fungible name supply metadata) = 1 ∷ supply ∷ metadata ∷ name

abbrev decode_definition : List ℕ → Option TokenDefinition
decode_definition (zero ∷ supply ∷ metadata ∷ authority ∷ name) = in_range supply (
    TokenDefinition.fungible name supply (decode_option metadata)
      (record { admin = decode_option authority }))
decode_definition (suc zero ∷ supply ∷ metadata ∷ name) =
    in_range supply (TokenDefinition.non_fungible name supply metadata)
decode_definition _ = none

abbrev encode_holding : TokenHolding → List ℕ
encode_holding (TokenHolding.fungible d b) = 0 ∷ d ∷ b ∷ []
encode_holding (nft_master d b) = 1 ∷ d ∷ b ∷ []
encode_holding (nft_printed_copy d false) = 2 ∷ d ∷ 0 ∷ []
encode_holding (nft_printed_copy d true) = 2 ∷ d ∷ 1 ∷ []

abbrev decode_holding : List ℕ → Option TokenHolding
decode_holding (zero ∷ d ∷ b ∷ []) = in_range b (TokenHolding.fungible d b)
decode_holding (suc zero ∷ d ∷ b ∷ []) = in_range b (nft_master d b)
decode_holding (suc (suc zero) ∷ d ∷ zero ∷ []) = some (nft_printed_copy d false)
decode_holding (suc (suc zero) ∷ d ∷ suc zero ∷ []) = some (nft_printed_copy d true)
decode_holding _ = none

abbrev pub codec : Codec
codec = record {
  encode_definition = encode_definition;
  decode_definition = decode_definition;
  encode_holding = encode_holding;
  decode_holding = decode_holding;
  encode_metadata = λ m. m.uri;
}

definition_roundtrip :
    (d : TokenDefinition) → DefinitionInRange d → decode_definition (encode_definition d) ≡ some d
definition_roundtrip (TokenDefinition.fungible name supply metadata authority) p =
    ground (arith, option_roundtrip metadata, option_roundtrip authority.admin)
definition_roundtrip (TokenDefinition.non_fungible name supply metadata) p = ground arith

definition_range :
    (bytes : List ℕ) (d : TokenDefinition) → decode_definition bytes ≡ some d → DefinitionInRange d
definition_range (zero ∷ supply ∷ metadata ∷ authority ∷ name) d h =
    let small : supply ≤ u128_max = ground arith in
    let e : d
        ≡ TokenDefinition.fungible name supply (decode_option metadata)
            (record { admin = decode_option authority }) =
      ground arith in
    rw e small
definition_range (suc zero ∷ supply ∷ metadata ∷ name) d h =
    let small : supply ≤ u128_max = ground arith in
    let e : d ≡ TokenDefinition.non_fungible name supply metadata = ground arith in rw e small
definition_range _ d h = cc

holding_roundtrip :
    (t : TokenHolding) → HoldingInRange t → decode_holding (encode_holding t) ≡ some t
holding_roundtrip (TokenHolding.fungible d b) p = ground arith
holding_roundtrip (nft_master d b) p = ground arith
holding_roundtrip (nft_printed_copy d false) p = refl
holding_roundtrip (nft_printed_copy d true) p = refl

holding_range :
    (bytes : List ℕ) (t : TokenHolding) → decode_holding bytes ≡ some t → HoldingInRange t
holding_range (zero ∷ d ∷ b ∷ []) t h =
    let small : b ≤ u128_max = ground arith in
    let e : t ≡ TokenHolding.fungible d b = ground arith in rw e small
holding_range (suc zero ∷ d ∷ b ∷ []) t h =
    let small : b ≤ u128_max = ground arith in
    let e : t ≡ nft_master d b = ground arith in rw e small
holding_range (suc (suc zero) ∷ d ∷ zero ∷ []) t h =
    let e : t ≡ nft_printed_copy d false = cc in rw e tt
holding_range (suc (suc zero) ∷ d ∷ suc zero ∷ []) t h =
    let e : t ≡ nft_printed_copy d true = cc in rw e tt
holding_range _ t h = cc

pub codec-IsCodec : IsCodec codec
codec-IsCodec = record {
  definition_roundtrip = definition_roundtrip;
  definition_range = definition_range;
  holding_roundtrip = holding_roundtrip;
  holding_range = holding_range;
}

abbrev decode_clock : List ℕ → Option ClockAccountData
decode_clock (block_id ∷ timestamp ∷ []) =
    some (record { block_id = block_id; timestamp = timestamp })
decode_clock _ = none

abbrev pub clock_codec : ClockCodec
clock_codec = record {
  to_bytes = λ clock. clock.block_id ∷ clock.timestamp ∷ [];
  from_bytes = decode_clock;
}

pub clock_codec-IsClockCodec : IsClockCodec clock_codec
clock_codec-IsClockCodec clock p q = refl
