-- ===== src/Token/Core.antt =====
-- programs/token/core/src/lib.rs: definitions and holdings of tokens. The derived `borsh` encodings
-- are a parameter.
use logos_execution_zone.Prelude.{
  ℕ, String, ◌*◌, Bool, true, false, Option, some, List, Guest, ok, panic, length, leb,
  if◌then◌else◌, ◌≤◌, ◌≡◌, u128_max, arith,
}
use logos_execution_zone.Core.Account.{AccountId}
use logos_execution_zone.Approval.{Authority}

-- UTF-8 text, as its bytes.
abbrev pub Text : Type 0
Text = List ℕ

pub data NewTokenDefinition : Type 0 where
  fungible : Text → ℕ → NewTokenDefinition
  non_fungible : Text → ℕ → NewTokenDefinition

-- `Fungible { name, total_supply, metadata_id, authority }` and
-- `NonFungible { name, printable_supply, metadata_id }`
pub data TokenDefinition : Type 0 where
  fungible : Text → ℕ → Option AccountId → Authority → TokenDefinition
  non_fungible : Text → ℕ → AccountId → TokenDefinition

-- `Fungible { definition_id, balance }`, `NftMaster { definition_id, print_balance }` and
-- `NftPrintedCopy { definition_id, owned }`
pub data TokenHolding : Type 0 where
  fungible : AccountId → ℕ → TokenHolding
  nft_master : AccountId → ℕ → TokenHolding
  nft_printed_copy : AccountId → Bool → TokenHolding

pub data MetadataStandard : Type 0 where
  simple expanded : MetadataStandard

pub record NewTokenMetadata : Type 0 where
  pub standard : MetadataStandard
  pub uri : Text
  pub creators : Text

pub record TokenMetadata : Type 0 where
  pub definition_id : AccountId
  pub standard : MetadataStandard
  pub uri : Text
  pub creators : Text
  pub primary_sale_date : ℕ

pub data Instruction : Type 0 where
  transfer : ℕ → Instruction
  new_fungible_definition : Text → ℕ → Instruction
  new_fungible_definition_with_authority : Text → ℕ → Option AccountId → Instruction
  new_definition_with_metadata : NewTokenDefinition → NewTokenMetadata → Instruction
  initialize_account : Instruction
  burn : ℕ → Instruction
  mint : ℕ → Instruction
  mint_with_authority : ℕ → Instruction
  print_nft : Instruction
  rotate_authority : AccountId → Instruction
  revoke_authority : Instruction

abbrev pub zeroized_clone_from : TokenHolding → TokenHolding
zeroized_clone_from (TokenHolding.fungible definition_id balance) =
    TokenHolding.fungible definition_id 0
zeroized_clone_from (nft_master definition_id print_balance) = nft_master definition_id 0
zeroized_clone_from (nft_printed_copy definition_id owned) = nft_printed_copy definition_id false

abbrev pub zeroized_from_definition : AccountId → TokenDefinition → TokenHolding
zeroized_from_definition definition_id (TokenDefinition.fungible name supply metadata authority) =
    TokenHolding.fungible definition_id 0
zeroized_from_definition definition_id (TokenDefinition.non_fungible name supply metadata) =
    nft_printed_copy definition_id false

abbrev pub definition_id_of : TokenHolding → AccountId
definition_id_of (TokenHolding.fungible definition_id balance) = definition_id
definition_id_of (nft_master definition_id print_balance) = definition_id
definition_id_of (nft_printed_copy definition_id owned) = definition_id

-- `borsh` on the three types of account data; `None` is a decoding error.
pub record Codec : Type 0 where
  pub encode_definition : TokenDefinition → List ℕ
  pub decode_definition : List ℕ → Option TokenDefinition
  pub encode_holding : TokenHolding → List ℕ
  pub decode_holding : List ℕ → Option TokenHolding
  pub encode_metadata : TokenMetadata → List ℕ

-- The numbers of a value are `u128`.
abbrev pub HoldingInRange : TokenHolding → Type 0
HoldingInRange (TokenHolding.fungible definition_id balance) = balance ≤ u128_max
HoldingInRange (nft_master definition_id print_balance) = print_balance ≤ u128_max
HoldingInRange (nft_printed_copy definition_id owned) = Unit

abbrev pub DefinitionInRange : TokenDefinition → Type 0
DefinitionInRange (TokenDefinition.fungible name supply metadata authority) = supply ≤ u128_max
DefinitionInRange (TokenDefinition.non_fungible name supply metadata) = supply ≤ u128_max

-- Decoding an encoding gives the value back, and what is decoded is in range.
pub record IsCodec (codec : Codec) : Type 0 where
  pub definition_roundtrip :
      (d : TokenDefinition)
      → DefinitionInRange d
      → codec.decode_definition (codec.encode_definition d) ≡ some d
  pub definition_range :
      (bytes : List ℕ) (d : TokenDefinition)
      → codec.decode_definition bytes ≡ some d
      → DefinitionInRange d
  pub holding_roundtrip :
      (h : TokenHolding) → HoldingInRange h → codec.decode_holding (codec.encode_holding h) ≡ some h
  pub holding_range :
      (bytes : List ℕ) (h : TokenHolding) → codec.decode_holding bytes ≡ some h → HoldingInRange h

-- nssa/core/src/account/data.rs: `DATA_MAX_LENGTH`, 100 KiB
abbrev pub data_max_length : ℕ
data_max_length = 100 * 1024

-- `Data::try_from(bytes).expect(message)`, as each `From<&_> for Data` ends.
unfoldable pub data_from_bytes : List ℕ → String → Guest (List ℕ)
data_from_bytes bytes message =
    if leb (length bytes) data_max_length then ok bytes else panic message

pub data_from_bytes-eq :
    (bytes : List ℕ) (message : String) {d : List ℕ}
    → data_from_bytes bytes message ≡ ok d
    → d ≡ bytes
unfolding data_from_bytes
data_from_bytes-eq bytes message h = ground arith

module _ (codec : Codec) where
  abbrev pub data_from_definition : TokenDefinition → Guest (List ℕ)
  data_from_definition d =
      data_from_bytes (codec.encode_definition d)
        "Token definition encoded data should fit into Data"

  abbrev pub data_from_holding : TokenHolding → Guest (List ℕ)
  data_from_holding h =
      data_from_bytes (codec.encode_holding h) "Token holding encoded data should fit into Data"

  abbrev pub data_from_metadata : TokenMetadata → Guest (List ℕ)
  data_from_metadata m =
      data_from_bytes (codec.encode_metadata m) "Token metadata encoded data should fit into Data"

-- The units that a holding stands for: its balance, the copies that a master can still become, or
-- the one copy that is owned.
abbrev pub amount_of : TokenHolding → ℕ
amount_of (TokenHolding.fungible definition_id balance) = balance
amount_of (nft_master definition_id print_balance) = print_balance
amount_of (nft_printed_copy definition_id true) = 1
amount_of (nft_printed_copy definition_id false) = 0

abbrev pub supply_of : TokenDefinition → ℕ
supply_of (TokenDefinition.fungible name supply metadata authority) = supply
supply_of (TokenDefinition.non_fungible name supply metadata) = supply
