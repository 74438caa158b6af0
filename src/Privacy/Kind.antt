-- ===== src/Privacy/Kind.antt =====
-- nssa/core/src/program.rs: `PrivateAccountKind` with its header of 81 bytes, and the identifiers of
-- private program-derived accounts. The derived `borsh` encoding is the one that its comment documents.
use logos_execution_zone.Prelude.{
  ℕ, zero, suc, ◌^◌, ◌<◌, ◌≡◌, ap, ◌∙◌, and_then, and_then-some, Option, none, some, List, [], ◌∷◌,
  ◌++◌, replicate, codes, le_bytes, number_of_bytes, number_of_bytes-le_bytes, read_exact,
  read_exact-le_bytes,
}
use logos_execution_zone.Core.Account.{AccountId, ProgramId}
use logos_execution_zone.Core.Program.{PdaSeed}
use logos_execution_zone.Host.{Host}
use logos_execution_zone.Privacy.Keys.{NullifierPublicKey, Identifier, for_regular_private_account}

-- `Pda { program_id, seed, identifier }`
pub data PrivateAccountKind : Type 0 where
  regular : Identifier → PrivateAccountKind
  pda : ProgramId → PdaSeed → Identifier → PrivateAccountKind

abbrev pub header_len : ℕ
header_len = 81

abbrev pub identifier_of : PrivateAccountKind → Identifier
identifier_of (regular identifier) = identifier
identifier_of (pda program_id seed identifier) = identifier

-- Both variants are padded with zeros to the length of the longer.
unfoldable pub to_header_bytes : PrivateAccountKind → List ℕ
to_header_bytes (regular identifier) = 0 ∷ (le_bytes 16 identifier ++ replicate 64 0)
to_header_bytes (pda program_id seed identifier) =
    1 ∷ (le_bytes 32 program_id ++ (le_bytes 32 seed ++ (le_bytes 16 identifier ++ replicate 0 0)))

-- A number of `w` bytes, and the bytes after it.
unfoldable pub read_number : ℕ → List ℕ → Option (ℕ × List ℕ)
unfolding and_then
read_number w bytes = and_then (read_exact w bytes) λ read. some (number_of_bytes read.0, read.1)

pub read_number-le_bytes :
    (w n : ℕ) (rest : List ℕ) → n < 256 ^ w → read_number w (le_bytes w n ++ rest) ≡ some (n, rest)
unfolding read_number
read_number-le_bytes w n rest h =
    and_then-some (λ read. some (number_of_bytes read.0, read.1)) (read_exact-le_bytes w n rest)
    ∙ ap (λ (m : ℕ). some (m, rest)) (number_of_bytes-le_bytes w n h)

-- The fields of a program-derived kind.
unfoldable pub read_pda : List ℕ → Option PrivateAccountKind
unfolding read_number and_then
read_pda bytes = and_then (read_number 32 bytes) λ program_id.
    and_then (read_number 32 program_id.1) λ seed.
      and_then (read_number 16 seed.1) λ identifier. some (pda program_id.0 seed.0 identifier.0)

-- Bytes after the value are ignored, and an unknown variant is an error.
unfoldable pub from_header_bytes : List ℕ → Option PrivateAccountKind
unfolding read_pda read_number and_then
from_header_bytes (zero ∷ bytes) =
    and_then (read_number 16 bytes) λ identifier. some (regular identifier.0)
from_header_bytes (suc zero ∷ bytes) = read_pda bytes
from_header_bytes bytes = none

-- The numbers of a kind have their 16 and 32 bytes.
abbrev pub KindInRange : PrivateAccountKind → Type 0
KindInRange (regular identifier) = identifier < 256 ^ 16
KindInRange (pda program_id seed identifier) =
    (program_id < 256 ^ 32) × (seed < 256 ^ 32) × (identifier < 256 ^ 16)

read_pda-le_bytes :
    (program_id seed identifier : ℕ) (rest : List ℕ)
    → KindInRange (pda program_id seed identifier)
    → read_pda (le_bytes 32 program_id ++ (le_bytes 32 seed ++ (le_bytes 16 identifier ++ rest)))
      ≡ some (pda program_id seed identifier)
unfolding read_pda
read_pda-le_bytes program_id seed identifier rest h =
    and_then-some _ (read_number-le_bytes 32 program_id _ h.0)
    ∙ and_then-some _ (read_number-le_bytes 32 seed _ h.1)
    ∙ and_then-some _ (read_number-le_bytes 16 identifier _ h.2)

-- Every kind whose numbers fit is read back from its header.
pub from_header_bytes-to_header_bytes :
    (kind : PrivateAccountKind)
    → KindInRange kind
    → from_header_bytes (to_header_bytes kind) ≡ some kind
unfolding from_header_bytes to_header_bytes
from_header_bytes-to_header_bytes (regular identifier) h =
    and_then-some _ (read_number-le_bytes 16 identifier (replicate 64 0) h)
from_header_bytes-to_header_bytes (pda program_id seed identifier) h =
    read_pda-le_bytes program_id seed identifier (replicate 0 0) h

module _ (host : Host) where
  unfoldable pub for_private_pda : ProgramId → PdaSeed → NullifierPublicKey → Identifier → AccountId
  for_private_pda program_id seed npk identifier = host.sha256 (
      codes "/LEE/v0.3/AccountId/PrivatePDA/"
      ++ 0 ∷ []
      ++ le_bytes 32 program_id
      ++ le_bytes 32 seed
      ++ le_bytes 32 npk
      ++ le_bytes 16 identifier)

  unfoldable pub for_private_account : NullifierPublicKey → PrivateAccountKind → AccountId
  unfolding for_private_pda for_regular_private_account
  for_private_account npk (regular identifier) = for_regular_private_account host npk identifier
  for_private_account npk (pda program_id seed identifier) =
      for_private_pda program_id seed npk identifier
