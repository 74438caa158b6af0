-- ===== src/Privacy/Encoding.antt =====
-- nssa/core/src/encoding.rs and account/data.rs: the bytes of accounts and ciphertexts. A cursor is the
-- list of the bytes that are left, and an error of its reading is `None`.
use logos_execution_zone.Prelude.{
  ℕ, String, false, ◌^◌, ◌<◌, ◌≤◌, ◌≡◌, refl, ◌∙◌, arith, and_then, and_then-some, Option, none,
  some, List, [], ◌∷◌, ◌++◌, length, le_bytes, read_exact, ltb, if◌then◌else◌, Guest, ok, panic,
  ◌>>=◌, u128_max,
}
use logos_execution_zone.Core.Account.{Account}
use logos_execution_zone.Token.Core.{data_max_length}
use logos_execution_zone.Privacy.Kind.{read_number, read_number-le_bytes}
use mathlib.Core.List.{append_assoc}

-- `u32::try_from(length).expect(message)`, as its four bytes.
unfoldable pub length_bytes : List ℕ → String → Guest (List ℕ)
length_bytes bytes message =
    if ltb (length bytes) (2 ^ 32) then ok (le_bytes 4 (length bytes)) else panic message

-- `Account::to_bytes`
unfoldable pub to_bytes : Account → Guest (List ℕ)
unfolding length_bytes
to_bytes account = do
  data_length ← length_bytes account.account_data "Invalid u32"
  ok (
      le_bytes 32 account.program_owner
      ++ (le_bytes 16 account.balance
          ++ (le_bytes 16 account.nonce ++ (data_length ++ account.account_data))))

-- `Data::from_cursor`
unfoldable pub data_from_cursor : List ℕ → Option (List ℕ × List ℕ)
unfolding read_number and_then
data_from_cursor cursor = and_then (read_number 4 cursor) λ data_length.
    if ltb data_max_length data_length.0 then none else read_exact data_length.0 data_length.1

-- `Account::from_cursor`
unfoldable pub from_cursor : List ℕ → Option (Account × List ℕ)
unfolding read_number data_from_cursor and_then
from_cursor cursor = and_then (read_number 32 cursor) λ program_owner.
    and_then (read_number 16 program_owner.1) λ balance.
      and_then (read_number 16 balance.1) λ nonce.
        and_then (data_from_cursor nonce.1) λ account_data. some (
          record {
            program_owner = program_owner.0;
            balance = balance.0;
            account_data = account_data.0;
            nonce = nonce.0;
          },
          account_data.1,
        )

-- `Ciphertext::to_bytes` and `Ciphertext::from_cursor`
unfoldable pub ciphertext_to_bytes : List ℕ → Guest (List ℕ)
unfolding length_bytes
ciphertext_to_bytes ciphertext = do
  ciphertext_length ← length_bytes ciphertext "ciphertext length fits in u32"
  ok (ciphertext_length ++ ciphertext)

unfoldable pub ciphertext_from_cursor : List ℕ → Option (List ℕ × List ℕ)
unfolding read_number and_then
ciphertext_from_cursor cursor =
    and_then (read_number 4 cursor)
      λ ciphertext_length. read_exact ciphertext_length.0 ciphertext_length.1

-- The numbers of an account fit their bytes, and its data the limit.
pub record AccountInRange (account : Account) : Type 0 where
  pub owner_range : account.program_owner < 256 ^ 32
  pub balance_range : account.balance ≤ u128_max
  pub nonce_range : account.nonce ≤ u128_max
  pub data_range : length account.account_data ≤ data_max_length

pub read_exact-length :
    (bytes rest : List ℕ) → read_exact (length bytes) (bytes ++ rest) ≡ some (bytes, rest)
unfolding read_exact
read_exact-length [] rest = refl
read_exact-length (byte ∷ bytes) rest = rw (read_exact-length bytes rest) refl

length_bytes-eq :
    (bytes : List ℕ) (message : String)
    → length bytes < 2 ^ 32
    → length_bytes bytes message ≡ ok (le_bytes 4 (length bytes))
unfolding length_bytes
length_bytes-eq bytes message h = ground arith

data_from_cursor-eq :
    (bytes rest : List ℕ)
    → length bytes ≤ data_max_length
    → data_from_cursor (le_bytes 4 (length bytes) ++ (bytes ++ rest)) ≡ some (bytes, rest)
unfolding data_from_cursor
data_from_cursor-eq bytes rest h =
    let test : ltb data_max_length (length bytes) ≡ false = ground arith in
    and_then-some _ (read_number-le_bytes 4 (length bytes) (bytes ++ rest) (omega arith))
    ∙ rw test (read_exact-length bytes rest)

-- The bytes of an account whose data fits.
abbrev account_bytes : Account → List ℕ → List ℕ
account_bytes account rest =
    le_bytes 32 account.program_owner
    ++ (le_bytes 16 account.balance
        ++ (le_bytes 16 account.nonce
            ++ (le_bytes 4 (length account.account_data) ++ (account.account_data ++ rest))))

to_bytes-eq :
    (account : Account)
    → AccountInRange account
    → to_bytes account
      ≡ ok (
          le_bytes 32 account.program_owner
          ++ (le_bytes 16 account.balance
              ++ (le_bytes 16 account.nonce
                  ++ (le_bytes 4 (length account.account_data) ++ account.account_data))))
unfolding to_bytes
to_bytes-eq account h =
    let small = h.data_range in
    rw (length_bytes-eq account.account_data "Invalid u32" (omega arith)) refl

from_cursor-account_bytes :
    (account : Account) (rest : List ℕ)
    → AccountInRange account
    → from_cursor (account_bytes account rest) ≡ some (account, rest)
unfolding from_cursor
from_cursor-account_bytes account rest h =
    let balance = h.balance_range in
    let nonce = h.nonce_range in
    and_then-some _ (read_number-le_bytes 32 account.program_owner _ h.owner_range)
    ∙ and_then-some _ (read_number-le_bytes 16 account.balance _ (omega arith))
    ∙ and_then-some _ (read_number-le_bytes 16 account.nonce _ (omega arith))
    ∙ and_then-some _ (data_from_cursor-eq account.account_data rest h.data_range)

-- The bytes of an account in range are found, and a cursor that starts with them gives the account
-- back and what follows.
pub from_cursor-to_bytes :
    (account : Account) (rest : List ℕ)
    → AccountInRange account
    → (bytes : List ℕ) × (to_bytes account ≡ ok bytes)
      × (from_cursor (bytes ++ rest) ≡ some (account, rest))
from_cursor-to_bytes account rest h =
    (_, to_bytes-eq account h, simp append_assoc (from_cursor-account_bytes account rest h))
