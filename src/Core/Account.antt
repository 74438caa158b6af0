-- ===== src/Core/Account.antt =====
-- nssa/core/src/account.rs: accounts and nonces. A 32-byte `AccountId` is the number whose
-- little-endian bytes it is, and so is a `ProgramId` of eight 32-bit words.
use logos_execution_zone.Prelude.{
  ℕ, ◌≡◌, Bool, true, false, ◌&&◌, Option, List, [], ◌∷◌, arith, ◌==◌, checked_add,
}

abbrev pub AccountId : Type 0
AccountId = ℕ

abbrev pub ProgramId : Type 0
ProgramId = ℕ

-- `DEFAULT_PROGRAM_ID`
abbrev pub default_program_id : ProgramId
default_program_id = 0

-- `Nonce(u128)`
abbrev pub Nonce : Type 0
Nonce = ℕ

-- `None` is the panic "Overflow when incrementing nonce".
abbrev pub public_account_nonce_increment : Nonce → Option Nonce
public_account_nonce_increment n = checked_add n 1

abbrev pub Balance : Type 0
Balance = ℕ

-- The field `data` is `account_data` here.
pub record Account : Type 0 where
  pub program_owner : ProgramId
  pub balance : Balance
  pub account_data : List ℕ
  pub nonce : Nonce

-- `Account::default()`
abbrev pub default_account : Account
default_account = record { program_owner = 0; balance = 0; account_data = []; nonce = 0 }

pub record AccountWithMetadata : Type 0 where
  pub account : Account
  pub is_authorized : Bool
  pub account_id : AccountId

-- `==` on the byte vectors, and the derived `==` on accounts.
unfoldable pub bytes_eq : List ℕ → List ℕ → Bool
bytes_eq [] [] = true
bytes_eq [] (y ∷ ys) = false
bytes_eq (x ∷ xs) [] = false
bytes_eq (x ∷ xs) (y ∷ ys) = (x == y) && bytes_eq xs ys

pub bytes_eq_sound : (xs ys : List ℕ) → bytes_eq xs ys ≡ true → xs ≡ ys
unfolding bytes_eq
bytes_eq_sound [] [] h = cc
bytes_eq_sound [] (y ∷ ys) h = cc
bytes_eq_sound (x ∷ xs) [] h = cc
bytes_eq_sound (x ∷ xs) (y ∷ ys) h = ground (arith, bytes_eq_sound xs ys)

pub bytes_eq_refl : (xs : List ℕ) → bytes_eq xs xs ≡ true
unfolding bytes_eq
bytes_eq_refl [] = cc
bytes_eq_refl (x ∷ xs) = ground (arith, bytes_eq_refl xs)

pub bytes_eq_complete : (xs ys : List ℕ) → xs ≡ ys → bytes_eq xs ys ≡ true
bytes_eq_complete xs ys h = rw h (bytes_eq_refl ys)

unfoldable pub account_eq : Account → Account → Bool
account_eq a b =
    (a.program_owner == b.program_owner)
    && (a.balance == b.balance)
    && bytes_eq a.account_data b.account_data
    && (a.nonce == b.nonce)

pub account_eq_sound : (a b : Account) → account_eq a b ≡ true → a ≡ b
unfolding account_eq
account_eq_sound a b h = ground (arith, bytes_eq_sound a.account_data b.account_data)

pub account_eq_refl : (a : Account) → account_eq a a ≡ true
unfolding account_eq
account_eq_refl a = ground (arith, bytes_eq_refl a.account_data)

pub account_eq_complete : (a b : Account) → a ≡ b → account_eq a b ≡ true
account_eq_complete a b h = rw h (account_eq_refl b)
