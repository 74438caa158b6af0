-- ===== src/State/Totals.antt =====
-- What the writes of a diff do to each account and to the total of the public balances.
use logos_execution_zone.Prelude.{
  ℕ, suc, ◌+◌, ◌≡◌, refl, none, some, List, [], ◌∷◌, Dict, get, insert, get-insert,
  and_then-eq-some, ◌==◌, if◌then◌else◌, arith,
}
use logos_execution_zone.Core.Account.{AccountId, Account, public_account_nonce_increment}
use logos_execution_zone.State.{get_account, write_accounts, increment_nonces}

-- The sum of the balances of all public accounts.
unfoldable pub total_balance : Dict Account → ℕ
total_balance [] = 0
total_balance ((account_id, account) ∷ rest) = account.balance + total_balance rest

pub get_account-insert :
    (k j : AccountId) (v : Account) (m : Dict Account)
    → get_account (insert k v m) j ≡ (if k == j then v else get_account m j)
unfolding get_account
get_account-insert k j v m = rw get-insert (ground arith)

-- A write moves the total by the change of the balance that it replaces.
pub total_balance-insert :
    (k : AccountId) (v : Account) (m : Dict Account)
    → total_balance (insert k v m) + (get_account m k).balance ≡ total_balance m + v.balance
unfolding total_balance get_account insert get
total_balance-insert k v [] = omega arith
total_balance-insert k v ((j, w) ∷ m) = ground (arith, total_balance-insert k v m)

-- The account of `diff`, or else that of the accounts below.
pub get_account-write_accounts :
    (diff m : Dict Account) (j : AccountId)
    → get_account (write_accounts diff m) j
      ≡ elim (get diff j) [ none ↦ get_account m j | some account ↦ account ]
unfolding write_accounts get
get_account-write_accounts [] m j = refl
get_account-write_accounts ((k, v) ∷ diff) m j =
    rw get_account-insert (ground (arith, get_account-write_accounts diff m j))

-- Writing one more account to the diff.
pub total_balance-write_accounts-insert :
    (k : AccountId) (v : Account) (diff m : Dict Account)
    → total_balance (write_accounts (insert k v diff) m)
        + (get_account (write_accounts diff m) k).balance
      ≡ total_balance (write_accounts diff m) + v.balance
unfolding write_accounts insert
total_balance-write_accounts-insert k v [] m = total_balance-insert k v m
total_balance-write_accounts-insert k v ((j, w) ∷ diff) m = ground (
  arith,
  total_balance-insert j w (write_accounts diff m),
  total_balance-insert k v (write_accounts diff m),
  total_balance-insert j w (write_accounts (insert k v diff) m),
  total_balance-write_accounts-insert k v diff m,
  get_account-write_accounts diff m j,
  get_account-write_accounts (insert k v diff) m j,
  get-insert k j v diff,
  get_account-insert j k w (write_accounts diff m),
)

-- How often a signer occurs.
abbrev pub count : AccountId → List AccountId → ℕ
count j [] = 0
count j (k ∷ ids) = if k == j then suc (count j ids) else count j ids

abbrev pub add_nonce : ℕ → Account → Account
add_nonce n account = record account { nonce = account.nonce + n }

-- Each occurrence among the signers raises the nonce of an account by one, and changes nothing else.
pub get_account-increment_nonces :
    (ids : List AccountId) (m : Dict Account) {m' : Dict Account} (j : AccountId)
    → increment_nonces ids m ≡ some m'
    → get_account m' j ≡ add_nonce (count j ids) (get_account m j)
unfolding increment_nonces
get_account-increment_nonces [] m j h = ground arith
get_account-increment_nonces (k ∷ ids) m j h =
    let (n, e, rest) =
      and_then-eq-some (public_account_nonce_increment (get_account m k).nonce)
        (λ n. increment_nonces ids (insert k (record (get_account m k) { nonce = n }) m)) h in
    ground (
      arith,
      get_account-increment_nonces ids (insert k (record (get_account m k) { nonce = n }) m) j rest,
      get_account-insert k j (record (get_account m k) { nonce = n }) m,
      e,
    )

pub total_balance-increment_nonces :
    (ids : List AccountId) (m : Dict Account) {m' : Dict Account}
    → increment_nonces ids m ≡ some m'
    → total_balance m' ≡ total_balance m
unfolding increment_nonces
total_balance-increment_nonces [] m h = ground arith
total_balance-increment_nonces (k ∷ ids) m h =
    let (n, e, rest) =
      and_then-eq-some (public_account_nonce_increment (get_account m k).nonce)
        (λ n. increment_nonces ids (insert k (record (get_account m k) { nonce = n }) m)) h in
    omega (
      arith,
      total_balance-increment_nonces ids (insert k (record (get_account m k) { nonce = n }) m) rest,
      total_balance-insert k (record (get_account m k) { nonce = n }) m,
    )
