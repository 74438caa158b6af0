-- ===== src/Diff/Private/Listed.antt =====
-- Which post state a message lists for an account.
use logos_execution_zone.Prelude.{
  ℕ, suc, ◌≡◌, refl, ◌⊎◌, inl, inr, false, Bool-cases, ==_iff, none, some, List, [], ◌∷◌, length,
  take, get_elem?, contains, Dict, get, ◌==◌,
}
use logos_execution_zone.Core.Account.{AccountId, Account}
use logos_execution_zone.Diff.Private.{zip_accounts}

-- The account is at the position of the post state.
abbrev pub IsListed : List AccountId → List Account → AccountId → Account → Type 0
IsListed ids posts j post = (i : ℕ) × (get_elem? ids i ≡ some j) × (get_elem? posts i ≡ some post)

-- The account is not among those that have a post state.
abbrev pub IsUnlisted : List AccountId → List Account → AccountId → Type 0
IsUnlisted ids posts j = contains (take (length posts) ids) j ≡ false

-- A diff that has the post state of each listed account, and no others.
abbrev pub IsDiffAt : List AccountId → List Account → Dict Account → AccountId → Type 0
IsDiffAt ids posts diff j =
    ((post : Account) × (get diff j ≡ some post) × IsListed ids posts j post)
    ⊎ ((get diff j ≡ none) × IsUnlisted ids posts j)

IsDiffAt-later :
    (id : AccountId) (account : Account) (ids : List AccountId) (posts : List Account)
    (j : AccountId)
    → (id == j) ≡ false
    → IsDiffAt ids posts (zip_accounts ids posts) j
    → IsDiffAt (id ∷ ids) (account ∷ posts) (zip_accounts (id ∷ ids) (account ∷ posts)) j
unfolding get
IsDiffAt-later id account ids posts j e (inl (post, found, (i, at, has))) =
    inl (post, rw e found, (suc i, at, has))
IsDiffAt-later id account ids posts j e (inr (nothing, missing)) = inr (rw e nothing, rw e missing)

pub zip_accounts-IsDiffAt :
    (ids : List AccountId) (posts : List Account) (j : AccountId)
    → IsDiffAt ids posts (zip_accounts ids posts) j
unfolding get
zip_accounts-IsDiffAt [] [] j = inr (refl, refl)
zip_accounts-IsDiffAt [] (post ∷ posts) j = inr (refl, refl)
zip_accounts-IsDiffAt (id ∷ ids) [] j = inr (refl, refl)
zip_accounts-IsDiffAt (id ∷ ids) (post ∷ posts) j = elim (Bool-cases (id == j)) [
  | inl e ↦ let here : id ≡ j = (==_iff id j).0 e in inl (post, rw e refl, (0, cc here, refl))
  | inr e ↦ IsDiffAt-later id post ids posts j e (zip_accounts-IsDiffAt ids posts j)
]
