-- ===== src/Core/Validate/Rules.antt =====
-- The rules of `validate_execution` as a predicate, and that the function decides it.
use logos_execution_zone.Prelude.{
  ℕ, ◌≤◌, ◌<◌, ◌^◌, ◌≡◌, refl, ◌≢◌, ◌⊎◌, ◌↔◌, List, [], ◌∷◌, length, length-map, AllPairs, All,
  IsUnique, IsUnique-of_count, count_of_IsUnique, ok, ensure-bind, ◌==◌, >>=-eq-ok, arith, u128_max,
}
use logos_execution_zone.Core.Account.{
  ProgramId, default_program_id, default_account, AccountWithMetadata, bytes_eq_sound,
  account_eq_sound, bytes_eq_complete, account_eq_complete,
}
use logos_execution_zone.Core.Balance.Exact.{sum, from_balances_exact}
use logos_execution_zone.Core.Program.{AccountPostState}
use logos_execution_zone.Core.Validate.{
  account_ids, pre_balances, post_balances, validate_pair, validate_pairs, validate_total,
  validate_execution, validate_uniqueness_of_account_ids,
}

-- What the program `executing` may do to one account.
pub record IsAllowed (executing : ProgramId) (pre : AccountWithMetadata) (post : AccountPostState)
    : Type 0 where
  pub nonce_kept : pre.account.nonce ≡ post.account.nonce
  pub owner_kept : pre.account.program_owner ≡ post.account.program_owner
  pub decrease_by_owner :
      (pre.account.balance ≤ post.account.balance) ⊎ (pre.account.program_owner ≡ executing)
  pub write_by_owner :
      (pre.account.account_data ≡ post.account.account_data)
      ⊎ (pre.account ≡ default_account)
      ⊎ (pre.account.program_owner ≡ executing)
  pub default_if_unowned :
      (post.account.program_owner ≢ default_program_id) ⊎ (pre.account ≡ default_account)

validate_pair-IsAllowed :
    (executing : ProgramId) (pre : AccountWithMetadata) (post : AccountPostState)
    → validate_pair executing pre post ≡ ok tt
    → IsAllowed executing pre post
unfolding validate_pair
validate_pair-IsAllowed executing pre post h = ground (
  arith,
  bytes_eq_sound pre.account.account_data post.account.account_data,
  account_eq_sound pre.account default_account,
)

IsAllowed-validate_pair :
    (executing : ProgramId) (pre : AccountWithMetadata) (post : AccountPostState)
    → IsAllowed executing pre post
    → validate_pair executing pre post ≡ ok tt
unfolding validate_pair
IsAllowed-validate_pair executing pre post h = ground (
  arith,
  bytes_eq_complete pre.account.account_data post.account.account_data,
  account_eq_complete pre.account default_account,
)

validate_pairs-IsAllowed :
    (executing : ProgramId) (pres : List AccountWithMetadata) (posts : List AccountPostState)
    → length pres ≡ length posts
    → validate_pairs executing pres posts ≡ ok tt
    → AllPairs (IsAllowed executing) pres posts
unfolding validate_pairs
validate_pairs-IsAllowed executing [] [] l h = tt
validate_pairs-IsAllowed executing [] (q ∷ qs) l h = omega arith
validate_pairs-IsAllowed executing (p ∷ ps) [] l h = omega arith
validate_pairs-IsAllowed executing (p ∷ ps) (q ∷ qs) l h =
    let (_, first, rest) =
      >>=-eq-ok (validate_pair executing p q) (λ _. validate_pairs executing ps qs) h in
    (
      validate_pair-IsAllowed executing p q first,
      validate_pairs-IsAllowed executing ps qs (omega arith) rest,
    )

IsAllowed-validate_pairs :
    (executing : ProgramId) (pres : List AccountWithMetadata) (posts : List AccountPostState)
    → AllPairs (IsAllowed executing) pres posts
    → validate_pairs executing pres posts ≡ ok tt
unfolding validate_pairs
IsAllowed-validate_pairs executing [] [] h = refl
IsAllowed-validate_pairs executing [] (q ∷ qs) h = elim h [ ]
IsAllowed-validate_pairs executing (p ∷ ps) [] h = elim h [ ]
IsAllowed-validate_pairs executing (p ∷ ps) (q ∷ qs) h =
    rw (IsAllowed-validate_pair executing p q h.0) (IsAllowed-validate_pairs executing ps qs h.1)

-- Balances that fit `u128`.
abbrev pub AreBalances : List ℕ → Type 0
AreBalances = All (λ b. b ≤ u128_max)

-- What `validate_execution` demands of an execution: different accounts, a post state for each,
-- the rules for each account, and a total balance that is kept (and that two words can hold).
pub record IsWellBehaved (executing : ProgramId) (pres : List AccountWithMetadata)
    (posts : List AccountPostState) : Type 0 where
  pub unique : IsUnique (account_ids pres)
  pub same_length : length pres ≡ length posts
  pub allowed : AllPairs (IsAllowed executing) pres posts
  pub total_kept : sum (pre_balances pres) ≡ sum (post_balances posts)
  pub representable : sum (pre_balances pres) < 2 ^ 256

module _ (pres : List AccountWithMetadata) (posts : List AccountPostState)
    (hp : AreBalances (pre_balances pres)) (hq : AreBalances (post_balances posts)) where
  validate_total_iff : (validate_total pres posts ≡ ok tt) ↔ (
      (sum (pre_balances pres) ≡ sum (post_balances posts)) × (sum (pre_balances pres) < 2 ^ 256))
  unfolding validate_total
  validate_total_iff =
      rw (from_balances_exact _ hp, from_balances_exact _ hq) (λ h. ground arith, λ h. ground arith)

  -- If all balances before and after are `u128`, `validate_execution` accepts exactly the
  -- well-behaved executions.
  pub validate_execution_iff :
      (executing : ProgramId)
      → (validate_execution pres posts executing ≡ ok tt) ↔ IsWellBehaved executing pres posts
  unfolding validate_execution validate_uniqueness_of_account_ids
  validate_execution_iff executing =
      let ids = length-map pres (λ pre. pre.account_id) in
      (
        λ h.
            let (e1, h1) = ensure-bind (validate_uniqueness_of_account_ids pres) _ _ h in
            let (e2, h2) = ensure-bind (length pres == length posts) _ _ h1 in
            let (_, e3, h3) = >>=-eq-ok (validate_pairs executing pres posts) _ h2 in
            let lengths : length pres ≡ length posts = ground arith in
            let total = validate_total_iff.0 h3 in
            record {
              unique = IsUnique-of_count (account_ids pres) (ground (arith, ids));
              same_length = lengths;
              allowed = validate_pairs-IsAllowed executing pres posts lengths e3;
              total_kept = total.0;
              representable = total.1;
            },
        λ w. ground (
          arith,
          ids,
          count_of_IsUnique (account_ids pres) w.unique,
          IsAllowed-validate_pairs executing pres posts w.allowed,
          validate_total_iff.1 (w.total_kept, w.representable),
        ),
      )
