-- ===== src/Diff/Call/Writes.antt =====
-- The diff after the writes of one call, against the accounts before it.
use logos_execution_zone.Prelude.{
  ℕ, false, Bool-cases, ==_iff, subst, ◌+◌, ◌≤◌, ◌≡◌, ◌≢◌, ◌⊎◌, inl, inr, refl, List, [], ◌∷◌, Dict,
  insert, get-insert, contains, All, AllPairs, IsUnique, length, ok, ensure-bind, >>=-eq-ok, ◌==◌,
  if◌then◌else◌, arith,
}
use logos_execution_zone.Core.Account.{
  AccountId, ProgramId, default_program_id, Account, AccountWithMetadata, account_eq_sound,
  account_eq,
}
use logos_execution_zone.Core.Balance.Exact.{sum}
use logos_execution_zone.Core.Program.{AccountPostState}
use logos_execution_zone.Core.Validate.{account_ids, pre_balances, post_balances}
use logos_execution_zone.Core.Validate.Rules.{IsAllowed}
use logos_execution_zone.Host.{Host}
use logos_execution_zone.State.{State, get_account, write_accounts}
use logos_execution_zone.State.Totals.{
  total_balance, get_account-write_accounts, total_balance-write_accounts-insert,
}
use logos_execution_zone.Diff.Call.{
  current_account, write_post_states, check_pre_states, claim_post_state, claim_post_states,
}

-- The total of the public balances, once the diff is written.
abbrev pub total_after : State → Dict Account → ℕ
total_after state diff = total_balance (write_accounts diff state.public_state)

-- Each pre state is the current account.
abbrev pub AreCurrent : State → Dict Account → List AccountWithMetadata → Type 0
AreCurrent state diff = All (λ pre. pre.account ≡ current_account state diff pre.account_id)

module _ (state : State) where
  pub current_account-write_accounts :
      (diff : Dict Account) (j : AccountId)
      → current_account state diff j ≡ get_account (write_accounts diff state.public_state) j
  unfolding current_account
  current_account-write_accounts diff j =
      ground (arith, get_account-write_accounts diff state.public_state j)

  pub current_account-insert :
      (k j : AccountId) (v : Account) (diff : Dict Account)
      → current_account state (insert k v diff) j
        ≡ (if k == j then v else current_account state diff j)
  unfolding current_account
  current_account-insert k j v diff = ground (arith, get-insert k j v diff)

  AreCurrent-insert :
      (k : AccountId) (v : Account) (diff : Dict Account) (pres : List AccountWithMetadata)
      → contains (account_ids pres) k ≡ false
      → AreCurrent state diff pres
      → AreCurrent state (insert k v diff) pres
  AreCurrent-insert k v diff [] fresh h = tt
  AreCurrent-insert k v diff (pre ∷ pres) fresh h =
      ground
        (arith, current_account-insert k pre.account_id v diff, AreCurrent-insert k v diff pres)

  -- The writes move the total by the difference of the balances.
  pub total_after-write_post_states :
      (pres : List AccountWithMetadata) (posts : List AccountPostState) (diff : Dict Account)
      → IsUnique (account_ids pres)
      → AreCurrent state diff pres
      → length pres ≡ length posts
      → total_after state (write_post_states pres posts diff) + sum (pre_balances pres)
        ≡ total_after state diff + sum (post_balances posts)
  unfolding write_post_states
  total_after-write_post_states [] [] diff unique current lengths = refl
  total_after-write_post_states [] (post ∷ posts) diff unique current lengths = omega arith
  total_after-write_post_states (pre ∷ pres) [] diff unique current lengths = omega arith
  total_after-write_post_states (pre ∷ pres) (post ∷ posts) diff unique current lengths =
      let next = insert pre.account_id post.account diff in
      let kept = AreCurrent-insert pre.account_id post.account diff pres unique.0 current.1 in
      let first : pre.account.balance
          ≡ (get_account (write_accounts diff state.public_state) pre.account_id).balance =
        cc (current.0, current_account-write_accounts diff pre.account_id) in
      omega (
        arith,
        first,
        total_balance-write_accounts-insert pre.account_id post.account diff state.public_state,
        total_after-write_post_states pres posts next unique.1 kept (omega arith),
      )

  -- A property of all current accounts that the post states have too is kept.
  pub write_post_states-keeps :
      (Q : AccountId → Account → Type 0) (pres : List AccountWithMetadata)
      (posts : List AccountPostState) (diff : Dict Account)
      → AllPairs (λ pre post. Q pre.account_id post.account) pres posts
      → ((j : AccountId) → Q j (current_account state diff j))
      → (j : AccountId) → Q j (current_account state (write_post_states pres posts diff) j)
  unfolding write_post_states
  write_post_states-keeps Q [] [] diff new old j = old j
  write_post_states-keeps Q [] (post ∷ posts) diff new old j = elim new [ ]
  write_post_states-keeps Q (pre ∷ pres) [] diff new old j = elim new [ ]
  write_post_states-keeps Q (pre ∷ pres) (post ∷ posts) diff new old j =
      write_post_states-keeps Q pres posts (insert pre.account_id post.account diff) new.1
        (λ i. elim (Bool-cases (pre.account_id == i)) [
          | inl e ↦
              rw (current_account-insert pre.account_id i post.account diff, e)
                (subst (λ x. Q x post.account) ((==_iff pre.account_id i).0 e) new.0)
          | inr e ↦ rw (current_account-insert pre.account_id i post.account diff, e) (old i)
        ])
        j

-- The account that a program leaves, after a claim that made the program its owner.
abbrev pub IsClaimed : ProgramId → AccountPostState → AccountPostState → Type 0
IsClaimed program_id post claimed =
    (claimed.account ≡ post.account)
    ⊎ ((post.account.program_owner ≡ default_program_id)
        × (claimed.account ≡ record post.account { program_owner = program_id }))

module _ (host : Host) (state : State) where
  pub check_pre_states-AreCurrent :
      (diff : Dict Account) (pdas accounts : List AccountId) (pres : List AccountWithMetadata)
      → check_pre_states host state diff pdas accounts pres ≡ ok tt
      → AreCurrent state diff pres
  unfolding check_pre_states
  check_pre_states-AreCurrent diff pdas accounts [] h = tt
  check_pre_states-AreCurrent diff pdas accounts (pre ∷ pres) h =
      let (same, rest) =
        ensure-bind (account_eq pre.account (current_account state diff pre.account_id)) _ _ h in
      let (_, last) = ensure-bind _ _ (check_pre_states host state diff pdas accounts pres) rest in
      (account_eq_sound _ _ same, check_pre_states-AreCurrent diff pdas accounts pres last)

module _ (host : Host) (program_id : ProgramId) where
  claim_post_state-IsClaimed :
      (pre : AccountWithMetadata) (post : AccountPostState) {claimed : AccountPostState}
      → claim_post_state host program_id pre post ≡ ok claimed
      → IsClaimed program_id post claimed
  unfolding claim_post_state
  claim_post_state-IsClaimed pre post h = ground arith

  -- With a post state for each pre state the claims keep the lists in step.
  pub claim_post_states-IsClaimed :
      (pres : List AccountWithMetadata) (posts : List AccountPostState)
      {claimed : List AccountPostState}
      → length pres ≡ length posts
      → claim_post_states host program_id pres posts ≡ ok claimed
      → AllPairs (IsClaimed program_id) posts claimed
  unfolding claim_post_states
  claim_post_states-IsClaimed [] [] {claimed} l h = let e : claimed ≡ [] = cc h in rw e tt
  claim_post_states-IsClaimed (pre ∷ pres) [] l h = absurd (omega arith)
  claim_post_states-IsClaimed [] (post ∷ posts) l h = absurd (omega arith)
  claim_post_states-IsClaimed (pre ∷ pres) (post ∷ posts) {claimed} l h =
      let (c, e, h1) = >>=-eq-ok (claim_post_state host program_id pre post) _ h in
      let (cs, es, h2) = >>=-eq-ok (claim_post_states host program_id pres posts) _ h1 in
      let step : claimed ≡ c ∷ cs = cc h2 in
      rw step (
        claim_post_state-IsClaimed pre post e,
        claim_post_states-IsClaimed pres posts (omega arith) es,
      )

-- Claims change no balance.
pub post_balances-claimed :
    (program_id : ProgramId) (posts claimed : List AccountPostState)
    → AllPairs (IsClaimed program_id) posts claimed
    → sum (post_balances claimed) ≡ sum (post_balances posts)
post_balances-claimed program_id [] [] h = refl
post_balances-claimed program_id [] (c ∷ cs) h = elim h [ ]
post_balances-claimed program_id (p ∷ ps) [] h = elim h [ ]
post_balances-claimed program_id (p ∷ ps) (c ∷ cs) h =
    let same : c.account.balance ≡ p.account.balance = ground arith in
    omega (arith, same, post_balances-claimed program_id ps cs h.1)

pub length-claimed :
    (program_id : ProgramId) (posts claimed : List AccountPostState)
    → AllPairs (IsClaimed program_id) posts claimed
    → length claimed ≡ length posts
length-claimed program_id [] [] h = refl
length-claimed program_id [] (c ∷ cs) h = elim h [ ]
length-claimed program_id (p ∷ ps) [] h = elim h [ ]
length-claimed program_id (p ∷ ps) (c ∷ cs) h = omega (arith, length-claimed program_id ps cs h.1)

-- What one call does to one account: the nonce stays, an owner stays, and only the owner takes
-- balance away.
pub record IsStep (program_id : ProgramId) (pre : Account) (post : Account) : Type 0 where
  pub nonce_kept : post.nonce ≡ pre.nonce
  pub owner_kept : pre.program_owner ≢ default_program_id → post.program_owner ≡ pre.program_owner
  pub decrease_by_owner : (pre.balance ≤ post.balance) ⊎ (pre.program_owner ≡ program_id)

IsAllowed-IsStep :
    (program_id : ProgramId) (pre : AccountWithMetadata) (post claimed : AccountPostState)
    → IsAllowed program_id pre post
    → IsClaimed program_id post claimed
    → IsStep program_id pre.account claimed.account
IsAllowed-IsStep program_id pre post claimed a c = record {
  nonce_kept = ground arith;
  owner_kept = λ h. ground arith;
  decrease_by_owner = ground arith;
}

pub AllPairs-IsStep :
    (program_id : ProgramId) (pres : List AccountWithMetadata)
    (posts claimed : List AccountPostState)
    → AllPairs (IsAllowed program_id) pres posts
    → AllPairs (IsClaimed program_id) posts claimed
    → AllPairs (λ pre post. IsStep program_id pre.account post.account) pres claimed
AllPairs-IsStep program_id [] [] [] a c = tt
AllPairs-IsStep program_id (p ∷ ps) (q ∷ qs) (c ∷ cs) a h =
    (IsAllowed-IsStep program_id p q c a.0 h.0, AllPairs-IsStep program_id ps qs cs a.1 h.1)
AllPairs-IsStep program_id [] (q ∷ qs) cs a h = elim a [ ]
AllPairs-IsStep program_id (p ∷ ps) [] cs a h = elim a [ ]
AllPairs-IsStep program_id [] [] (c ∷ cs) a h = elim h [ ]
AllPairs-IsStep program_id (p ∷ ps) (q ∷ qs) [] a h = elim h [ ]
