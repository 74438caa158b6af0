-- ===== src/Privacy/Sync/Totals.antt =====
-- What the synchronisation of one execution does to the balances in the execution state.
use logos_execution_zone.Prelude.{
  ℕ, ◌+◌, ◌≡◌, refl, ap, ◌∙◌, ◌⊎◌, inl, inr, subst, Bool-cases, Option, none, some, List, [], ◌∷◌,
  ◌++◌, length, length-append, get_elem?, Dict, get, insert, ok, >>=-eq-ok, assert, expect, arith,
  ◌==◌,
}
use logos_execution_zone.Core.Account.{
  AccountId, ProgramId, Account, AccountWithMetadata, default_program_id, account_eq_sound,
}
use logos_execution_zone.Core.Balance.Exact.{sum}
use logos_execution_zone.Core.Program.{Claim, authorized, pda, AccountPostState, PdaSeed}
use logos_execution_zone.Core.Validate.{pre_balances, post_balances}
use logos_execution_zone.Host.{Host}
use logos_execution_zone.State.Totals.{total_balance}
use logos_execution_zone.Privacy.Identity.{InputAccountIdentity, is_public, is_private_pda}
use logos_execution_zone.Privacy.Sync.{
  ExecutionState, position_from, sync_entry, sync_pre_state, check_public_claim,
  check_private_pda_claim, check_claim, sync_claim, sync_pair, validate_and_sync_states,
}

-- The accounts of the state are those of another.
abbrev pub SameAccounts : ExecutionState → ExecutionState → Type 0
SameAccounts s t = (t.pre_states ≡ s.pre_states) × (t.post_states ≡ s.post_states)

-- A known account is met as it was left, and a new one is added to the pre states.
abbrev pub IsMet : ExecutionState → AccountWithMetadata → ExecutionState → Type 0
IsMet s pre t =
    (t.post_states ≡ s.post_states)
    × (((get s.post_states pre.account_id ≡ some pre.account) × (t.pre_states ≡ s.pre_states))
        ⊎ ((get s.post_states pre.account_id ≡ none) × (t.pre_states ≡ s.pre_states ++ pre ∷ [])))

module _ (host : Host) where
  sync_entry-IsMet :
      (s : ExecutionState) (caller : Option ProgramId) (seeds : List PdaSeed)
      (pre : AccountWithMetadata) (entry : Option Account) {t : ExecutionState}
      → get s.post_states pre.account_id ≡ entry
      → sync_entry host s caller seeds pre entry ≡ ok t
      → IsMet s pre t
  unfolding sync_entry
  sync_entry-IsMet s caller seeds pre none e h = (cc h, inr (e, cc h))
  sync_entry-IsMet s caller seeds pre (some known) {t} e h =
      let same : known ≡ pre.account = ground (arith, account_eq_sound known pre.account) in
      let kept : SameAccounts s t = ground arith in (kept.1, inl (cc (e, same), kept.0))

  pub sync_pre_state-IsMet :
      (s : ExecutionState) (caller : Option ProgramId) (seeds : List PdaSeed)
      (pre : AccountWithMetadata) {t : ExecutionState}
      → sync_pre_state host s caller seeds pre ≡ ok t
      → IsMet s pre t
  unfolding sync_pre_state
  sync_pre_state-IsMet s caller seeds pre h =
      sync_entry-IsMet s caller seeds pre (get s.post_states pre.account_id) refl h

  check_public_claim-SameAccounts :
      (s : ExecutionState) (program_id : ProgramId) (pre : AccountWithMetadata) (claim : Claim)
      {t : ExecutionState}
      → check_public_claim host s program_id pre claim ≡ ok t
      → SameAccounts s t
  unfolding check_public_claim
  check_public_claim-SameAccounts s program_id pre authorized h = ground arith
  check_public_claim-SameAccounts s program_id pre (pda seed) h = ground arith

  check_private_pda_claim-SameAccounts :
      (s : ExecutionState) (program_id : ProgramId) (pre : AccountWithMetadata) (position : ℕ)
      (claim : Claim) {t : ExecutionState}
      → check_private_pda_claim host s program_id pre position claim ≡ ok t
      → SameAccounts s t
  unfolding check_private_pda_claim
  check_private_pda_claim-SameAccounts s program_id pre position authorized h = ground arith
  check_private_pda_claim-SameAccounts s program_id pre position (pda seed) h = ground arith

  check_claim-SameAccounts :
      (identities : List InputAccountIdentity) (s : ExecutionState) (program_id : ProgramId)
      (pre : AccountWithMetadata) (post : AccountPostState) (claim : Claim) {t : ExecutionState}
      → check_claim host identities s program_id pre post claim ≡ ok t
      → SameAccounts s t
  unfolding check_claim
  check_claim-SameAccounts identities s program_id pre post claim {t} h =
      let (_, _, h1) =
        >>=-eq-ok
          (assert (post.account.program_owner == default_program_id)
            "Cannot claim an initialized account")
          _ h in
      let (position, _, h2) =
        >>=-eq-ok
          (expect (position_from 0 s.pre_states pre.account_id)
            "Pre state must exist at this point")
          _ h1 in
      let (identity, _, h3) =
        >>=-eq-ok (expect (get_elem? identities position) "index out of bounds") _ h2 in
      elim (Bool-cases (is_public identity)) [
        | inl e ↦ check_public_claim-SameAccounts s program_id pre claim (rw e at h3)
        | inr e ↦ elim (Bool-cases (is_private_pda identity)) [
          | inl f ↦
              check_private_pda_claim-SameAccounts s program_id pre position claim (rw (e, f) at h3)
          | inr f ↦ let last = rw (e, f) at h3 in (cc last, cc last)
        ]
      ]

  -- A claim changes the owner and no balance.
  sync_claim-SameAccounts :
      (identities : List InputAccountIdentity) (s : ExecutionState) (program_id : ProgramId)
      (pre : AccountWithMetadata) (post : AccountPostState) (claim : Option Claim)
      {t : ExecutionState × Account}
      → sync_claim host identities s program_id pre post claim ≡ ok t
      → SameAccounts s t.0 × (t.1.balance ≡ post.account.balance)
  unfolding sync_claim
  sync_claim-SameAccounts identities s program_id pre post none {t} h =
      let e : (s, post.account) ≡ t = cc h in
      subst
        (λ (r : ExecutionState × Account).
          SameAccounts s r.0 × (r.1.balance ≡ post.account.balance))
        e ((refl, refl), refl)
  sync_claim-SameAccounts identities s program_id pre post (some claim) {t} h =
      let (checked, e, h1) =
        >>=-eq-ok (check_claim host identities s program_id pre post claim) _ h in
      let same = check_claim-SameAccounts identities s program_id pre post claim e in
      let f : (checked, record post.account { program_owner = program_id }) ≡ t = cc h1 in
      subst
        (λ (r : ExecutionState × Account).
          SameAccounts s r.0 × (r.1.balance ≡ post.account.balance))
        f (same, refl)

-- Writing an account that is there, and one that is not.
insert-known :
    (k : AccountId) (v w : Account) (m : Dict Account)
    → get m k ≡ some w
    → (total_balance (insert k v m) + w.balance ≡ total_balance m + v.balance)
      × (length (insert k v m) ≡ length m)
unfolding insert get total_balance
insert-known k v w [] h = cc
insert-known k v w ((j, x) ∷ m) h = ground (arith, insert-known k v w m)

insert-new :
    (k : AccountId) (v : Account) (m : Dict Account)
    → get m k ≡ none
    → (total_balance (insert k v m) ≡ total_balance m + v.balance)
      × (length (insert k v m) ≡ length m + 1)
unfolding insert get total_balance
insert-new k v [] h = (omega arith, omega arith)
insert-new k v ((j, x) ∷ m) h = ground (arith, insert-new k v m)

sum-append : (xs ys : List ℕ) → sum (xs ++ ys) ≡ sum xs + sum ys
sum-append [] ys = omega arith
sum-append (x ∷ xs) ys = omega (arith, sum-append xs ys)

pre_balances-append :
    (pres : List AccountWithMetadata) (pre : AccountWithMetadata)
    → pre_balances (pres ++ pre ∷ []) ≡ pre_balances pres ++ pre.account.balance ∷ []
pre_balances-append [] pre = refl
pre_balances-append (p ∷ pres) pre =
    ap (λ xs. p.account.balance ∷ xs) (pre_balances-append pres pre)

-- The balances that the accounts had at first, and those that they have.
abbrev pub total_before : ExecutionState → ℕ
total_before s = sum (pre_balances s.pre_states)

abbrev pub total_now : ExecutionState → ℕ
total_now s = total_balance s.post_states

total_before-new :
    (s t : ExecutionState) (pre : AccountWithMetadata)
    → t.pre_states ≡ s.pre_states ++ pre ∷ []
    → (total_before t ≡ total_before s + pre.account.balance)
      × (length t.pre_states ≡ length s.pre_states + 1)
total_before-new s t pre h =
    let split = pre_balances-append s.pre_states pre in
    let sums = sum-append (pre_balances s.pre_states) (pre.account.balance ∷ []) in
    let lengths = length-append s.pre_states (pre ∷ []) in
    (rw (h, split) (omega (arith, sums)), rw h (omega (arith, lengths)))

-- What has been written on top of what was met: the difference of the totals, and of the numbers of
-- accounts.
abbrev pub IsBalanced : ExecutionState → ExecutionState → (met left : ℕ) → Type 0
IsBalanced s t met left =
    (total_now t + total_before s + met ≡ total_now s + total_before t + left)
    × (length t.post_states + length s.pre_states ≡ length s.post_states + length t.pre_states)

IsMet-IsBalanced :
    (s t : ExecutionState) (pre : AccountWithMetadata) (account : Account)
    → IsMet s pre t
    → IsBalanced s
        (record t { post_states = insert pre.account_id account t.post_states })
        pre.account.balance
        account.balance
IsMet-IsBalanced s t pre account (posts, inl (known, pres)) =
    let (moved, size) = insert-known pre.account_id account pre.account s.post_states known in
    rw (posts, pres) (omega (arith, moved), omega (arith, size))
IsMet-IsBalanced s t pre account (posts, inr (new, pres)) =
    let (moved, size) = insert-new pre.account_id account s.post_states new in
    let (before, more) = total_before-new s t pre pres in
    rw posts (omega (arith, moved, before), omega (arith, size, more))

IsMet-SameAccounts :
    (s m t : ExecutionState) (pre : AccountWithMetadata)
    → IsMet s pre m
    → SameAccounts m t
    → IsMet s pre t
IsMet-SameAccounts s m t pre (posts, inl (known, pres)) same =
    (same.1 ∙ posts, inl (known, same.0 ∙ pres))
IsMet-SameAccounts s m t pre (posts, inr (new, pres)) same =
    (same.1 ∙ posts, inr (new, same.0 ∙ pres))

module _ (host : Host) (identities : List InputAccountIdentity) (program_id : ProgramId)
    (caller : Option ProgramId) (seeds : List PdaSeed) where
  sync_pair-IsBalanced :
      (s : ExecutionState) (pre : AccountWithMetadata) (post : AccountPostState)
      {t : ExecutionState}
      → sync_pair host identities program_id caller seeds s pre post ≡ ok t
      → IsBalanced s t pre.account.balance post.account.balance
  unfolding sync_pair
  sync_pair-IsBalanced s pre post {t} h =
      let (met, e, h1) = >>=-eq-ok (sync_pre_state host s caller seeds pre) _ h in
      let (claimed, f, h2) =
        >>=-eq-ok (sync_claim host identities met program_id pre post post.claim) _ h1 in
      let is_met = sync_pre_state-IsMet host s caller seeds pre e in
      let (same, balance) =
        sync_claim-SameAccounts host identities met program_id pre post post.claim f in
      let met_claimed : IsMet s pre claimed.0 =
        IsMet-SameAccounts s met claimed.0 pre is_met same in
      let written = IsMet-IsBalanced s claimed.0 pre claimed.1 met_claimed in
      let result : record (claimed.0) {
        post_states = insert pre.account_id claimed.1 claimed.0.post_states;
      }
          ≡ t =
        cc h2 in
      subst (λ r. IsBalanced s r pre.account.balance post.account.balance) result
        (rw balance at written)

  -- The synchronisation of an execution moves the totals by those of its states.
  pub validate_and_sync_states-IsBalanced :
      (s : ExecutionState) (pres : List AccountWithMetadata) (posts : List AccountPostState)
      {t : ExecutionState}
      → length pres ≡ length posts
      → validate_and_sync_states host identities program_id caller seeds s pres posts ≡ ok t
      → IsBalanced s t (sum (pre_balances pres)) (sum (post_balances posts))
  unfolding validate_and_sync_states
  validate_and_sync_states-IsBalanced s [] [] {t} l h =
      let e : s ≡ t = cc h in subst (λ r. IsBalanced s r 0 0) e (refl, refl)
  validate_and_sync_states-IsBalanced s [] (post ∷ posts) l h = absurd (omega arith)
  validate_and_sync_states-IsBalanced s (pre ∷ pres) [] l h = absurd (omega arith)
  validate_and_sync_states-IsBalanced s (pre ∷ pres) (post ∷ posts) {t} l h =
      let (next, e, rest) =
        >>=-eq-ok (sync_pair host identities program_id caller seeds s pre post) _ h in
      let first = sync_pair-IsBalanced s pre post e in
      let others = validate_and_sync_states-IsBalanced next pres posts (omega arith) rest in
      (omega (arith, first, others), omega (arith, first, others))
