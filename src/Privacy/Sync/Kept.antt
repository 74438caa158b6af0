-- ===== src/Privacy/Sync/Kept.antt =====
-- Each step of the synchronisation keeps the bindings proven.
use logos_execution_zone.Prelude.{
  ℕ, ◌≡◌, ◌∙◌, inl, inr, Bool, Bool-cases, ==_iff, Option, none, some, List, [], ◌∷◌, ◌++◌,
  get_elem?, get, insert, ok, >>=-eq-ok, assert, assert-eq-ok, expect, expect-eq-ok, subst, ◌==◌,
}
use logos_execution_zone.Core.Account.{
  ProgramId, default_program_id, Account, AccountWithMetadata, account_eq,
}
use logos_execution_zone.Core.Program.{Claim, authorized, pda, AccountPostState, PdaSeed}
use logos_execution_zone.Host.{Host, for_public_pda}
use logos_execution_zone.Privacy.Kind.{for_private_pda}
use logos_execution_zone.Privacy.Identity.{InputAccountIdentity, is_public, is_private_pda}
use logos_execution_zone.Privacy.Binding.{
  Bound, Families, assert_family_binding, bind_private_pda_position, matched_caller_seed,
  record_match, resolve_authorization_and_record_bindings,
}
use logos_execution_zone.Privacy.Sync.{
  ExecutionState, position_from, bool_eq, sync_entry, sync_pre_state, check_public_claim,
  check_private_pda_claim, check_claim, sync_claim, sync_pair, validate_and_sync_states,
}
use logos_execution_zone.Privacy.Sync.Proven.{
  IsBoundTo, bind_private_pda_position-IsBoundTo, matched-Derives, record_match-eq, IsKept,
  IsKept-trans, rebound-IsKept, same_bound-IsKept, added-IsKept, position_of-found,
}

module _ (host : Host) where
  resolved-IsKept :
      (s : ExecutionState) (pre previous : AccountWithMetadata) (position : ℕ)
      (caller : Option ProgramId) (seeds : List PdaSeed) {resolved : Bool × Families × Bound}
      → get_elem? s.pre_states position ≡ some previous
      → previous.account_id ≡ pre.account_id
      → resolve_authorization_and_record_bindings host s.pda_family_binding
          s.private_pda_bound_positions
          (get s.private_pda_npk_by_position position)
          pre.account_id
          position
          caller
          seeds
          previous.is_authorized
        ≡ ok resolved
      → IsKept host s
          (record s { pda_family_binding = resolved.1; private_pda_bound_positions = resolved.2 })
  unfolding resolve_authorization_and_record_bindings
  resolved-IsKept s pre previous position caller seeds {resolved} placed id h =
      let key = get s.private_pda_npk_by_position position in
      let matched = matched_caller_seed host key pre.account_id caller seeds in
      let (recorded, e, h1) =
        >>=-eq-ok
          (record_match host s.pda_family_binding s.private_pda_bound_positions pre.account_id
            position matched)
          _ h in
      let families : recorded.0 ≡ resolved.1 = cc h1 in
      let bound : recorded.1 ≡ resolved.2 = cc h1 in
      elim (record_match-eq host s.pda_family_binding s.private_pda_bound_positions pre.account_id
        position matched e) [
          | inl same ↦
              let old : resolved.2 ≡ s.private_pda_bound_positions = cc (same, bound) in
              rw old (same_bound-IsKept host s resolved.1 s.post_states)
          | inr (seed, program_id, found, new) ↦
              let derives = matched-Derives host key pre.account_id caller seeds found in
              rebound-IsKept host s resolved.1 resolved.2 position program_id seed
                (subst (IsBoundTo s.private_pda_bound_positions position program_id seed) bound new)
                (record { pre = previous; placed = placed; derived = rw id derives })
        ]

  sync_entry-IsKept :
      (s : ExecutionState) (caller : Option ProgramId) (seeds : List PdaSeed)
      (pre : AccountWithMetadata) (entry : Option Account) {t : ExecutionState}
      → sync_entry host s caller seeds pre entry ≡ ok t
      → IsKept host s t
  unfolding sync_entry
  sync_entry-IsKept s caller seeds pre none h =
      let e : record s { pre_states = s.pre_states ++ pre ∷ [] } ≡ _ = cc h in
      subst (IsKept host s) e (added-IsKept host s pre)
  sync_entry-IsKept s caller seeds pre (some known) {t} h =
      let (_, _, h1) =
        >>=-eq-ok (assert (account_eq known pre.account) "Inconsistent pre state for account") _
          h in
      let (position, at, h2) =
        >>=-eq-ok
          (expect (position_from 0 s.pre_states pre.account_id)
            "Pre state must exist in execution state for account")
          _ h1 in
      let (previous, is, h3) =
        >>=-eq-ok
          (expect (get_elem? s.pre_states position)
            "Pre state must exist in execution state for account")
          _ h2 in
      let (resolved, e, h4) =
        >>=-eq-ok
          (resolve_authorization_and_record_bindings host s.pda_family_binding
            s.private_pda_bound_positions (get s.private_pda_npk_by_position position)
            pre.account_id position caller seeds previous.is_authorized)
          _ h3 in
      let (_, _, h5) =
        >>=-eq-ok
          (assert (bool_eq pre.is_authorized resolved.0) "Inconsistent authorization for account") _
          h4 in
      let (found, placed, id) =
        position_of-found host s.pre_states pre.account_id
          (expect-eq-ok _ "Pre state must exist in execution state for account" at) in
      let there = expect-eq-ok _ "Pre state must exist in execution state for account" is in
      let same : found ≡ previous = cc (placed, there) in
      let result : record s {
        pda_family_binding = resolved.1;
        private_pda_bound_positions = resolved.2;
      }
          ≡ t =
        cc h5 in
      subst (IsKept host s) result (
        resolved-IsKept s pre previous position caller seeds there
          (subst (λ (p : AccountWithMetadata). p.account_id ≡ pre.account_id) same id) e)

  check_public_claim-IsKept :
      (s : ExecutionState) (program_id : ProgramId) (pre : AccountWithMetadata) (claim : Claim)
      {t : ExecutionState}
      → check_public_claim host s program_id pre claim ≡ ok t
      → IsKept host s t
  unfolding check_public_claim
  check_public_claim-IsKept s program_id pre authorized {t} h =
      let (_, _, h1) =
        >>=-eq-ok (assert pre.is_authorized "Cannot claim unauthorized account") _ h in
      let e : s ≡ t = cc h1 in
      subst (IsKept host s) e (same_bound-IsKept host s s.pda_family_binding s.post_states)
  check_public_claim-IsKept s program_id pre (pda seed) {t} h =
      let (_, _, h1) =
        >>=-eq-ok
          (assert (pre.account_id == for_public_pda host program_id seed)
            "Invalid PDA claim for account which does not match derived PDA")
          _ h in
      let (families, _, h2) =
        >>=-eq-ok (assert_family_binding s.pda_family_binding program_id seed pre.account_id) _
          h1 in
      let e : record s { pda_family_binding = families } ≡ t = cc h2 in
      subst (IsKept host s) e (same_bound-IsKept host s families s.post_states)

  check_private_pda_claim-IsKept :
      (s : ExecutionState) (program_id : ProgramId) (pre : AccountWithMetadata) (position : ℕ)
      (claim : Claim) {t : ExecutionState} (at : AccountWithMetadata)
      → get_elem? s.pre_states position ≡ some at
      → at.account_id ≡ pre.account_id
      → check_private_pda_claim host s program_id pre position claim ≡ ok t
      → IsKept host s t
  unfolding check_private_pda_claim
  check_private_pda_claim-IsKept s program_id pre position authorized {t} at placed id h =
      let (_, _, h1) =
        >>=-eq-ok (assert pre.is_authorized "Cannot claim unauthorized private PDA") _ h in
      let e : s ≡ t = cc h1 in
      subst (IsKept host s) e (same_bound-IsKept host s s.pda_family_binding s.post_states)
  check_private_pda_claim-IsKept s program_id pre position (pda seed) {t} at placed id h =
      let (key, k, h1) =
        >>=-eq-ok
          (expect (get s.private_pda_npk_by_position position)
            "private PDA pre_state must have an npk in the position map")
          _ h in
      let (_, d, h2) =
        >>=-eq-ok
          (assert (pre.account_id == for_private_pda host program_id seed key.0 key.1)
            "Invalid private PDA claim for account")
          _ h1 in
      let (bound, b, h3) =
        >>=-eq-ok (bind_private_pda_position s.private_pda_bound_positions position program_id seed)
          _ h2 in
      let (families, _, h4) =
        >>=-eq-ok (assert_family_binding s.pda_family_binding program_id seed pre.account_id) _
          h3 in
      let e : record s { private_pda_bound_positions = bound; pda_family_binding = families } ≡ t =
        cc h4 in
      let derived = (==_iff _ _).0 (assert-eq-ok _ "Invalid private PDA claim for account" d) in
      subst (IsKept host s) e (
        rebound-IsKept host s families bound position program_id seed
          (bind_private_pda_position-IsBoundTo s.private_pda_bound_positions position program_id
            seed b)
          (record {
            pre = at;
            placed = placed;
            derived = (
              key,
              expect-eq-ok _ "private PDA pre_state must have an npk in the position map" k,
              id ∙ derived,
            );
          }))

  check_claim-IsKept :
      (identities : List InputAccountIdentity) (s : ExecutionState) (program_id : ProgramId)
      (pre : AccountWithMetadata) (post : AccountPostState) (claim : Claim) {t : ExecutionState}
      → check_claim host identities s program_id pre post claim ≡ ok t
      → IsKept host s t
  unfolding check_claim
  check_claim-IsKept identities s program_id pre post claim {t} h =
      let (_, _, h1) =
        >>=-eq-ok
          (assert (post.account.program_owner == default_program_id)
            "Cannot claim an initialized account")
          _ h in
      let (position, at, h2) =
        >>=-eq-ok
          (expect (position_from 0 s.pre_states pre.account_id)
            "Pre state must exist at this point")
          _ h1 in
      let (identity, _, h3) =
        >>=-eq-ok (expect (get_elem? identities position) "index out of bounds") _ h2 in
      let (found, placed, id) =
        position_of-found host s.pre_states pre.account_id
          (expect-eq-ok _ "Pre state must exist at this point" at) in
      elim (Bool-cases (is_public identity)) [
        | inl e ↦ check_public_claim-IsKept s program_id pre claim (rw e at h3)
        | inr e ↦ elim (Bool-cases (is_private_pda identity)) [
          | inl f ↦
              check_private_pda_claim-IsKept s program_id pre position claim found placed id
                (rw (e, f) at h3)
          | inr f ↦
              let last = rw (e, f) at h3 in
              let same : s ≡ t = cc last in
              subst (IsKept host s) same
                (same_bound-IsKept host s s.pda_family_binding s.post_states)
        ]
      ]

  sync_claim-IsKept :
      (identities : List InputAccountIdentity) (s : ExecutionState) (program_id : ProgramId)
      (pre : AccountWithMetadata) (post : AccountPostState) (claim : Option Claim)
      {t : ExecutionState × Account}
      → sync_claim host identities s program_id pre post claim ≡ ok t
      → IsKept host s t.0
  unfolding sync_claim
  sync_claim-IsKept identities s program_id pre post none {t} h =
      let same : s ≡ t.0 = cc h in
      subst (IsKept host s) same (same_bound-IsKept host s s.pda_family_binding s.post_states)
  sync_claim-IsKept identities s program_id pre post (some claim) {t} h =
      let (checked, e, h1) =
        >>=-eq-ok (check_claim host identities s program_id pre post claim) _ h in
      let same : checked ≡ t.0 = cc h1 in
      subst (IsKept host s) same (check_claim-IsKept identities s program_id pre post claim e)

  module _ (identities : List InputAccountIdentity) (program_id : ProgramId)
      (caller : Option ProgramId) (seeds : List PdaSeed) where
    sync_pair-IsKept :
        (s : ExecutionState) (pre : AccountWithMetadata) (post : AccountPostState)
        {t : ExecutionState}
        → sync_pair host identities program_id caller seeds s pre post ≡ ok t
        → IsKept host s t
    unfolding sync_pair sync_pre_state
    sync_pair-IsKept s pre post {t} h =
        let (met, e, h1) = >>=-eq-ok (sync_pre_state host s caller seeds pre) _ h in
        let (claimed, f, h2) =
          >>=-eq-ok (sync_claim host identities met program_id pre post post.claim) _ h1 in
        let same : record (claimed.0) {
          post_states = insert pre.account_id claimed.1 claimed.0.post_states;
        }
            ≡ t =
          cc h2 in
        let entered = sync_entry-IsKept s caller seeds pre (get s.post_states pre.account_id) e in
        let claims = sync_claim-IsKept identities met program_id pre post post.claim f in
        let written =
          same_bound-IsKept host claimed.0 claimed.0.pda_family_binding
            (insert pre.account_id claimed.1 claimed.0.post_states) in
        subst (IsKept host s) same (IsKept-trans host entered (IsKept-trans host claims written))

    pub validate_and_sync_states-IsKept :
        (s : ExecutionState) (pres : List AccountWithMetadata) (posts : List AccountPostState)
        {t : ExecutionState}
        → validate_and_sync_states host identities program_id caller seeds s pres posts ≡ ok t
        → IsKept host s t
    unfolding validate_and_sync_states
    validate_and_sync_states-IsKept s [] posts {t} h =
        let same : s ≡ t = cc h in
        subst (IsKept host s) same (same_bound-IsKept host s s.pda_family_binding s.post_states)
    validate_and_sync_states-IsKept s (pre ∷ pres) [] {t} h =
        let same : s ≡ t = cc h in
        subst (IsKept host s) same (same_bound-IsKept host s s.pda_family_binding s.post_states)
    validate_and_sync_states-IsKept s (pre ∷ pres) (post ∷ posts) h =
        let (next, e, rest) =
          >>=-eq-ok (sync_pair host identities program_id caller seeds s pre post) _ h in
        IsKept-trans host (sync_pair-IsKept s pre post e)
          (validate_and_sync_states-IsKept next pres posts rest)
