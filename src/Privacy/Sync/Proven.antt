-- ===== src/Privacy/Sync/Proven.antt =====
-- Every binding of a position is proven: the account there is the private one that the program and
-- the seed derive with the key of the position.
use logos_execution_zone.Prelude.{
  ℕ, zero, suc, ◌+◌, ◌≡◌, refl, sym, ◌∙◌, ◌⊎◌, inl, inr, true, false, Bool, Bool-cases, ==_iff,
  Option, Option-cases, none, some, List, [], ◌∷◌, ◌++◌, get_elem?, Dict, get, insert, get-insert,
  ok, >>=-eq-ok, subst, arith, ◌==◌,
}
use logos_execution_zone.Core.Account.{AccountId, ProgramId, Account, AccountWithMetadata}
use logos_execution_zone.Core.Program.{PdaSeed}
use logos_execution_zone.Host.{Host}
use logos_execution_zone.Privacy.Keys.{NullifierPublicKey, Identifier}
use logos_execution_zone.Privacy.Kind.{for_private_pda}
use logos_execution_zone.Privacy.Binding.{
  Bound, Families, assert_family_binding, bind_entry, bind_private_pda_position, seed_form,
  find_seed, matched_caller_seed, record_match,
}
use logos_execution_zone.Privacy.Sync.{ExecutionState, position_from}

-- A new binding is at its position, and the others stay.
abbrev pub IsBoundTo : Bound → ℕ → ProgramId → PdaSeed → Bound → Type 0
IsBoundTo m position program_id seed m' =
    (j : ℕ) (b : ProgramId × PdaSeed)
    → get m' j ≡ some b
    → (get m j ≡ some b) ⊎ ((j ≡ position) × (b ≡ (program_id, seed)))

bind_entry-IsBoundTo :
    (m : Bound) (position : ℕ) (program_id : ProgramId) (seed : PdaSeed)
    (entry : Option (ProgramId × PdaSeed)) {m' : Bound}
    → bind_entry m position program_id seed entry ≡ ok m'
    → IsBoundTo m position program_id seed m'
bind_entry-IsBoundTo m position program_id seed none {m'} h j b found =
    let e : insert position (program_id, seed) m ≡ m' = cc h in
    let at_j = get-insert position j (program_id, seed) m in
    elim (Bool-cases (position == j)) [
      | inl same ↦
          let written : get (insert position (program_id, seed) m) j ≡ some (program_id, seed) =
            rw same at at_j in
          inr (sym ((==_iff position j).0 same), cc (written, e, found))
      | inr other ↦
          let kept : get (insert position (program_id, seed) m) j ≡ get m j = rw other at at_j in
          inl (cc (kept, e, found))
    ]
bind_entry-IsBoundTo m position program_id seed (some (p, s)) {m'} h j b found =
    let e : m ≡ m' = ground arith in inl (cc (e, found))

pub bind_private_pda_position-IsBoundTo :
    (m : Bound) (position : ℕ) (program_id : ProgramId) (seed : PdaSeed) {m' : Bound}
    → bind_private_pda_position m position program_id seed ≡ ok m'
    → IsBoundTo m position program_id seed m'
unfolding bind_private_pda_position
bind_private_pda_position-IsBoundTo m position program_id seed h =
    bind_entry-IsBoundTo m position program_id seed (get m position) h

module _ (host : Host) where
  -- The private account that a program and a seed derive with a key.
  abbrev pub Derives :
      Option (NullifierPublicKey × Identifier) → AccountId → ProgramId → PdaSeed → Type 0
  Derives key account_id program_id seed =
      (k : NullifierPublicKey × Identifier) × (key ≡ some k)
      × (account_id ≡ for_private_pda host program_id seed k.0 k.1)

  seed_form-Derives :
      (key : Option (NullifierPublicKey × Identifier)) (id : AccountId) (caller : ProgramId)
      (seed : PdaSeed)
      → seed_form host key id caller seed ≡ some true
      → Derives key id caller seed
  unfolding seed_form
  seed_form-Derives none id caller seed h = ground arith
  seed_form-Derives (some (npk, identifier)) id caller seed h =
      let e : id ≡ for_private_pda host caller seed npk identifier = ground arith in
      ((npk, identifier), refl, e)

  find_seed-Derives :
      (key : Option (NullifierPublicKey × Identifier)) (id : AccountId) (caller : ProgramId)
      (seeds : List PdaSeed) {seed : PdaSeed}
      → find_seed host key id caller seeds ≡ some (seed, true)
      → Derives key id caller seed
  unfolding find_seed
  find_seed-Derives key id caller [] h = cc h
  find_seed-Derives key id caller (s ∷ seeds) {seed} h =
      elim (Option-cases (seed_form host key id caller s)) [
        | inl e ↦ find_seed-Derives key id caller seeds (rw e at h)
        | inr (form, e) ↦
            let found : some (s, form) ≡ some (seed, true) = rw e at h in
            let same : s ≡ seed = cc found in
            let private_form : form ≡ true = cc found in
            subst (Derives key id caller) same
              (seed_form-Derives key id caller s (cc (e, private_form)))
      ]

  pub matched-Derives :
      (key : Option (NullifierPublicKey × Identifier)) (id : AccountId) (caller : Option ProgramId)
      (seeds : List PdaSeed) {seed : PdaSeed} {program_id : ProgramId}
      → matched_caller_seed host key id caller seeds ≡ some (seed, true, program_id)
      → Derives key id program_id seed
  unfolding matched_caller_seed
  matched-Derives key id none seeds h = cc h
  matched-Derives key id (some caller) seeds {seed} {program_id} h =
      elim (Option-cases (find_seed host key id caller seeds)) [
        | inl e ↦ let nothing = rw e at h in cc nothing
        | inr ((s, form), e) ↦
            let found : some (s, form, caller) ≡ some (seed, true, program_id) = rw e at h in
            let same : caller ≡ program_id = cc found in
            subst (λ p. Derives key id p seed) same
              (find_seed-Derives key id caller seeds (cc (e, found)))
      ]

  pub record_match-eq :
      (families : Families) (bound : Bound) (id : AccountId) (position : ℕ)
      (matched : Option (PdaSeed × Bool × ProgramId)) {result : Families × Bound}
      → record_match host families bound id position matched ≡ ok result
      → (result.1 ≡ bound)
        ⊎ ((seed : PdaSeed) × (program_id : ProgramId) × (matched ≡ some (seed, true, program_id))
            × IsBoundTo bound position program_id seed result.1)
  unfolding record_match
  record_match-eq families bound id position none h = inl (cc h)
  record_match-eq families bound id position (some (seed, false, caller)) h =
      let (fs, _, h1) = >>=-eq-ok (assert_family_binding families caller seed id) _ h in inl (cc h1)
  record_match-eq families bound id position (some (seed, true, caller)) {result} h =
      let (fs, _, h1) = >>=-eq-ok (assert_family_binding families caller seed id) _ h in
      let (m, e, h2) = >>=-eq-ok (bind_private_pda_position bound position caller seed) _ h1 in
      let same : m ≡ result.1 = cc h2 in
      inr (
        seed,
        caller,
        refl,
        subst (IsBoundTo bound position caller seed) same
            (bind_private_pda_position-IsBoundTo bound position caller seed e),
      )

  -- A binding that is proven by an account of the state.
  pub record IsProven (s : ExecutionState) (position : ℕ) (program_id : ProgramId) (seed : PdaSeed)
      : Type 0 where
    pub pre : AccountWithMetadata
    pub placed : get_elem? s.pre_states position ≡ some pre
    pub derived :
        Derives (get s.private_pda_npk_by_position position) pre.account_id program_id seed

  abbrev pub AllProven : ExecutionState → Type 0
  AllProven s =
      (position : ℕ) (b : ProgramId × PdaSeed)
      → get s.private_pda_bound_positions position ≡ some b
      → IsProven s position b.0 b.1

  -- The keys and the windows stay, the accounts stay where they are, and bindings stay proven.
  pub record IsKept (s t : ExecutionState) : Type 0 where
    pub keys : t.private_pda_npk_by_position ≡ s.private_pda_npk_by_position
    pub block_window : t.block_validity_window ≡ s.block_validity_window
    pub timestamp_window : t.timestamp_validity_window ≡ s.timestamp_validity_window
    pub proven : AllProven s → AllProven t

  pub IsKept-trans : {s t u : ExecutionState} → IsKept s t → IsKept t u → IsKept s u
  IsKept-trans x y = record {
    keys = y.keys ∙ x.keys;
    block_window = y.block_window ∙ x.block_window;
    timestamp_window = y.timestamp_window ∙ x.timestamp_window;
    proven = λ h. y.proven (x.proven h);
  }

  -- Two states that agree on keys, windows and accounts, where one binding may be new.
  pub rebound-IsKept :
      (s : ExecutionState) (families : Families) (bound : Bound) (position : ℕ)
      (program_id : ProgramId) (seed : PdaSeed)
      → IsBoundTo s.private_pda_bound_positions position program_id seed bound
      → IsProven s position program_id seed
      → IsKept s (record s { pda_family_binding = families; private_pda_bound_positions = bound })
  rebound-IsKept s families bound position program_id seed new proof = record {
    keys = refl;
    block_window = refl;
    timestamp_window = refl;
    proven = λ old j b found. elim (new j b found) [
      | inl e ↦ let p = old j b e in record { pre = p.pre; placed = p.placed; derived = p.derived }
      | inr (at, is) ↦
          rw (at, is) record { pre = proof.pre; placed = proof.placed; derived = proof.derived }
    ];
  }

  pub same_bound-IsKept :
      (s : ExecutionState) (families : Families) (posts : Dict Account)
      → IsKept s (record s { pda_family_binding = families; post_states = posts })
  same_bound-IsKept s families posts = record {
    keys = refl;
    block_window = refl;
    timestamp_window = refl;
    proven = λ old j b found.
        let p = old j b found in record { pre = p.pre; placed = p.placed; derived = p.derived };
  }

  get_elem?-append :
      (pres others : List AccountWithMetadata) (n : ℕ) {pre : AccountWithMetadata}
      → get_elem? pres n ≡ some pre
      → get_elem? (pres ++ others) n ≡ some pre
  get_elem?-append [] others n h = cc h
  get_elem?-append (p ∷ pres) others zero h = h
  get_elem?-append (p ∷ pres) others (suc n) h = get_elem?-append pres others n h

  pub added-IsKept :
      (s : ExecutionState) (pre : AccountWithMetadata)
      → IsKept s (record s { pre_states = s.pre_states ++ pre ∷ [] })
  added-IsKept s pre = record {
    keys = refl;
    block_window = refl;
    timestamp_window = refl;
    proven = λ old j b found.
        let p = old j b found in
        record {
          pre = p.pre;
          placed = get_elem?-append s.pre_states (pre ∷ []) j p.placed;
          derived = p.derived;
        };
  }

  -- The account at the place that has been found.
  position_from-found :
      (n : ℕ) (pres : List AccountWithMetadata) (id : AccountId) {position : ℕ}
      → position_from n pres id ≡ some position
      → (k : ℕ) × (position ≡ n + k)
        × (pre : AccountWithMetadata) × (get_elem? pres k ≡ some pre)
        × (pre.account_id ≡ id)
  unfolding position_from
  position_from-found n [] id h = cc h
  position_from-found n (p ∷ pres) id {position} h = elim (Bool-cases (p.account_id == id)) [
    | inl e ↦
        let found : some n ≡ some position = rw e at h in
        let same : n ≡ position = cc found in (0, omega (arith, same), p, refl, (==_iff _ _).0 e)
    | inr e ↦
        let (k, at, pre, placed, is) = position_from-found (suc n) pres id (rw e at h) in
        (suc k, omega (arith, at), pre, placed, is)
  ]

  pub position_of-found :
      (pres : List AccountWithMetadata) (id : AccountId) {position : ℕ}
      → position_from 0 pres id ≡ some position
      → (pre : AccountWithMetadata) × (get_elem? pres position ≡ some pre) × (pre.account_id ≡ id)
  position_of-found pres id {position} h =
      let (k, at, pre, placed, is) = position_from-found 0 pres id h in
      let same : k ≡ position = omega (arith, at) in
      (pre, subst (λ n. get_elem? pres n ≡ some pre) same placed, is)
