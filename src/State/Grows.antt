-- ===== src/State/Grows.antt =====
-- Applying a diff forgets nothing: spent nullifiers, commitments, recognised roots and programs.
use logos_execution_zone.Prelude.{
  ℕ, ◌≡◌, refl, ◌++◌, true, false, ◌||◌, Option, none, some, List, [], ◌∷◌, Dict, get, insert,
  get-insert, contains_key, contains, and_then-eq-some, ◌==◌, arith,
}
use logos_execution_zone.Core.Account.{ProgramId}
use logos_execution_zone.Transactions.{Commitment, Nullifier, CommitmentSetDigest}
use logos_execution_zone.Host.{Host}
use logos_execution_zone.Merkle
use logos_execution_zone.State.{
  Program, CommitmentSet, State, StateDiff, insert_optional_program, insert_commitments,
  extend_commitments, extend_nullifiers, increment_nonces, write_accounts, apply_state_diff,
}

-- All that `state` has seen, `next` has seen.
pub record Grows (state next : State) : Type 0 where
  pub nullifiers :
      (n : Nullifier) → contains state.nullifier_set n ≡ true → contains next.nullifier_set n ≡ true
  pub commitments :
      (c : Commitment)
      → contains_key state.commitment_set.commitments c ≡ true
      → contains_key next.commitment_set.commitments c ≡ true
  pub roots :
      (digest : CommitmentSetDigest)
      → contains state.commitment_set.root_history digest ≡ true
      → contains next.commitment_set.root_history digest ≡ true
  pub programs :
      (id : ProgramId) (program : Program)
      → get state.programs id ≡ some program
      → get next.programs id ≡ some program

pub Grows-refl : (state : State) → Grows state state
Grows-refl state = record {
  nullifiers = λ n h. h;
  commitments = λ c h. h;
  roots = λ digest h. h;
  programs = λ id program h. h;
}

pub Grows-trans :
    (first second third : State) → Grows first second → Grows second third → Grows first third
Grows-trans first second third p q = record {
  nullifiers = λ n h. q.nullifiers n (p.nullifiers n h);
  commitments = λ c h. q.commitments c (p.commitments c h);
  roots = λ digest h. q.roots digest (p.roots digest h);
  programs = λ id program h. q.programs id program (p.programs id program h);
}

pub contains-append :
    (new old : List ℕ) (n : ℕ) → contains (new ++ old) n ≡ (contains new n || contains old n)
contains-append [] old n = refl
contains-append (x ∷ new) old n = ground (arith, contains-append new old n)

-- A program that a diff brings has an identifier that is free.
abbrev pub IsNewProgram : State → Option Program → Type 0
IsNewProgram state none = Unit
IsNewProgram state (some program) = contains_key state.programs program.id ≡ false

insert_optional_program-get :
    (state : State) (program : Option Program) (id : ProgramId) (p : Program)
    → IsNewProgram state program
    → get state.programs id ≡ some p
    → get (insert_optional_program program state.programs) id ≡ some p
insert_optional_program-get state none id p new h = h
insert_optional_program-get state (some program) id p new h =
    ground (arith, get-insert program.id id program state.programs)

contains_key-insert :
    (k j : ℕ) (v : ℕ) (m : Dict ℕ) → contains_key (insert k v m) j ≡ ((k == j) || contains_key m j)
contains_key-insert k j v m = ground (arith, get-insert k j v m)

module _ (host : Host) where
  -- The commitments that are inserted are found, and so are those from before; the roots stay.
  insert_commitments-keeps :
      (new : List Commitment) (set : CommitmentSet) {next : CommitmentSet} (c : Commitment)
      → insert_commitments host new set ≡ some next
      → (contains_key next.commitments c ≡ (contains new c || contains_key set.commitments c))
        × (next.root_history ≡ set.root_history)
  unfolding insert_commitments
  insert_commitments-keeps [] set c h = (ground arith, ground arith)
  insert_commitments-keeps (commitment ∷ new) set c h =
      let (placed, e, rest) =
        and_then-eq-some (Merkle.insert host.sha256 commitment set.merkle_tree) _ h in
      let (found, same) = insert_commitments-keeps new _ c rest in
      (
        ground (arith, found, contains_key-insert commitment c placed.0 set.commitments),
        ground (arith, same),
      )

  pub extend_commitments-keeps :
      (new : List Commitment) (set : CommitmentSet) {next : CommitmentSet} (c : Commitment)
      → extend_commitments host new set ≡ some next
      → (contains_key next.commitments c ≡ (contains new c || contains_key set.commitments c))
        × ((digest : CommitmentSetDigest) × (next.root_history ≡ digest ∷ set.root_history))
  unfolding extend_commitments
  extend_commitments-keeps new set c h =
      let (inserted, e, h1) = and_then-eq-some (insert_commitments host new set) _ h in
      let (digest, e2, h2) = and_then-eq-some (Merkle.root inserted.merkle_tree) _ h1 in
      let (found, same) = insert_commitments-keeps new set c e in
      (ground (arith, found, h2), (digest, ground (arith, same, h2)))

  -- What a diff adds to the sets of the state.
  pub apply_state_diff-sets :
      (state : State) (diff : StateDiff) {next : State}
      → apply_state_diff host state diff ≡ some next
      → (extend_commitments host diff.new_commitments state.commitment_set
          ≡ some next.commitment_set)
        × (next.nullifier_set ≡ extend_nullifiers diff.new_nullifiers state.nullifier_set)
        × (next.programs ≡ insert_optional_program diff.program state.programs)
  unfolding apply_state_diff
  apply_state_diff-sets state diff h =
      let (accounts, e1, h1) =
        and_then-eq-some
          (increment_nonces diff.signer_account_ids
            (write_accounts diff.public_diff state.public_state))
          _ h in
      let (commitments, e2, h2) =
        and_then-eq-some (extend_commitments host diff.new_commitments state.commitment_set) _ h1 in
      (ground (arith, e2, h2), ground (arith, h2), ground (arith, h2))

  pub apply_state_diff-Grows :
      (state : State) (diff : StateDiff) {next : State}
      → IsNewProgram state diff.program
      → apply_state_diff host state diff ≡ some next
      → Grows state next
  apply_state_diff-Grows state diff new h =
      let (extended, spent, deployed) = apply_state_diff-sets state diff h in
      record {
        nullifiers = λ n seen.
            rw spent (ground (arith, contains-append diff.new_nullifiers state.nullifier_set n));
        commitments = λ c seen. ground (
          arith,
          (extend_commitments-keeps diff.new_commitments state.commitment_set c extended).0,
        );
        roots = λ digest known.
            let (_, (root, e)) =
              extend_commitments-keeps diff.new_commitments state.commitment_set 0 extended in
            rw e (ground (arith, known));
        programs = λ id program found.
            rw deployed (insert_optional_program-get state diff.program id program new found);
      }
