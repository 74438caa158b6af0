-- ===== src/Privacy/Binding.antt =====
-- program_methods/guest/src/bin/privacy_preserving_circuit/execution_state.rs: the bindings of
-- program-derived accounts, and the authorization that a caller's seeds give.
use logos_execution_zone.Prelude.{
  ℕ, Bool, true, false, ◌&&◌, ◌||◌, Option, none, some, List, [], ◌∷◌, Dict, get, insert, Guest, ok,
  ◌>>=◌, ◌>>◌, assert, ◌==◌, if◌then◌else◌,
}
use logos_execution_zone.Core.Account.{AccountId, ProgramId}
use logos_execution_zone.Core.Program.{PdaSeed}
use logos_execution_zone.Host.{Host, for_public_pda}
use logos_execution_zone.Privacy.Keys.{NullifierPublicKey, Identifier}
use logos_execution_zone.Privacy.Kind.{for_private_pda}

-- `HashMap<(ProgramId, PdaSeed), AccountId>`
abbrev pub Families : Type 0
Families = List (ProgramId × PdaSeed × AccountId)

-- `HashMap<usize, (ProgramId, PdaSeed)>`
abbrev pub Bound : Type 0
Bound = Dict (ProgramId × PdaSeed)

unfoldable pub get_family : Families → ProgramId → PdaSeed → Option AccountId
get_family [] program_id seed = none
get_family ((p, s, account_id) ∷ families) program_id seed =
    if (p == program_id) && (s == seed)
    then some account_id
    else get_family families program_id seed

unfoldable pub assert_family_binding : Families → ProgramId → PdaSeed → AccountId → Guest Families
unfolding get_family
assert_family_binding bindings program_id seed account_id =
    elim (get_family bindings program_id seed) [
      | none ↦ ok ((program_id, seed, account_id) ∷ bindings)
      | some existing ↦
          assert (existing == account_id)
            "Two different accounts resolved under the same (program, seed) in one transaction"
          >> ok bindings
    ]

-- The entry of the position: vacant, or bound already.
abbrev pub bind_entry : Bound → ℕ → ProgramId → PdaSeed → Option (ProgramId × PdaSeed) → Guest Bound
bind_entry map position program_id seed none = ok (insert position (program_id, seed) map)
bind_entry map position program_id seed (some (p, s)) =
    assert ((p == program_id) && (s == seed)) "Duplicate binding: conflicting (program_id, seed)"
    >> ok map

unfoldable pub bind_private_pda_position : Bound → ℕ → ProgramId → PdaSeed → Guest Bound
bind_private_pda_position map position program_id seed =
    bind_entry map position program_id seed (get map position)

-- The seed if it has a form, or else what the later seeds give.
abbrev pub or_later : PdaSeed → Option Bool → Option (PdaSeed × Bool) → Option (PdaSeed × Bool)
or_later seed none later = later
or_later seed (some form) later = some (seed, form)

abbrev pub with_caller : ProgramId → Option (PdaSeed × Bool) → Option (PdaSeed × Bool × ProgramId)
with_caller caller none = none
with_caller caller (some (seed, form)) = some (seed, form, caller)

module _ (host : Host) where
  -- Whether a seed of the caller derives the account, and if so whether in the private form.
  unfoldable pub seed_form :
      Option (NullifierPublicKey × Identifier) → AccountId → ProgramId → PdaSeed → Option Bool
  seed_form none account_id caller seed =
      if for_public_pda host caller seed == account_id then some false else none
  seed_form (some (npk, identifier)) account_id caller seed =
      if for_public_pda host caller seed == account_id
      then some false
      else if for_private_pda host caller seed npk identifier == account_id
      then some true
      else none

  -- The first seed of the caller that derives the account, with its form.
  unfoldable pub find_seed :
      Option (NullifierPublicKey × Identifier)
      → AccountId
      → ProgramId
      → List PdaSeed
      → Option (PdaSeed × Bool)
  unfolding seed_form
  find_seed key account_id caller [] = none
  find_seed key account_id caller (seed ∷ seeds) =
      or_later seed (seed_form key account_id caller seed) (find_seed key account_id caller seeds)

  unfoldable pub matched_caller_seed :
      Option (NullifierPublicKey × Identifier)
      → AccountId
      → Option ProgramId
      → List PdaSeed
      → Option (PdaSeed × Bool × ProgramId)
  unfolding find_seed
  matched_caller_seed key account_id none seeds = none
  matched_caller_seed key account_id (some caller) seeds =
      with_caller caller (find_seed key account_id caller seeds)

  -- What a match records.
  unfoldable pub record_match :
      Families
      → Bound
      → AccountId
      → ℕ
      → Option (PdaSeed × Bool × ProgramId)
      → Guest (Families × Bound)
  unfolding assert_family_binding bind_private_pda_position
  record_match families bound account_id position none = ok (families, bound)
  record_match families bound account_id position (some (seed, false, caller)) = do
    families ← assert_family_binding families caller seed account_id
    ok (families, bound)
  record_match families bound account_id position (some (seed, true, caller)) = do
    families ← assert_family_binding families caller seed account_id
    bound ← bind_private_pda_position bound position caller seed
    ok (families, bound)

  abbrev pub is_some : Option (PdaSeed × Bool × ProgramId) → Bool
  is_some none = false
  is_some (some matched) = true

  unfoldable pub resolve_authorization_and_record_bindings :
      Families
      → Bound
      → Option (NullifierPublicKey × Identifier)
      → AccountId
      → ℕ
      → Option ProgramId
      → List PdaSeed
      → Bool
      → Guest (Bool × Families × Bound)
  unfolding matched_caller_seed record_match
  resolve_authorization_and_record_bindings families bound key account_id position caller seeds
        previous_is_authorized =
      do
        let matched = matched_caller_seed key account_id caller seeds
        recorded ← record_match families bound account_id position matched
        ok (previous_is_authorized || is_some matched, recorded.0, recorded.1)
