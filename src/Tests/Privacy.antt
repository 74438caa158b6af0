-- ===== src/Tests/Privacy.antt =====
-- The theorems on the privacy circuit at a program that pays into a new private account.
use logos_execution_zone.Prelude.{
  ℕ, ◌-◌, ◌≡◌, ◌↔◌, refl, true, false, none, some, List, [], ◌∷◌, ◌++◌, map, get, insert, ok, ltb,
  if◌then◌else◌, arith, le_bytes, number_of_bytes,
}
use logos_execution_zone.Core.Account.{
  Account, AccountWithMetadata, account_eq, bytes_eq, default_account,
}
use logos_execution_zone.Core.Balance.{add_balance, add_balances, from_balances}
use logos_execution_zone.Core.Program.{ProgramOutput, pda, post_state, new_claimed}
use logos_execution_zone.Core.Validate.{
  validate_uniqueness_of_account_ids, validate_pair, validate_pairs, validate_total,
  validate_execution,
}
use logos_execution_zone.Core.Window.{is_valid_for, from_range_from, from_range_to, try_from}
use logos_execution_zone.Transactions.{PrivacyPreservingCircuitOutput}
use logos_execution_zone.Privacy.Keys.{
  npk_from, for_regular_private_account, commitment_of, for_account_update,
  for_account_initialization, private_account_nonce_init, private_account_nonce_increment,
  dummy_commitment_hash, digest_for_path, compute_digest_for_path,
}
use logos_execution_zone.Privacy.Kind as Kind
use logos_execution_zone.Privacy.Kind.{to_header_bytes, for_private_pda}
use logos_execution_zone.Privacy.Encoding.{length_bytes, to_bytes}
use logos_execution_zone.Privacy.Cipher.{
  Keystream, IsInvolutive, kdf, symmetric_transform, encrypt, decrypt, decrypt-encrypt,
}
use logos_execution_zone.Privacy.Identity.{
  InputAccountIdentity, public, private_authorized_update, private_pda_init, npk_if_private_pda,
}
use logos_execution_zone.Privacy.Binding.{
  get_family, assert_family_binding, bind_private_pda_position, seed_form, find_seed,
  matched_caller_seed, record_match, resolve_authorization_and_record_bindings,
}
use logos_execution_zone.Privacy.Sync.{
  ExecutionState, position_from, sync_entry, sync_pre_state, check_public_claim,
  check_private_pda_claim, check_claim, sync_claim, sync_pair, validate_and_sync_states,
}
use logos_execution_zone.Privacy.Execution.{
  max_bound, min_bound, intersection, npk_by_position, check_output, process_calls, check_bound,
  check_claimed, derive_from_outputs, initial_state,
}
use logos_execution_zone.Privacy.Execution.Windows.{AllValid}
use logos_execution_zone.Privacy.Execution.Proven.{
  IsDerived, derive_from_outputs-IsDerived, derive_from_outputs-windows_iff,
}
use logos_execution_zone.Privacy.Output.{
  remove, states_of, compute_update_nullifier_and_set_digest, emit_private_output, output_account,
  output_accounts, compute_circuit_output, main,
}
use logos_execution_zone.Privacy.Output.Circuit.{IsDescribed, main-IsDescribed}
use logos_execution_zone.Tests.World.{host, digest}

-- A key stream of ones.
abbrev flip : ℕ → ℕ
flip byte = if ltb byte 256 then 255 - byte else byte

flip-flip : (byte : ℕ) → flip (flip byte) ≡ byte
flip-flip byte = ground arith

abbrev flipped : Keystream
flipped key bytes = map flip bytes

flipped-IsInvolutive : IsInvolutive flipped
flipped-IsInvolutive key [] = refl
flipped-IsInvolutive key (byte ∷ bytes) = cc (flip-flip byte, flipped-IsInvolutive key bytes)

abbrev owned : (owner balance : ℕ) → Account
owned owner balance = record {
  program_owner = owner;
  balance = balance;
  account_data = [];
  nonce = 8;
}

decrypt-encrypt_example :
    (ciphertext : List ℕ) × (encrypt host flipped (owned 3 100) (Kind.pda 3 4 5) 6 7 2
      ≡ ok ciphertext)
    × (decrypt host flipped ciphertext 6 7 2 ≡ some (Kind.pda 3 4 5, owned 3 100))
decrypt-encrypt_example =
    decrypt-encrypt host flipped flipped-IsInvolutive (owned 3 100) (Kind.pda 3 4 5) 6 7 2
      (record {
        owner_range = omega arith;
        balance_range = omega arith;
        nonce_range = omega arith;
        data_range = omega arith;
      })
      (omega arith, omega arith, omega arith)

-- The owner's private account with the secret key 77, and a new one that program 3 derives from seed
-- 4 and the key 55.
abbrev old_id : ℕ
old_id = for_regular_private_account host (npk_from host 77) 9

abbrev new_id : ℕ
new_id = for_private_pda host 3 4 55 5

abbrev shown : AccountWithMetadata
shown = record { account = owned 3 10; is_authorized = false; account_id = 20 }

abbrev old : AccountWithMetadata
old = record { account = owned 3 100; is_authorized = true; account_id = old_id }

abbrev fresh : AccountWithMetadata
fresh = record { account = default_account; is_authorized = false; account_id = new_id }

abbrev paid : Account
paid = record default_account { balance = 40 }

abbrev the_output : ProgramOutput
the_output = record {
  self_program_id = 3;
  caller_program_id = none;
  instruction_data = [];
  pre_states = shown ∷ old ∷ fresh ∷ [];
  post_states = post_state (owned 3 15) ∷ post_state (owned 3 55) ∷ new_claimed paid (pda 4) ∷ [];
  chained_calls = [];
  block_validity_window = from_range_from 5;
  timestamp_validity_window = from_range_to 1000;
}

abbrev identities : List InputAccountIdentity
identities =
    public ∷ private_authorized_update 66 77 (2, 8 ∷ 9 ∷ []) 9 ∷ private_pda_init 55 88 5 ∷ []

abbrev final_state : ExecutionState
final_state =
    record (initial_state host (λ program_id output. true) identities (from_range_from 5)
      (from_range_to 1000)) {
        pre_states = shown ∷ old ∷ fresh ∷ [];
        post_states =
            (20, owned 3 15)
            ∷ (old_id, owned 3 55)
            ∷ (new_id, record paid { program_owner = 3 })
            ∷ [];
        private_pda_bound_positions = (2, (3, 4)) ∷ [];
        pda_family_binding = (3, 4, new_id) ∷ [];
      }

final_state-derived :
    derive_from_outputs host (λ program_id output. true) identities 3 (the_output ∷ [])
    ≡ ok final_state
unfolding digest le_bytes npk_from for_regular_private_account for_private_pda npk_if_private_pda
    get insert account_eq bytes_eq add_balance add_balances from_balances
    validate_uniqueness_of_account_ids validate_pair validate_pairs validate_total
    validate_execution try_from max_bound min_bound intersection npk_by_position check_output
    process_calls check_bound check_claimed derive_from_outputs get_family assert_family_binding
    bind_private_pda_position seed_form find_seed matched_caller_seed record_match
    resolve_authorization_and_record_bindings position_from sync_entry sync_pre_state
    check_public_claim check_private_pda_claim check_claim sync_claim sync_pair
    validate_and_sync_states
final_state-derived = refl

derive_from_outputs-IsDerived_example :
    IsDerived host (λ program_id output. true) final_state 2 (private_pda_init 55 88 5)
derive_from_outputs-IsDerived_example =
    derive_from_outputs-IsDerived host (λ program_id output. true) identities 3 (the_output ∷ [])
      final_state-derived 2 refl refl

derive_from_outputs-windows_iff_example :
    ((is_valid_for final_state.block_validity_window 6 ≡ true)
      ↔ AllValid (from_range_from 5 ∷ []) 6)
    × ((is_valid_for final_state.timestamp_validity_window 6 ≡ true)
        ↔ AllValid (from_range_to 1000 ∷ []) 6)
derive_from_outputs-windows_iff_example =
    derive_from_outputs-windows_iff host (λ program_id output. true) identities 3 (the_output ∷ [])
      final_state-derived 6

-- The secret account is spent and the new one is initialised.
abbrev spent : ℕ
spent = commitment_of host old_id (owned 3 100)

abbrev left : Account
left = record (owned 3 55) { nonce = private_account_nonce_increment host 8 77 }

abbrev made : Account
made = record {
  program_owner = 3;
  balance = 40;
  account_data = [];
  nonce = private_account_nonce_init host new_id;
}

abbrev hidden : List ℕ → Account → List ℕ
hidden header account = map flip (
    header
    ++ le_bytes 32 account.program_owner
    ++ le_bytes 16 account.balance
    ++ le_bytes 16 account.nonce
    ++ le_bytes 4 0)

abbrev circuit_output : PrivacyPreservingCircuitOutput
circuit_output = record {
  public_pre_states = shown ∷ [];
  public_post_states = owned 3 15 ∷ [];
  ciphertexts =
      hidden (to_header_bytes (Kind.regular 9)) left
      ∷ hidden (to_header_bytes (Kind.pda 3 4 5)) made
      ∷ [];
  new_commitments = commitment_of host old_id left ∷ commitment_of host new_id made ∷ [];
  new_nullifiers =
      (for_account_update host spent 77, compute_digest_for_path host spent (2, 8 ∷ 9 ∷ []))
      ∷ (for_account_initialization host new_id, dummy_commitment_hash)
      ∷ [];
  block_validity_window = from_range_from 5;
  timestamp_validity_window = from_range_to 1000;
}

circuit_output-made :
    main host flipped (λ program_id output. true) identities 3 (the_output ∷ []) ≡ ok circuit_output
unfolding digest le_bytes number_of_bytes npk_from for_regular_private_account for_private_pda
    npk_if_private_pda get insert account_eq bytes_eq add_balance add_balances from_balances
    validate_uniqueness_of_account_ids validate_pair validate_pairs validate_total
    validate_execution try_from max_bound min_bound intersection npk_by_position check_output
    process_calls check_bound check_claimed derive_from_outputs get_family assert_family_binding
    bind_private_pda_position seed_form find_seed matched_caller_seed record_match
    resolve_authorization_and_record_bindings position_from sync_entry sync_pre_state
    check_public_claim check_private_pda_claim check_claim sync_claim sync_pair
    validate_and_sync_states remove states_of compute_update_nullifier_and_set_digest
    emit_private_output output_account output_accounts compute_circuit_output main commitment_of
    for_account_update for_account_initialization private_account_nonce_init
    private_account_nonce_increment digest_for_path compute_digest_for_path dummy_commitment_hash
    to_header_bytes length_bytes to_bytes kdf symmetric_transform encrypt
circuit_output-made = refl

main-IsDescribed_example :
    IsDescribed host flipped
      (λ program_id output. true)
      identities
      3
      (the_output ∷ [])
      circuit_output
main-IsDescribed_example =
    main-IsDescribed host flipped (λ program_id output. true) identities 3 (the_output ∷ [])
      (
        (
          (omega arith, (omega arith, (omega arith, tt))),
          (omega arith, (omega arith, (omega arith, tt))),
        ),
        tt,
      )
      circuit_output-made
