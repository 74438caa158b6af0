-- ===== src/Programs/Ata/Paid.antt =====
-- What a transfer from an associated account is, and the token transfer that it calls.
use logos_execution_zone.Prelude.{
  ℕ, String, ◌≡◌, ◌↔◌, ◌⊎◌, inl, inr, refl, true, none, some, [], ◌∷◌, ◌++◌, Guest, ok, err, panic,
  >>=-eq-ok, assert, assert-eq-ok, expect, expect-eq-ok, ◌==◌, ==_iff, le_bytes,
}
use logos_execution_zone.Core.Account.{AccountId, ProgramId, AccountWithMetadata}
use logos_execution_zone.Core.Program.{AccountPostState, PdaSeed}
use logos_execution_zone.Host.{Host, for_public_pda}
use logos_execution_zone.Token.Core.{Codec, IsCodec, TokenHolding, definition_id_of}
use logos_execution_zone.Token.Core as Token
use logos_execution_zone.Token.Program.{run_instruction}
use logos_execution_zone.Token.Transfer.Moves.{IsTransfer, transfer-IsTransfer}
use logos_execution_zone.Programs.Ata.{
  TokenWords, Effects, compute_ata_seed, get_associated_token_account_id, verify_ata_and_get_seed,
  transfer_from_associated_token_account,
}

-- The account with the flag that says that it is authorised.
abbrev pub opened : AccountWithMetadata → AccountWithMetadata
opened pre = record { account = pre.account; is_authorized = true; account_id = pre.account_id }

-- The account as it came.
abbrev kept : AccountWithMetadata → AccountPostState
kept pre = record { account = pre.account; claim = none }

-- A program that panics, or returns what has the property.
abbrev pub PanicsOr : {A : Type 0} → (A → Type 0) → Guest A → Type 0
PanicsOr {A} P result =
    ((message : String) × (result ≡ panic message)) ⊎ ((a : A) × (result ≡ ok a) × P a)

returned_or_panicked :
    {A : Type 0} (P : A → Type 0) (result : Guest A)
    → ((a : A) → result ≡ ok a → P a)
    → PanicsOr P result
returned_or_panicked P (ok a) h = inr (a, refl, h a refl)
returned_or_panicked P (err e) h = elim e [ ]
returned_or_panicked P (panic m) h = inl (m, refl)

module _ (host : Host) (codec : Codec) (token_words : TokenWords) where
  -- The seed that the owner and the token determine.
  abbrev pub ata_seed : AccountWithMetadata → AccountId → PdaSeed
  ata_seed owner token = host.sha256 (le_bytes 32 owner.account_id ++ le_bytes 32 token)

  -- What a transfer returns: the accounts as they came, and one call of the program that owns the
  -- sender's account.
  abbrev pub ata_effects :
      AccountWithMetadata → AccountWithMetadata → AccountWithMetadata → ℕ → AccountId → Effects
  ata_effects owner sender_ata recipient amount token = (
    kept owner ∷ kept sender_ata ∷ kept recipient ∷ [],
    record {
      program_id = sender_ata.account.program_owner;
      pre_states = opened sender_ata ∷ recipient ∷ [];
      instruction_data = token_words (Token.transfer amount);
      pda_seeds = ata_seed owner token ∷ [];
    }
        ∷ [],
  )

  -- The owner signed, and the sender's account is the one that the program derives for this owner and
  -- the token that is held there.
  abbrev pub IsOwnTransfer :
      AccountWithMetadata
      → AccountWithMetadata
      → AccountWithMetadata
      → ProgramId
      → ℕ
      → Effects
      → Type 0
  IsOwnTransfer owner sender_ata recipient program_id amount effects =
      (holding : TokenHolding) × (owner.is_authorized ≡ true)
      × (codec.decode_holding sender_ata.account.account_data ≡ some holding)
      × (sender_ata.account_id
          ≡ for_public_pda host program_id (ata_seed owner (definition_id_of holding)))
      × (effects ≡ ata_effects owner sender_ata recipient amount (definition_id_of holding))

  verify_ata_and_get_seed_exact :
      (ata owner : AccountWithMetadata) (token : AccountId) (program_id : ProgramId)
      (seed : PdaSeed)
      → (verify_ata_and_get_seed host ata owner token program_id ≡ ok seed) ↔ (
          (seed ≡ ata_seed owner token)
          × (ata.account_id ≡ for_public_pda host program_id (ata_seed owner token)))
  unfolding verify_ata_and_get_seed get_associated_token_account_id compute_ata_seed
  verify_ata_and_get_seed_exact ata owner token program_id seed =
      let message : String = "ATA account ID does not match expected derivation" in
      let derived = for_public_pda host program_id (ata_seed owner token) in
      (
        λ h.
            let (_, test, h1) = >>=-eq-ok (assert (ata.account_id == derived) message) _ h in
            (cc h1, (==_iff ata.account_id derived).0 (assert-eq-ok _ message test)),
        λ right. let test = (==_iff ata.account_id derived).1 (right.1) in rw (test, right.0) refl,
      )

  transfer_from_associated_token_account_exact :
      (owner sender_ata recipient : AccountWithMetadata) (program_id : ProgramId) (amount : ℕ)
      (effects : Effects)
      → (transfer_from_associated_token_account host codec token_words owner sender_ata recipient
            program_id amount
          ≡ ok effects)
        ↔ IsOwnTransfer owner sender_ata recipient program_id amount effects
  unfolding transfer_from_associated_token_account
  transfer_from_associated_token_account_exact owner sender_ata recipient program_id amount
        effects =
      let missing : String = "Owner authorization is missing" in
      let invalid : String = "Sender ATA must hold a valid token" in
      (
        λ h.
            let (_, signed, h1) = >>=-eq-ok (assert owner.is_authorized missing) _ h in
            let (holding, held, h2) =
              >>=-eq-ok (expect (codec.decode_holding sender_ata.account.account_data) invalid) _
                h1 in
            let (seed, verified, h3) =
              >>=-eq-ok
                (verify_ata_and_get_seed host sender_ata owner (definition_id_of holding)
                  program_id)
                _ h2 in
            let (seed_is, derived) =
              (verify_ata_and_get_seed_exact sender_ata owner (definition_id_of holding) program_id
                  seed).0
                verified in
            (
              holding,
              assert-eq-ok owner.is_authorized missing signed,
              expect-eq-ok _ invalid held,
              derived,
              cc (h3, seed_is),
            ),
        λ (holding, signed, held, derived, result).
            let token = definition_id_of holding in
            let allowed : assert {E = ⊥} owner.is_authorized missing ≡ ok tt = rw signed refl in
            let decoded : expect {E = ⊥} (codec.decode_holding sender_ata.account.account_data)
                  invalid
                ≡ ok holding =
              rw held refl in
            let verified =
              (verify_ata_and_get_seed_exact sender_ata owner token program_id
                  (ata_seed owner token)).1
                (refl, derived) in
            rw (allowed, decoded, verified, result) refl,
      )

  -- A transfer from an associated account returns exactly if the owner signed and the sender's account
  -- holds a token and is the one that the program derives for this owner and this token. It returns
  -- the accounts as they came and exactly one call: to the program that owns the sender's account,
  -- to transfer the amount from it, authorised, to the recipient, with the seed of that account and
  -- no other. With encodings that decode to what was encoded, the token transfer on the accounts of
  -- that call panics, or moves `amount` units of one token from the sender's account to the
  -- recipient's.
  pub transfer_from_associated_token_account-IsTransfer :
      (laws : IsCodec codec) (owner sender_ata recipient : AccountWithMetadata)
      (program_id : ProgramId) (amount : ℕ) (effects : Effects)
      → ((transfer_from_associated_token_account host codec token_words owner sender_ata recipient
              program_id amount
            ≡ ok effects)
          ↔ IsOwnTransfer owner sender_ata recipient program_id amount effects)
        × PanicsOr
            (IsTransfer codec (opened sender_ata) recipient amount)
            (run_instruction codec (Token.transfer amount) (opened sender_ata ∷ recipient ∷ []))
  unfolding run_instruction
  transfer_from_associated_token_account-IsTransfer laws owner sender_ata recipient program_id
        amount effects =
      (
        transfer_from_associated_token_account_exact owner sender_ata recipient program_id amount
            effects,
        returned_or_panicked (IsTransfer codec (opened sender_ata) recipient amount)
            (run_instruction codec (Token.transfer amount) (opened sender_ata ∷ recipient ∷ []))
            (λ posts h. transfer-IsTransfer codec laws (opened sender_ata) recipient amount h),
      )
