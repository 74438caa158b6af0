-- ===== src/Privacy/Cipher.antt =====
-- nssa/core/src/encryption/mod.rs: the encryption of private accounts. The key stream of `chacha20` is a
-- parameter.
use logos_execution_zone.Prelude.{
  ℕ, ◌≡◌, refl, subst, ap, ◌∙◌, and_then, and_then-some, Option, some, List, [], ◌++◌, codes,
  length, le_bytes, read_exact, Guest, ok, ◌>>=◌,
}
use logos_execution_zone.Core.Account.{Account}
use logos_execution_zone.Host.{Host}
use logos_execution_zone.Transactions.{Commitment}
use logos_execution_zone.Privacy.Kind.{
  PrivateAccountKind, regular, pda, KindInRange, header_len, to_header_bytes, from_header_bytes,
  from_header_bytes-to_header_bytes,
}
use logos_execution_zone.Privacy.Encoding.{
  AccountInRange, to_bytes, from_cursor, from_cursor-to_bytes, read_exact-length,
}
use mathlib.Core.List.{append-nil}

abbrev pub SharedSecretKey : Type 0
SharedSecretKey = ℕ

-- `ChaCha20::new(key, [0; 12])` and `apply_keystream`, on the number of the key's bytes
abbrev pub Keystream : Type 0
Keystream = ℕ → List ℕ → List ℕ

-- A key stream is added bit by bit, so that adding it again takes it away.
abbrev pub IsInvolutive : Keystream → Type 0
IsInvolutive apply = (key : ℕ) (bytes : List ℕ) → apply key (apply key bytes) ≡ bytes

module _ (host : Host) (apply_keystream : Keystream) where
  unfoldable pub kdf : SharedSecretKey → Commitment → ℕ → ℕ
  kdf shared_secret commitment output_index = host.sha256 (
      codes "NSSA/v0.2/KDF-SHA256/"
      ++ le_bytes 32 shared_secret
      ++ le_bytes 32 commitment
      ++ le_bytes 4 output_index)

  unfoldable pub symmetric_transform : List ℕ → SharedSecretKey → Commitment → ℕ → List ℕ
  unfolding kdf
  symmetric_transform buffer shared_secret commitment output_index =
      apply_keystream (kdf shared_secret commitment output_index) buffer

  unfoldable pub encrypt :
      Account → PrivateAccountKind → SharedSecretKey → Commitment → ℕ → Guest (List ℕ)
  unfolding to_header_bytes to_bytes symmetric_transform
  encrypt account kind shared_secret commitment output_index = do
    account_bytes ← to_bytes account
    ok (
        symmetric_transform (to_header_bytes kind ++ account_bytes) shared_secret commitment
          output_index)

  unfoldable pub decrypt :
      List ℕ → SharedSecretKey → Commitment → ℕ → Option (PrivateAccountKind × Account)
  unfolding from_header_bytes from_cursor symmetric_transform and_then
  decrypt ciphertext shared_secret commitment output_index =
      and_then
        (read_exact header_len
          (symmetric_transform ciphertext shared_secret commitment output_index))
        λ split.
          and_then (from_header_bytes split.0)
            λ kind. and_then (from_cursor split.1) λ read. some (kind, read.0)

  length-to_header_bytes : (kind : PrivateAccountKind) → length (to_header_bytes kind) ≡ header_len
  unfolding to_header_bytes le_bytes
  length-to_header_bytes (regular identifier) = refl
  length-to_header_bytes (pda program_id seed identifier) = refl

  read_header :
      (kind : PrivateAccountKind) (rest : List ℕ)
      → read_exact header_len (to_header_bytes kind ++ rest) ≡ some (to_header_bytes kind, rest)
  read_header kind rest =
      subst (λ n. read_exact n (to_header_bytes kind ++ rest) ≡ some (to_header_bytes kind, rest))
        (length-to_header_bytes kind) (read_exact-length (to_header_bytes kind) rest)

  -- With a key stream that takes itself away, encryption of an account in range under a kind in
  -- range returns, and decryption with the same secret, commitment and index gives both back.
  pub decrypt-encrypt :
      IsInvolutive apply_keystream
      → (account : Account) (kind : PrivateAccountKind) (secret : SharedSecretKey)
        (commitment : Commitment) (index : ℕ)
      → AccountInRange account
      → KindInRange kind
      → (ciphertext : List ℕ) × (encrypt account kind secret commitment index ≡ ok ciphertext)
        × (decrypt ciphertext secret commitment index ≡ some (kind, account))
  unfolding encrypt decrypt
  decrypt-encrypt involutive account kind secret commitment index fits kind_fits =
      let (bytes, encoded, decoded) = from_cursor-to_bytes account [] fits in
      let key = kdf secret commitment index in
      let plain = to_header_bytes kind ++ bytes in
      let back : from_cursor bytes ≡ some (account, []) = rw append-nil at decoded in
      (
        apply_keystream key plain,
        rw encoded refl,
        (and_then-some _
              (ap (read_exact header_len) (involutive key plain) ∙ read_header kind bytes)
            ∙ and_then-some _ (from_header_bytes-to_header_bytes kind kind_fits)
            ∙ and_then-some _ back),
      )
