-- ===== src/Lib.antt =====
-- The Logos Execution Zone: accounts owned by programs, changed by public transactions, by
-- privacy preserving transactions with a proof, and by the deployment of programs.
--
-- A public transaction names a program and accounts. Its signatures and nonces are checked, the
-- program runs on the accounts, and so do the programs that it calls in turn; each output is
-- checked against the state and the rules of a well-behaved program, and the writes are collected
-- in a diff. A privacy preserving transaction carries the writes, new commitments and spent
-- nullifiers, with a proof. The sequencer refuses diffs that touch the clock, and applies the
-- others to the state. The built-in programs run inside the executor: each is a function from its
-- accounts and its instruction to post states and calls.
--
-- Files, with the code that each is about:
-- - Prelude: shared names; Rust results with panics, machine words, maps as association lists.
-- - Core: nssa/core/src/account.rs and nssa/core/src/program.rs. Core/Account has accounts and
--   nonces, Core/Program the inputs and outputs of programs, Core/Window validity windows,
--   Core/Balance the sum of balances in two words, Core/Validate `validate_execution`.
-- - Host: what comes from other crates, as a record of functions: SHA-256, Schnorr signatures,
--   borsh of messages, the executor, image identifiers and receipts of risc0. The identifiers and
--   hashes that the program derives from them are definitions.
-- - Merkle: nssa/src/merkle_tree. State: nssa/src/state.rs and nssa/src/error.rs.
-- - Transactions: the data of the three kinds of transactions and of the circuit's output.
-- - Diff: nssa/src/validated_state_diff.rs. Diff/Checks has signatures and nonces, Diff/Call one
--   round of the loop over chained calls, Diff/Public, Diff/Private and Diff/Deploy the three
--   kinds of transactions with the transitions of nssa/src/state.rs.
-- - Transaction: common/src/transaction.rs and the steps of the chain.
-- - Approval: lez-approval/src/lib.rs. Token: programs/token and the guest token.rs.
-- - Amm: programs/amm, with the guest amm.rs. Amm/Core has pools and their derived accounts, and one
--   module each is about swap.rs, add.rs, remove.rs and new_definition.rs; Amm/Calls writes out token
--   calls for the statements about them.
-- - Privacy: the guest privacy_preserving_circuit. Privacy/Keys has the identifiers, commitments and
--   nullifiers of nssa/core/src/nullifier.rs, commitment.rs and account.rs; Privacy/Kind,
--   Privacy/Encoding and Privacy/Cipher the bytes and the encryption of private accounts;
--   Privacy/Identity the identities of nssa/core/src/circuit_io.rs; Privacy/Binding, Privacy/Sync and
--   Privacy/Execution execution_state.rs; Privacy/Output output.rs and main.rs.
-- - Programs: the guests authenticated_transfer.rs, vault.rs, faucet.rs, clock.rs and
--   associated_token_account.rs (Programs/Ata) of program_methods/guest/src/bin, with the crates of
--   their names under programs.
-- - Tests: the model on concrete values. Tests/Forged runs two programs that authorise an account
--   between them in a transaction that nobody has signed.
--
-- Conventions. Bytes, words and identifiers are natural numbers; a 32-byte value is the number
-- whose little-endian bytes it is. Wrapping and overflow of u64 and u128 are written out. A hash
-- map is an association list, a hash set a list. `Result` has the cases `ok`, `err` and `panic`;
-- where a function can only panic, `none` is the panic. The loop over chained calls has as many
-- rounds as the bound of the source leaves: the counter fails its test exactly if no round is
-- left. The loops over the levels of the Merkle tree take at most 64 rounds, the bits of a usize,
-- or the depth of the tree. The loop over the outputs in the circuit is recursion on the outputs.
-- `isqrt` of the standard library is the floor of the square root, found bit by bit in 64 rounds,
-- which are enough for a u128.
--
-- Not modelled: the prover and the receipts of risc0, which are functions of the host; the key
-- stream of chacha20; the exchange of shared secrets; the test network's programs; genesis;
-- blocks, mempool, storage, wallet, indexer and network services; the encodings of borsh and
-- serde, which are parameters with a round trip as their law where a theorem needs one.
pub mod Prelude
pub mod Core
pub mod Merkle
pub mod Transactions
pub mod Host
pub mod State
pub mod Diff
pub mod Transaction
pub mod Approval
pub mod Token
pub mod Programs
pub mod Amm
pub mod Privacy
pub mod Tests
