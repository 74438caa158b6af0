-- ===== src/Privacy.antt =====
-- The privacy preserving side: private accounts and their keys, and the circuit of
-- program_methods/guest/src/bin/privacy_preserving_circuit that checks private executions.
pub mod Keys
pub mod Kind
pub mod Encoding
pub mod Cipher
pub mod Identity
pub mod Binding
pub mod Sync
pub mod Execution
pub mod Output
