-- ===== src/Diff.antt =====
-- nssa/src/validated_state_diff.rs: transactions are validated into a diff of the state.
pub mod Checks
pub mod Call
pub mod Public
pub mod Private
pub mod Deploy
