-- ===== src/Programs.antt =====
-- The built-in programs.
pub mod AuthTransfer
pub mod Vault
pub mod Clock
pub mod Ata
