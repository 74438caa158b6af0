-- ===== src/Token.antt =====
-- programs/token and program_methods/guest/src/bin/token.rs.
pub mod Core
pub mod Transfer
pub mod Supply
pub mod Define
pub mod Program
