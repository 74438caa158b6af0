-- ===== src/Core.antt =====
-- nssa/core
pub mod Account
pub mod Window
pub mod Balance
pub mod Program
pub mod Validate
