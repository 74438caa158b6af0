-- ===== src/Amm.antt =====
-- programs/amm and program_methods/guest/src/bin/amm.rs: pools of two tokens. The guest is a release
-- build, in which `+`, `-` and `*` wrap around and a division by zero panics.
pub mod Core
pub mod Calls
pub mod Arithmetic
pub mod Swap
pub mod Add
pub mod Remove
pub mod New
pub mod Program
