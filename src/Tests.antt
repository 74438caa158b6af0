-- ===== src/Tests.antt =====
-- Runs of the model on concrete accounts, tokens and transactions.
mod Amm
mod Coding
mod World
mod Core
mod Programs
mod Tokens
mod Privacy
mod Transitions
mod Spends
mod Forged
