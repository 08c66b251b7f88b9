-- ===== src/Examples.antt =====
-- The results at concrete inputs.
pub mod Memory
pub mod Setup
pub mod Rows
mod Identity
mod Tokens
mod Pairing
mod Credentials
mod Finality
mod Limits
mod Relay
