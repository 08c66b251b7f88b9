-- ===== src/Identity.antt =====
-- internal/identity: accounts, their sessions, and how an account is entered.
pub mod Errors
pub mod Types
pub mod Db
pub mod Store
pub mod Tokens
pub mod Validation
pub mod Service
pub mod Materials
pub mod Transactions
pub mod Operations
pub mod Lifecycle
