-- ===== src/Connectors.antt =====
-- The connectors component (internal/connectors): accounts pair OpenCode connectors with client
-- devices, and both obtain relay tickets with the credentials that a pairing issues.
pub mod Types
pub mod Errors
pub mod Tx
pub mod Schemas
pub mod Store
pub mod Library
pub mod Tokens
pub mod Service
pub mod Pairing
pub mod Credential
pub mod Listing
pub mod Revoke
pub mod Ticket
pub mod Admissions
pub mod Lifecycle
