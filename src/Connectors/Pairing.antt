-- ===== src/Connectors/Pairing.antt =====
-- The pairing protocol of internal/connectors/service.go. A connector begins a pairing and shows its
-- user code, a device claims it, the connector approves the device, and the device confirms.
pub mod Begin
pub mod Claim
pub mod Confirm
pub mod Poll
pub mod Approve
pub mod Guesses
pub mod Confirmed
pub mod Claimed
pub mod Expired
pub mod Approved
