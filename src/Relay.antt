-- ===== src/Relay.antt =====
-- internal/relay: the sockets of devices and connectors, and the frames between them.
pub mod Hub
