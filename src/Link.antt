-- ===== src/Link.antt =====
-- apps/uchi-pulse-node/src/udp.rs and apps/uchi-pulse-hub/src/udp.rs over one wire.
pub mod Handshake
mod Tests
