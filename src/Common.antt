-- ===== src/Common.antt =====
-- crates/uchi-pulse-common: the names and messages that the node and the hub share.
pub mod Types
pub mod Message
pub mod Codec
pub mod Cdc
