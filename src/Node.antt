-- ===== src/Node.antt =====
-- apps/uchi-pulse-node: the child device.
pub mod Config
pub mod Detector
pub mod Input
pub mod Udp
pub mod Storage
pub mod Delivery
pub mod Cdc
pub mod Flash
pub mod Discovery
pub mod Network
pub mod InputTask
