-- ===== src/Hub.antt =====
-- apps/uchi-pulse-hub: the hub's state, its actions, and the handling of one datagram.
pub mod Database
pub mod State
pub mod Action
pub mod Udp
pub mod Cdc
