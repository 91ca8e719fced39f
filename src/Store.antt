-- ===== src/Store.antt =====
-- The SQLite file that the hub, uchi-pulse-control and uchi-pulse-settings share: its tables with
-- the constraints of their schema, and a connection to it.
pub mod Tables
pub mod Schema
pub mod Sqlite
pub mod Statements
mod Tests
