-- ===== src/Storage.antt =====
-- The package storage/: one SQLite database, and the repositories over it.
pub mod Schema
pub mod Events
pub mod Operations
pub mod Queries
pub mod Delivery
pub mod Retention
