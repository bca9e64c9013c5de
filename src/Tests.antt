-- ===== src/Tests.antt =====
-- Test data, and each property at a concrete input.
pub mod Data
mod Migrator
mod Applier
mod Throttling
mod Statements
mod Settings
mod Rows
mod Queues
mod Texts
mod Positions
mod Transactions
mod Runs
mod Parsing
mod Console
mod Endings
mod Escapes
mod Programs
mod Pools
mod Connections
