-- ===== src/Binlog.antt =====
-- Positions in the binary log, sets of transactions and row events: include/binlog and src/binlog.
pub mod Coordinates
pub mod Gtid
pub mod Rows
pub mod Entry
pub mod Reader
