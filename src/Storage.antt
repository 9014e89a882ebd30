-- ===== src/Storage.antt =====
-- internal/storage: the operations whose logic is in the statements sent to the database, on the rows that
-- they read and write.
pub mod Lock
pub mod Reap
pub mod Schedules
