-- ===== src/Sched.antt =====
-- internal/daemon/intervalsched: the master ticker and the parts it is made of.
pub mod Locks
pub mod Rules
pub mod Blackout
pub mod Expander
pub mod Overlap
pub mod Recompute
pub mod Pool
pub mod Ticker
pub mod Window
