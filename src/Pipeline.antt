-- ===== src/Pipeline.antt =====
-- internal/pipeline: a scan, and what it changed.
pub mod Diff
pub mod Findings
pub mod Handoff
pub mod Run
