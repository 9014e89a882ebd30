-- ===== src/Tests.antt =====
-- The theorems at concrete inputs, and runs of the definitions.
mod Samples
mod Plain
mod Timing
mod Flow
mod Later
mod Stores
mod Scanner
mod Scans
mod Service
