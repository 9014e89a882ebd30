-- ===== src/Detection.antt =====
-- internal/detection: the port scanner's circuit breaker, and the port scanner.
pub mod Breaker
pub mod Naabu
