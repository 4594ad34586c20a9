-- ===== src/Fault.antt =====
-- internal/fault/fault.go: the circuit breaker, the retry loop and their composition.
pub mod Breaker
pub mod Retry
pub mod Resilience
