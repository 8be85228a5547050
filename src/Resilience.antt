-- ===== src/Resilience.antt =====
-- fusen/src/resilience: failure classes, rolling windows, circuit breakers, retries.
pub mod Failure
pub mod Window
pub mod Breaker
pub mod Store
pub mod Retry
