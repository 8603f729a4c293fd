-- ===== src/Pulse.antt =====
-- The package pulse: health checks and their statistics.
pub mod Options
pub mod Floats
pub mod Status
pub mod Metrics
pub mod Driver
pub mod Window
pub mod Expect
pub mod Loop
