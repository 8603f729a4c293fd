-- ===== src/Tests.antt =====
-- Tests of the model on concrete inputs, and the theorems at them.
pub mod Fixtures
mod Core
mod Pulse
mod Loop
mod Main
mod Kernel
mod Util
mod Http
mod Link
mod Store
mod Sync
