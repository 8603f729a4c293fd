-- ===== src/Core.antt =====
-- The package core: virtual services and backends.
pub mod Kernel
pub mod Payload
pub mod Options
pub mod Store
pub mod Context
pub mod Runtime
pub mod Invariant
pub mod Sync
pub mod Daemon
pub mod Start
pub mod Exporter
pub mod Removal
pub mod Vip
