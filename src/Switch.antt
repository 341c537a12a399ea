-- ===== src/Switch.antt =====
-- src/index.js: the switch. Its transports, its protocols and its life from start to stop.
pub mod Available
pub mod Protocols
pub mod Lifecycle
pub mod Running
pub mod Jobs
pub mod Starting
pub mod Stopping
pub mod Hasty
pub mod Examples
