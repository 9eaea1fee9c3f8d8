-- ===== src/Nacos.antt =====
-- crates/neon-config/src/nacos: configuration from a local file or from nacos, with hot reload.
pub mod Format
pub mod Source
pub mod Client
pub mod Build
pub mod Reload
pub mod Worker
mod Tests
