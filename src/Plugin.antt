-- ===== src/Plugin.antt =====
-- crates/clash-prism-plugin: the plugin system.
pub mod Permission
pub mod Hook
pub mod Manifest
pub mod Lifecycle
pub mod Cooldown
pub mod Cron
