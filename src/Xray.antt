-- ===== src/Xray.antt =====
-- The managed Xray configuration: internal/xrayconfig and internal/xrayruntime.
pub mod Digits
pub mod Target
pub mod Disk
pub mod Validate
pub mod Files
pub mod Prune
pub mod Rollback
pub mod Apply
pub mod Reading
pub mod Upgrade
