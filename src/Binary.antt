-- ===== src/Binary.antt =====
-- The managed Xray binary and its data files: internal/xrayupdate.
pub mod Manifest
pub mod Disk
pub mod Bundle
pub mod Files
pub mod Prune
pub mod Install
pub mod Apply
pub mod Upgrade
