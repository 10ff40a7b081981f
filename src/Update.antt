-- ===== src/Update.antt =====
-- Updates of the agent's own binary: internal/update.
pub mod Archive
pub mod Disk
pub mod Install
pub mod Apply
pub mod Pruning
pub mod Safety
pub mod Released
