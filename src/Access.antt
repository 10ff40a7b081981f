-- ===== src/Access.antt =====
-- The collector of Xray's access log: internal/telemetry/access.go.
pub mod Lines
pub mod Anchor
pub mod Drain
pub mod Delivery
pub mod Collect
pub mod Append
pub mod Fuel
pub mod Spooled
