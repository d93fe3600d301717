-- ===== src/VpnGw.antt =====
-- The VpnGw reconciler (internal/controller/vpngw_controller.go).
pub mod Validate
pub mod Status
pub mod Ipsec
pub mod Port
pub mod Build
pub mod Client
pub mod Refresh
pub mod Exec
pub mod Handler
