-- ===== src/Api.antt =====
-- The custom resources (api/v1/*_types.go), one child for each kind, and what kinds share.
pub mod Meta
pub mod KeepAlived
pub mod VpnGw
pub mod IpsecConn
pub mod Pinger
pub mod Debugger
