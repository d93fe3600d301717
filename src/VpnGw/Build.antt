-- ===== src/VpnGw/Build.antt =====
-- The workloads of a gateway: what `statefulSetForVpnGw` and `daemonsetForVpnGw` share.
pub mod Containers
pub mod Stateful
pub mod Daemon
pub mod Inversion
pub mod Selected
pub mod Parts
pub mod Shape
pub mod Panics
