-- ===== src/Keepalived.antt =====
-- The KeepAlived reconciler (internal/controller/keepalived_controller.go).
pub mod Alloc
pub mod Handler
pub mod Store
pub mod Room
pub mod Status
mod Tests
