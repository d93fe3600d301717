-- ===== src/Debugger.antt =====
-- The Debugger reconciler (internal/controller/debugger_controller.go).
pub mod Validate
pub mod Status
pub mod Volumes
pub mod Envs
pub mod Build
pub mod Handler
