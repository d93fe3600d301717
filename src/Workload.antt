-- ===== src/Workload.antt =====
-- The Kubernetes objects that the controllers build, and how they build them.
pub mod Objects
pub mod Builder
pub mod Mounts
