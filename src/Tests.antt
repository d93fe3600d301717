-- ===== src/Tests.antt =====
-- Runs of the model, and the theorems at concrete inputs.
mod Samples
mod Webhooks
mod Gateway
mod Asked
mod Built
mod Handled
mod Streams
mod Debuggers
mod Recorded
mod Idle
mod Stores
mod Detections
mod Probing
mod Metered
mod Leaks
mod Launches
