-- ===== src/Orchestrator.antt =====
-- The orchestrator of pipelines, internal/analyzers/orchestrator.go.
pub mod Types
pub mod Coordinate
pub mod Requests
pub mod Views
pub mod Stopped
pub mod Running
pub mod Figures
pub mod Sent
pub mod Rotation
pub mod Added
mod Examples
