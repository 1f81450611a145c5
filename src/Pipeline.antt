-- ===== src/Pipeline.antt =====
-- The analysis pipeline, internal/analyzers/pipeline.go.
pub mod Types
pub mod Extraction
pub mod Rounds
pub mod Flow
pub mod Setup
pub mod Identity
pub mod Uses
pub mod Steps
pub mod Places
pub mod Accounts
pub mod Progress
pub mod Idle
pub mod Drain
pub mod Analyze
pub mod Callers
pub mod Stale
pub mod Totals
pub mod Outcomes
pub mod Unserved
pub mod Deadlines
mod Examples
