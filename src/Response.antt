-- ===== src/Response.antt =====
-- The response processor, internal/extractors/response_processor.go.
pub mod Types
pub mod Enrich
pub mod Process
pub mod Stats
pub mod Kept
pub mod Retry
pub mod Scores
mod Examples
