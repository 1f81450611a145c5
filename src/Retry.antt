-- ===== src/Retry.antt =====
-- internal/extractors/retry_fallback.go: an extraction is tried again, or in a simpler way.
pub mod Types
pub mod Strategy
pub mod Fallback
pub mod Attempts
pub mod Degrade
mod Examples
