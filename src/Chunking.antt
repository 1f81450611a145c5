-- ===== src/Chunking.antt =====
-- internal/extractors/intelligent_chunking.go: documents are split into chunks.
pub mod Boundaries
pub mod Types
pub mod Text
pub mod CrossRefs
pub mod Split
pub mod Coverage
pub mod Ids
pub mod Breaks
pub mod Rebuild
mod Examples
