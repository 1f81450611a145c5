-- ===== src/Validation.antt =====
-- The entity validator, internal/extractors/entity_validator.go.
pub mod Types
pub mod Formats
pub mod Single
pub mod Passes
pub mod Unique
pub mod Order
pub mod Filter
mod Examples
