-- ===== src/Cleaner.antt =====
-- internal/extractors/json_cleaner.go: the JSON in the answer of a language model.
pub mod Repair
pub mod Structure
pub mod Clean
pub mod Comments
pub mod Shape
pub mod Balance
pub mod Extract
mod Samples
