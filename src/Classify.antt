-- ===== src/Classify.antt =====
-- classification/classification.go: the classification of a record by the rules of a configuration.
pub mod Types
pub mod Rules
pub mod Cached
pub mod Checks
mod Tests
