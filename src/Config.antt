-- ===== src/Config.antt =====
-- config/: the checks of a user's configuration, and what it asks of a record.
pub mod Types
pub mod Mandates
pub mod Shelves
pub mod Sound
pub mod Validate
pub mod Room
pub mod Apply
mod Tests
