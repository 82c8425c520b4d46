-- ===== src/Moves.antt =====
-- background/moves.go: the moves of records between folders that the rules of a user ask for.
pub mod Rules
pub mod Requested
pub mod Stored
pub mod Record
mod Tests
mod RecordTests
