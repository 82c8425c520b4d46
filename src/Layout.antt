-- ===== src/Layout.antt =====
-- org/org.go: the order of a collection and its layout on shelves.
pub mod Types
pub mod Sorting
pub mod Keys
pub mod Groups
pub mod Place
pub mod Build
pub mod Moves
pub mod Total
pub mod Placed
pub mod Sequence
pub mod Complete
pub mod Load
pub mod Capacity
pub mod Grouping
pub mod Snapshot
pub mod Widths
mod Tests
