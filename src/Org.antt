-- ===== src/Org.antt =====
-- org/: the placement of records on shelves.
pub mod Types
pub mod Diff
pub mod Counting
pub mod Relax
pub mod Visit
pub mod Loop
pub mod Indices
pub mod Pick
pub mod Order
pub mod Cycles
pub mod Changes
mod Tests
