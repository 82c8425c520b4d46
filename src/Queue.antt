-- ===== src/Queue.antt =====
-- queuelogic/logic.go: the task queue.
pub mod Element
pub mod Store
pub mod State
pub mod Ops
pub mod Run
pub mod Refines
pub mod Removal
pub mod Admission
pub mod Contract
pub mod Choice
pub mod Next
pub mod Settle
pub mod Rounds
pub mod Memory
mod Tests
pub mod Refusal
pub mod Drain
