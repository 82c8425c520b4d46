-- ===== src/Sales.antt =====
-- background/sales.go: the sales of a user, their prices and their copy of the shop's state.
pub mod Types
pub mod Updates
pub mod Store
pub mod Memory
pub mod Sync
pub mod Synced
pub mod Page
pub mod Clean
pub mod Passes
pub mod Chain
pub mod Refresh
pub mod Reprice
pub mod Outcome
pub mod Adjust
pub mod Floor
pub mod Adjusting
pub mod Adjusted
mod Tests
mod PriceTests
