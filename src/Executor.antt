-- ===== src/Executor.antt =====
-- The executors of src/executor: what a query plan's nodes do with the chunks of their children.
pub mod Stream
pub mod Builder
pub mod Evaluate
pub mod Aggregate
pub mod Group
pub mod Join
pub mod Limit
pub mod Order
