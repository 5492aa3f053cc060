-- ===== src/Workflows.antt =====
-- src/compute/workflows.rs: workflows as graphs of steps, and their execution. The children are the
-- data, the execution of one step, the loop over the graph, and the laws.
pub mod Types
pub mod Steps
pub mod Dag
pub mod Status
pub mod Ending
pub mod Runs
pub mod Gone
pub mod Cancelled
pub mod Nested
mod Tests
