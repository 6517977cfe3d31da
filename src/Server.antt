-- ===== src/Server.antt =====
-- crates/shell-mcp/src/server.rs: the scheduler, the execution policy of the tools, the response cap and
-- the event loop.
pub mod Keys
pub mod Scheduler
pub mod Invariant
pub mod Exclusion
pub mod Order
pub mod Progress
pub mod Tools
pub mod Policy
pub mod Paths
pub mod Response
pub mod Loop
pub mod Settled
pub mod Call
pub mod Work
pub mod Completes
