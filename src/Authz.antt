-- ===== src/Authz.antt =====
-- crates/shell-mcp/src/authz.rs: which tool calls a principal may make.
pub mod Policy
pub mod Patterns
pub mod Decides
