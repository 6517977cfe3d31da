-- ===== src/Permissions.antt =====
-- crates/shell-mcp/src/permissions.rs: commands rewritten so that they do not ask, and what becomes of errors.
pub mod Words
pub mod Rules
pub mod Rewrite
pub mod Recovery
pub mod Tokens
pub mod Twice
